-- ===== src/Lib.antt =====
-- FluxMesh: models of its soft key-value store, its gossip, its service configuration, its
-- registries over etcd, its traffic plan, its traffic server and its management API, with their
-- properties.
--
-- The program is a service mesh node. internal/model/service.go has the configuration of a
-- service. internal/traffic compiles all services into a plan: which listener has which routes,
-- which groups of targets there are and by which strategy a target is picked. internal/softkv is
-- a store of short-lived entries that nodes exchange by gossip. internal/registry keeps services
-- and nodes in etcd, with revisions and leases. internal/traffic/server.go serves requests by the
-- plan and opens the listeners that it asks for. internal/httpapi is the API by which services and
-- nodes are managed. internal/reconcile removes members from etcd
-- again whose first removal failed.
--
-- Files, with the code that they model:
--   Base               helpers: integers, lists, text, maps, the stable sort
--   SoftKv.Store       internal/softkv/store.go: the store and its operations; below it Accept
--                      (when an entry replaces another), Replica, Settle, Convergence,
--                      Divergence (replicas), Access, Invariant, Counted (counters),
--                      Sequence, Expiry
--   SoftKv.Bus         internal/softkv/bus.go and writer.go: Publish, RunLoopback, Write
--   SoftKv.Gossip      internal/softkv/memberlist.go: messages and full states (Exchange), the
--                      retry interval (Retry), the join targets (Targets)
--   Reconcile          internal/reconcile/member_reconcile.go: Add, runOnce, scheduleRetry
--   Model.Service      internal/model/service.go: records, ApplyDefaults; Validate below it
--   Traffic.Balancer   internal/traffic/balancer.go: the four strategies and their registry
--   Traffic.Match      internal/traffic/runtime.go: the two-level index of routes
--   Traffic.Plan       internal/traffic/runtime.go: BuildPlan; below it Query (the methods
--                      that read), Sound (what each round keeps), Built (what is returned)
--   Traffic.Resolve    internal/traffic/runtime.go: destinations, candidates for attempts
--   Traffic.Metrics    internal/traffic/server.go: the counters (Recorded), their sampling, the retry
--                      budget
--   Traffic.Forward    internal/traffic/server.go: addresses and headers of forwarded requests
--   Traffic.Serve      internal/traffic/server.go: the candidates of a request and its retries
--                      (Loop); what forwardDirect sends (Direct); Handler is serveRequest, with
--                      its limit on hops (Hops)
--   Traffic.Refresh    internal/traffic/server.go: refresh, the listeners that follow the plan
--                      (Converge), and a second refresh (Again)
--   Traffic.Dial       internal/traffic/server.go: the addresses that are dialled, and the
--                      candidate that a TCP connection is joined to (First)
--   Traffic.Sessions   internal/traffic/server.go: the UDP sessions (Kept), their reaper (Reaped),
--                      and a packet (Packet)
--   Registry.Etcd      the calls of the etcd client, and what etcd documents of them
--   Registry.Services  internal/registry/services.go; Spec is a catalogue with revisions, which
--                      the writes implement (Written, Refinement); Reads, Revision
--   Registry.Cluster   internal/registry/nodes.go: roles of members, ClusterStatus (Status)
--   Registry.Nodes     internal/registry/nodes.go: nodes and leases (Lease), roles (Roles),
--                      EvictNode (Evict)
--   HttpApi            internal/httpapi/server.go: the handlers of services (Services), nodes and
--                      the cluster (Nodes), the soft store (SoftKv), the plan (Plans); what the
--                      statuses of services tell (Services.Refusals)
--   Startup            internal/app/app.go: startEtcdAndClient (Accounted), recoverLease (Lease),
--                      discoverGossipPeers (Peers); internal/etcd/join.go (Join, Join.Own)
--   Config             internal/config/config.go: Validate, the environment (Accepted)
--   Tests              the properties at concrete inputs
--
-- Conventions. A function of the source has its name in snake case. State is passed and returned;
-- one call runs at a time, as under the mutexes. A clock reading is an argument, in nanoseconds
-- since 1970, so no reading lies before it. Text is the list of its bytes, read as ASCII by
-- TrimSpace and ToLower. An int is an unbounded integer; the uint64 counters and sequence numbers
-- wrap. A map is an association list in the order in which Go would range over it; the theorems
-- hold for every order. sort.Slice and sort.SliceStable are a stable insertion sort; the keys of
-- the unstable one are distinct. A random draw is a parameter of the call. A float64 is a
-- parameter. The packages net, net/url, encoding/json and the calls of etcd and memberlist are
-- parameters, with what is assumed of them in named hypotheses. No model has fuel: each loop runs
-- over a list or a count, and the recovery of a lease, which has no bound, over the attempts given.
--
-- A call of etcd passes on a state of etcd and the network. One that fails may have had its
-- effect; one that reads leaves what etcd holds as it is, so that no other client writes between
-- the swap and the read of UpdateWithRevision, or between the read and the deletion of EvictNode.
-- json.Unmarshal gives back what json.Marshal was given, as it does for valid UTF-8; of the values
-- of type any in the soft store it makes its own types, by a parameter. What is sent upstream is
-- what is handed to the transport or to httputil.ReverseProxy, which changes it in its own way.
--
-- A response of the API is its status and what its body is made of; the body of a request is none
-- where it cannot be read, and holds none where it is not JSON. What other UDP packets do while one
-- dials is any function of the sessions. A time to live does not overflow.
--
-- Not modelled: the sockets and goroutines of the traffic server, logging, metrics of the system,
-- the embedded etcd, the rest of the application and its flags, which are input and output around
-- the parts above. `ApplyDefaults` writes into slices that BuildPlan shares with its caller; the
-- models return new lists.
pub mod Base
pub mod SoftKv
pub mod Reconcile
pub mod Config
pub mod Model
pub mod Registry
pub mod HttpApi
pub mod Startup
pub mod Traffic
mod Tests
