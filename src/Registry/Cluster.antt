-- ===== src/Registry/Cluster.antt =====
-- The members of the etcd cluster in internal/registry/nodes.go, with internal/model/cluster.go:
-- their roles, and `ClusterStatus`. The etcd client is a parameter.
pub mod Status
use flux_mesh.Base.{
  ℕ, Bool, true, false, not, ◌&&◌, ◌||◌, Option, none, some, List, [], ◌∷◌, ◌++◌, map, ltb,
  if◌then◌else◌, ◌==◌, nat_eq, Result, ok, err, ℤ, pos, int_eq, Str, codes, str_eq, str_lt,
  trim_space, is_empty,
}
use flux_mesh.Base.Dict
use flux_mesh.Base.Dict.{Dict}
use flux_mesh.Base.Sorting.{sort_stable}
use flux_mesh.Registry.Etcd.{KeyValue, Etcd}

pub record ClusterMemberStatus : Type 0 where
  pub id : ℕ
  pub name : Str
  pub role : Str
  pub is_learner : Bool
  pub peer_urls : List Str
  pub client_urls : List Str

pub record ClusterStatus : Type 0 where
  pub endpoint : Str
  pub cluster_id : ℕ
  pub current_member_id : ℕ
  pub leader_id : ℕ
  pub raft_term : ℕ
  pub raft_index : ℕ
  pub raft_applied_index : ℕ
  pub db_size : ℤ
  pub members : List ClusterMemberStatus

pub data NodeError (E : Type 0) : Type 0 where
  node_not_found leader_evict_requires_force no_endpoint node_not_marshalled : NodeError E
  node_not_unmarshalled : NodeError E
  client_failed : E → NodeError E

-- What is used of the client beside its keys: its leases, and the members of the cluster, of
-- which an entry may be nil.
pub record Member : Type 0 where
  pub id : ℕ
  pub name : Str
  pub is_learner : Bool
  pub peer_urls : List Str
  pub client_urls : List Str

pub record EndpointStatus : Type 0 where
  pub cluster_id : ℕ
  pub member_id : ℕ
  pub leader : ℕ
  pub raft_term : ℕ
  pub raft_index : ℕ
  pub raft_applied_index : ℕ
  pub db_size : ℤ

pub record Client (S E : Type 0) : Type 0 where
  pub endpoints : List Str
  pub status : Str → S → Result E EndpointStatus
  pub member_list : S → Result E (List (Option Member))
  pub member_remove : ℕ → S → S × Option E
  pub grant : ℤ → S → S × Result E ℤ
  pub keep_alive : ℤ → S → S × Option E
  pub revoke : ℤ → S → S × Option E

-- The loop that looks for an endpoint with a text; the empty text if there is none.
unfoldable pub first_endpoint : List Str → Str
first_endpoint [] = []
first_endpoint (e ∷ es) =
    let rest = first_endpoint es in if is_empty (trim_space e) then rest else trim_space e

unfoldable pub member_role : ℕ → Member → Str
member_role leader m = if m.id == leader then codes "leader" else codes "follower"

-- The loop that fills `memberRoleByName`.
unfoldable pub member_roles : ℕ → List (Option Member) → Dict Str Str → Dict Str Str
member_roles leader [] roles = roles
member_roles leader (none ∷ ms) roles = member_roles leader ms roles
member_roles leader (some m ∷ ms) roles =
    member_roles leader ms (Dict.put roles m.name (member_role leader m))

-- The loop that looks for the member of a name; 0 if there is none.
unfoldable pub target_member : Str → List (Option Member) → ℕ
target_member id [] = 0
target_member id (none ∷ ms) = target_member id ms
target_member id (some m ∷ ms) =
    let rest = target_member id ms in if m.name == id then m.id else rest

unfoldable pub member_status : ℕ → Member → ClusterMemberStatus
unfolding member_role
member_status leader m = record {
  id = m.id;
  name = m.name;
  role = if m.is_learner then codes "learner" else member_role leader m;
  is_learner = m.is_learner;
  peer_urls = m.peer_urls;
  client_urls = m.client_urls;
}

unfoldable pub member_statuses : ℕ → List (Option Member) → List ClusterMemberStatus
unfolding member_status
member_statuses leader [] = []
member_statuses leader (none ∷ ms) = member_statuses leader ms
member_statuses leader (some m ∷ ms) = member_status leader m ∷ member_statuses leader ms

unfoldable pub member_before : ClusterMemberStatus → ClusterMemberStatus → Bool
member_before a b = if a.name == b.name then ltb a.id b.id else str_lt a.name b.name

module _ {S E : Type 0} (client : Client S E) where
  status_of :
      Str → EndpointStatus → Result E (List (Option Member)) → Result (NodeError E) ClusterStatus
  unfolding member_statuses member_before
  status_of endpoint status (err e) = err (client_failed e)
  status_of endpoint status (ok members) = ok (record {
    endpoint = endpoint;
    cluster_id = status.cluster_id;
    current_member_id = status.member_id;
    leader_id = status.leader;
    raft_term = status.raft_term;
    raft_index = status.raft_index;
    raft_applied_index = status.raft_applied_index;
    db_size = status.db_size;
    members = sort_stable member_before (member_statuses status.leader members);
  })

  status_at : Str → S → Result E EndpointStatus → Result (NodeError E) ClusterStatus
  unfolding status_of
  status_at endpoint s (err e) = err (client_failed e)
  status_at endpoint s (ok status) = status_of endpoint status (client.member_list s)

  unfoldable pub cluster_status : S → Result (NodeError E) ClusterStatus
  unfolding status_at first_endpoint
  cluster_status s =
      let endpoint = first_endpoint client.endpoints in
      if is_empty endpoint then err no_endpoint else status_at endpoint s (client.status endpoint s)
