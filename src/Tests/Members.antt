-- ===== src/Tests/Members.antt =====
-- Runs of internal/registry on nodes, over a cluster of two members that always answers.
use flux_mesh.Base.{
  ℕ, true, false, Option, none, some, List, [], ◌∷◌, ok, err, ◌⊎◌, pos, Str, codes, has_prefix,
  str_beq, trim_space, ◌≡◌, sym, refl, map, is_empty,
}
use flux_mesh.Base.Dict
use flux_mesh.Registry.Services.{Json}
use flux_mesh.Registry.Cluster.{
  Member, EndpointStatus, Client, ClusterStatus, first_endpoint, member_statuses, member_before,
  cluster_status,
}
use flux_mesh.Registry.Cluster.Status.{IsReport, cluster_status-IsReport}
use flux_mesh.Registry.Nodes.{
  Node, node_key, register_with_lease, list_nodes, list_nodes_with_etcd_role, get_node,
  decode_nodes,
}
use flux_mesh.Registry.Nodes.Roles.{assign, cluster_known, list_nodes_with_etcd_role-assign}
use flux_mesh.Registry.Nodes.Lease.{IsRegistered, get_node-register_with_lease}
use flux_mesh.Registry.Nodes.Evict.{evict_node}
use flux_mesh.Registry.Nodes.Evict.Outcome.{IsEvicted, evict_node-IsEvicted}
use flux_mesh.Base.Sorting.{sort_stable}
use flux_mesh.Tests.Etcd.{Cells, held, local_etcd, local_etcd-IsEtcd}

abbrev Machine : Type 0
Machine = Node ℕ

abbrev plain : Json Machine Machine
plain = record { marshal = λ c. some c; unmarshal = λ c. some c }

abbrev member : ℕ → Str → Option Member
member id name =
    some (record { id = id; name = name; is_learner = false; peer_urls = []; client_urls = [] })

abbrev leading : EndpointStatus
leading = record {
  cluster_id = 9;
  member_id = 1;
  leader = 1;
  raft_term = 3;
  raft_index = 40;
  raft_applied_index = 40;
  db_size = pos 1024;
}

abbrev pair_members : List (Option Member)
pair_members = member 2 (codes "b") ∷ none ∷ member 1 (codes "a") ∷ []

abbrev pair : Client (Cells Machine) Unit
pair = record {
  endpoints = codes " " ∷ codes "http://10.0.0.1:2379" ∷ [];
  status = λ e s. ok leading;
  member_list = λ s. ok pair_members;
  member_remove = λ id s. (s, none);
  grant = λ ttl s. (s, ok (pos 7));
  keep_alive = λ lease s. (s, none);
  revoke = λ lease s. (s, none);
}

abbrev machine : Str → Str → Machine
machine id role = record {
  id = id;
  ip = [];
  version = [];
  node_status = record { node_role = role; etcd_role = []; node_status = codes "Ready" };
  sys_load = record {
    cpu_usage = 0;
    memory_usage = 0;
    system_load_1m = 0;
    system_load_5m = 0;
    system_load_15m = 0;
  };
}

abbrev first : Machine
first = machine (codes "a") (codes "server")

abbrev nobody : Cells Machine
nobody = []

abbrev joined : Cells Machine
joined = (register_with_lease plain local_etcd pair first (pos 30) nobody).0

abbrev the_status : Cells Machine → ClusterStatus
the_status s = record {
  endpoint = codes "http://10.0.0.1:2379";
  cluster_id = 9;
  current_member_id = 1;
  leader_id = 1;
  raft_term = 3;
  raft_index = 40;
  raft_applied_index = 40;
  db_size = pos 1024;
  members = sort_stable member_before (member_statuses 1 pair_members);
}

cluster_status-IsReport_example :
    (is_empty (first_endpoint pair.endpoints) ≡ false)
    × (status : EndpointStatus) × (members : List (Option Member)) × (pair.status
          (first_endpoint pair.endpoints)
          nobody
        ≡ ok status)
    × (pair.member_list nobody ≡ ok members)
    × IsReport pair status members (the_status nobody)
unfolding cluster_status first_endpoint trim_space
cluster_status-IsReport_example = cluster_status-IsReport pair nobody (the_status nobody) refl

get_node-register_with_lease_example :
    IsRegistered plain local_etcd pair held local_etcd-IsEtcd
      (λ ttl s j. refl)
      (λ l s j. refl)
      first
      (pos 7)
      nobody
      joined
    × ((get_node plain local_etcd pair (codes "a") joined ≡ ok first)
        ⊎ ((e : Unit) × (local_etcd.get (node_key (codes "a")) joined ≡ err e)))
unfolding register_with_lease
get_node-register_with_lease_example =
    get_node-register_with_lease plain local_etcd pair held local_etcd-IsEtcd (λ ttl s j. refl)
      (λ l s j. refl) first (pos 30) (pos 7) nobody joined (λ n raw h. sym h) refl

list_nodes_with_etcd_role-assign_example :
    list_nodes_with_etcd_role plain local_etcd pair joined
    ≡ ok (map (assign (cluster_known plain local_etcd pair joined)) (first ∷ []))
unfolding list_nodes register_with_lease decode_nodes Dict.put Dict.get trim_space has_prefix
    str_beq
list_nodes_with_etcd_role-assign_example =
    list_nodes_with_etcd_role-assign plain local_etcd pair joined (first ∷ []) refl

-- The leader is evicted with force.
evict_node-IsEvicted_example :
    IsEvicted plain local_etcd pair held
      (codes "a")
      true
      joined
      (evict_node plain local_etcd pair (codes "a ") true joined)
unfolding trim_space
evict_node-IsEvicted_example =
    evict_node-IsEvicted plain local_etcd pair held local_etcd-IsEtcd (λ id s j. refl) (codes "a ")
      true joined
