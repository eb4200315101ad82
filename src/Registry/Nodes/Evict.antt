-- ===== src/Registry/Nodes/Evict.antt =====
-- `EvictNode` of internal/registry/nodes.go, with internal/model/evict.go.
pub mod Outcome
use flux_mesh.Base.{
  ℕ, Bool, true, false, not, ◌&&◌, ◌||◌, Option, none, some, List, [], ◌∷◌, ◌++◌, map, ltb,
  if◌then◌else◌, ◌==◌, nat_eq, Result, ok, err, ℤ, pos, int_eq, Str, codes, str_eq, str_lt,
  trim_space, is_empty,
}
use flux_mesh.Base.Dict
use flux_mesh.Base.Dict.{Dict}
use flux_mesh.Base.Sorting.{sort_stable}
use flux_mesh.Registry.Etcd.{KeyValue, Etcd}
use flux_mesh.Registry.Services.{Json}
use flux_mesh.Registry.Cluster.{
  NodeError, node_not_found, leader_evict_requires_force, no_endpoint, node_not_marshalled,
  node_not_unmarshalled, client_failed, Member, EndpointStatus, Client, first_endpoint, member_role,
  member_roles, target_member,
}
use flux_mesh.Registry.Nodes.{Node, NodeStatus, node_key, is_server, get_node}

pub record NodeEvictResult : Type 0 where
  pub node_id : Str
  pub node_role : Str
  pub node_deleted : Bool
  pub member_id : ℕ
  pub member_removed : Bool

module _ {F S J E : Type 0} (json : Json (Node F) J) (etcd : Etcd S J E) (client : Client S E) where
  abbrev pub no_result : NodeEvictResult
  no_result = record {
    node_id = [];
    node_role = [];
    node_deleted = false;
    member_id = 0;
    member_removed = false;
  }

  -- Whether the eviction of a server may go on: the member to remove, which is 0 if there is
  -- none, or the error that ends the call.
  leader_checked : Bool → ℕ → Result E EndpointStatus → Result (NodeError E) ℕ
  leader_checked force target (err e) = err (client_failed e)
  leader_checked force target (ok status) =
      if (status.leader == target) && not force then err leader_evict_requires_force else ok target

  target_checked : Bool → S → ℕ → Result (NodeError E) ℕ
  unfolding leader_checked first_endpoint
  target_checked force s target =
      let endpoint = first_endpoint client.endpoints in
      if target == 0
      then ok 0
      else if is_empty endpoint
      then err no_endpoint
      else leader_checked force target (client.status endpoint s)

  members_checked : Str → Bool → S → Result E (List (Option Member)) → Result (NodeError E) ℕ
  unfolding target_checked target_member
  members_checked id force s (err e) = err (client_failed e)
  members_checked id force s (ok members) = target_checked force s (target_member id members)

  unfoldable pub evict_target : Str → Bool → Node F → S → Result (NodeError E) ℕ
  unfolding members_checked
  evict_target id force node s =
      if is_server node then members_checked id force s (client.member_list s) else ok 0

  evict_member : NodeEvictResult → ℕ → S × Option E → S × NodeEvictResult × Option (NodeError E)
  evict_member result target (s, some e) = (s, result, some (client_failed e))
  evict_member result target (s, none) =
      (s, record result { member_id = target; member_removed = true }, none)

  evict_deleted : Str → Node F → ℕ → S × Result E ℕ → S × NodeEvictResult × Option (NodeError E)
  unfolding evict_member
  evict_deleted id node target (s, err e) = (s, no_result, some (client_failed e))
  evict_deleted id node target (s, ok deleted) =
      let result : NodeEvictResult = record {
        node_id = id;
        node_role = node.node_status.node_role;
        node_deleted = ltb 0 deleted;
        member_id = 0;
        member_removed = false;
      } in
      let removed = evict_member result target (client.member_remove target s) in
      if not (is_server node)
      then (s, result, none)
      else if target == 0
      then (s, result, none)
      else removed

  evict_checked :
      Str → Node F → S → Result (NodeError E) ℕ → S × NodeEvictResult × Option (NodeError E)
  unfolding evict_deleted node_key
  evict_checked id node s (err e) = (s, no_result, some e)
  evict_checked id node s (ok target) = evict_deleted id node target (etcd.delete (node_key id) s)

  evict_found :
      Str → Bool → S → Result (NodeError E) (Node F) → S × NodeEvictResult × Option (NodeError E)
  unfolding evict_checked evict_target
  evict_found id force s (err e) = (s, no_result, some e)
  evict_found id force s (ok node) = evict_checked id node s (evict_target id force node s)

  unfoldable pub evict_node : Str → Bool → S → S × NodeEvictResult × Option (NodeError E)
  unfolding evict_found get_node
  evict_node raw force s =
      let id = trim_space raw in evict_found id force s (get_node json etcd client id s)
