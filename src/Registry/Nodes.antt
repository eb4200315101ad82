-- ===== src/Registry/Nodes.antt =====
-- internal/registry/nodes.go, with the records of internal/model/node.go: the nodes that etcd
-- holds. encoding/json and the etcd client are parameters; a float64 is a parameter `F`. What is
-- logged is left out.
pub mod Roles
pub mod Evict
pub mod Lease
use flux_mesh.Base.{
  ℕ, Bool, true, false, not, ◌&&◌, ◌||◌, Option, none, some, List, [], ◌∷◌, ◌++◌, map, ltb,
  if◌then◌else◌, ◌==◌, nat_eq, Result, ok, err, ℤ, pos, int_eq, Str, codes, str_eq, str_lt,
  trim_space, is_empty,
}
use flux_mesh.Base.Dict
use flux_mesh.Base.Dict.{Dict}
use flux_mesh.Base.Sorting.{sort_stable}
use flux_mesh.Registry.Etcd.{KeyValue, Etcd}
use flux_mesh.Registry.Services.{Json}
use flux_mesh.Registry.Cluster.{
  NodeError, node_not_found, leader_evict_requires_force, no_endpoint, node_not_marshalled,
  node_not_unmarshalled, client_failed, Member, EndpointStatus, Client, first_endpoint, member_role,
  member_roles, target_member,
}

pub record SysLoad (F : Type 0) : Type 0 where
  pub cpu_usage : F
  pub memory_usage : F
  pub system_load_1m : F
  pub system_load_5m : F
  pub system_load_15m : F

pub record NodeStatus : Type 0 where
  pub node_role : Str
  pub etcd_role : Str
  pub node_status : Str

pub record Node (F : Type 0) : Type 0 where
  pub id : Str
  pub ip : Str
  pub version : Str
  pub node_status : NodeStatus
  pub sys_load : SysLoad F

nodes_prefix : Str
nodes_prefix = codes "/mesh/nodes/"

unfoldable pub node_key : Str → Str
unfolding nodes_prefix
node_key id = nodes_prefix ++ trim_space id

role_in : Dict Str Str → Str → Str
role_in roles id = elim (Dict.get roles id) [ none ↦ codes "unknown" | some role ↦ role ]

module _ {F : Type 0} where
  abbrev pub with_role : Str → Node F → Node F
  with_role role n = record n { node_status = record n.node_status { etcd_role = role } }

  abbrev pub is_server : Node F → Bool
  is_server n = n.node_status.node_role == codes "server"

  unfoldable pub mark_unknown_etcd_roles : List (Node F) → List (Node F)
  mark_unknown_etcd_roles [] = []
  mark_unknown_etcd_roles (n ∷ ns) =
      with_role (if is_server n then codes "unknown" else codes "agent") n
      ∷ mark_unknown_etcd_roles ns

  -- The loop that writes the roles.
  unfoldable pub set_etcd_roles : Dict Str Str → List (Node F) → List (Node F)
  unfolding role_in
  set_etcd_roles roles [] = []
  set_etcd_roles roles (n ∷ ns) =
      with_role (if is_server n then role_in roles n.id else codes "agent") n
      ∷ set_etcd_roles roles ns

module _ {F S J E : Type 0} (json : Json (Node F) J) (etcd : Etcd S J E) (client : Client S E) where
  bind_lease : ℤ → S × Option E → S × Result (NodeError E) ℤ
  bind_lease lease (s, some e) = (s, err (client_failed e))
  bind_lease lease (s, none) = elim (client.keep_alive lease s).1 [
    | none ↦ ((client.keep_alive lease s).0, ok lease)
    | some e ↦ ((client.keep_alive lease s).0, err (client_failed e))
  ]

  register_payload : Node F → ℤ → S → Option J → S × Result (NodeError E) ℤ
  unfolding bind_lease node_key
  register_payload node lease s none = (s, err node_not_marshalled)
  register_payload node lease s (some payload) =
      bind_lease lease (etcd.put (node_key node.id) payload lease s)

  register_granted : Node F → S × Result E ℤ → S × Result (NodeError E) ℤ
  unfolding register_payload
  register_granted node (s, err e) = (s, err (client_failed e))
  register_granted node (s, ok lease) = register_payload node lease s (json.marshal node)

  -- The lease of the registration; the channel of its renewals is left out.
  unfoldable pub register_with_lease : Node F → ℤ → S → S × Result (NodeError E) ℤ
  unfolding register_granted
  register_with_lease node ttl s = register_granted node (client.grant ttl s)

  failed : Option E → Option (NodeError E)
  failed none = none
  failed (some e) = some (client_failed e)

  unfoldable pub revoke : ℤ → S → S × Option (NodeError E)
  unfolding failed
  revoke lease s =
      let (s', e) = client.revoke lease s in if lease == pos 0 then (s, none) else (s', failed e)

  update_payload : Node F → ℤ → S → Option J → S × Option (NodeError E)
  unfolding failed node_key
  update_payload node lease s none = (s, some node_not_marshalled)
  update_payload node lease s (some payload) =
      let (s', e) = etcd.put (node_key node.id) payload lease s in (s', failed e)

  unfoldable pub update_node_with_lease : Node F → ℤ → S → S × Option (NodeError E)
  unfolding update_payload
  update_node_with_lease node lease s = update_payload node lease s (json.marshal node)

  decoded_node : Option (Node F) → List (Node F) → List (Node F)
  decoded_node none rest = rest
  decoded_node (some node) rest = node ∷ rest

  -- The loop skips a value that is not a node.
  unfoldable pub decode_nodes : List (KeyValue J) → List (Node F)
  unfolding decoded_node
  decode_nodes [] = []
  decode_nodes (kv ∷ kvs) = decoded_node (json.unmarshal kv.value) (decode_nodes kvs)

  listed_nodes : Result E (List (KeyValue J)) → Result (NodeError E) (List (Node F))
  unfolding decode_nodes
  listed_nodes (err e) = err (client_failed e)
  listed_nodes (ok kvs) = ok (decode_nodes kvs)

  unfoldable pub list_nodes : S → Result (NodeError E) (List (Node F))
  unfolding listed_nodes nodes_prefix
  list_nodes s = listed_nodes (etcd.get_prefix nodes_prefix s)

  roles_of_members : List (Node F) → ℕ → Result E (List (Option Member)) → List (Node F)
  unfolding mark_unknown_etcd_roles set_etcd_roles member_roles
  roles_of_members nodes leader (err e) = mark_unknown_etcd_roles nodes
  roles_of_members nodes leader (ok members) = set_etcd_roles (member_roles leader members []) nodes

  roles_of_status : List (Node F) → S → Result E EndpointStatus → List (Node F)
  unfolding mark_unknown_etcd_roles roles_of_members
  roles_of_status nodes s (err e) = mark_unknown_etcd_roles nodes
  roles_of_status nodes s (ok status) = roles_of_members nodes status.leader (client.member_list s)

  roles_at : S → List (Node F) → List (Node F)
  unfolding mark_unknown_etcd_roles roles_of_status first_endpoint
  roles_at s nodes =
      let endpoint = first_endpoint client.endpoints in
      if is_empty nodes
      then nodes
      else if is_empty endpoint
      then mark_unknown_etcd_roles nodes
      else roles_of_status nodes s (client.status endpoint s)

  with_roles : S → Result (NodeError E) (List (Node F)) → Result (NodeError E) (List (Node F))
  unfolding roles_at
  with_roles s (err e) = err e
  with_roles s (ok nodes) = ok (roles_at s nodes)

  unfoldable pub list_nodes_with_etcd_role : S → Result (NodeError E) (List (Node F))
  unfolding with_roles list_nodes
  list_nodes_with_etcd_role s = with_roles s (list_nodes s)

  decode_node : Option (Node F) → Result (NodeError E) (Node F)
  decode_node none = err node_not_unmarshalled
  decode_node (some node) = ok node

  node_found : Result E (List (KeyValue J)) → Result (NodeError E) (Node F)
  unfolding decode_node
  node_found (err e) = err (client_failed e)
  node_found (ok []) = err node_not_found
  node_found (ok (kv ∷ kvs)) = decode_node (json.unmarshal kv.value)

  unfoldable pub get_node : Str → S → Result (NodeError E) (Node F)
  unfolding node_found node_key
  get_node id s = node_found (etcd.get (node_key id) s)
