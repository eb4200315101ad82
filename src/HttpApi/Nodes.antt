-- ===== src/HttpApi/Nodes.antt =====
-- internal/httpapi/server.go: the handlers of nodes and of the cluster. What json makes of the
-- value of an entry is a parameter.
use flux_mesh.Base.{
  ℕ, Option, none, some, List, [], ◌∷◌, if◌then◌else◌, ◌==◌, Result, ok, err, Str, codes, str_eq,
  trim_space, to_lower, is_empty,
}
use flux_mesh.Base.Dict
use flux_mesh.Base.Dict.{Dict}
use flux_mesh.SoftKv.Store.{Entry, Store, list}
use flux_mesh.Registry.Etcd.{Etcd}
use flux_mesh.Registry.Services.{Json}
use flux_mesh.Registry.Cluster.{
  NodeError, node_not_found, leader_evict_requires_force, Client, ClusterStatus, cluster_status,
}
use flux_mesh.Registry.Nodes.{Node, SysLoad, list_nodes_with_etcd_role, get_node}
use flux_mesh.Registry.Nodes.Evict.{NodeEvictResult, evict_node}
use flux_mesh.HttpApi.Services.{Response, respond, trim_prefix}

pub data NodeReply (F E : Type 0) : Type 0 where
  node_method_not_allowed node_id_required node_missing leader_conflict : NodeReply F E
  node_failed : NodeError E → NodeReply F E
  one_node : Node F → NodeReply F E
  all_nodes : List (Node F) → NodeReply F E
  evicted_node : NodeEvictResult → NodeReply F E
  the_cluster : ClusterStatus → NodeReply F E

abbrev metrics_prefix : Str
metrics_prefix = codes "metrics/nodes/"

module _ {F V : Type 0} (decode_sys_load : V → Option (SysLoad F)) where
  -- The node that an entry is about: the rest of its key, or its source.
  metric_node : Entry V → Str
  metric_node e =
      let id = trim_space (trim_prefix e.key metrics_prefix) in
      if is_empty id then trim_space e.source_id else id

  with_metric : Str → Option (SysLoad F) → Dict Str (SysLoad F) → Dict Str (SysLoad F)
  with_metric id none loads = loads
  with_metric id (some load) loads = if is_empty id then loads else Dict.put loads id load

  -- The loop that fills `metricByNode`.
  unfoldable pub metrics_by_node : List (Entry V) → Dict Str (SysLoad F) → Dict Str (SysLoad F)
  unfolding metric_node with_metric
  metrics_by_node [] loads = loads
  metrics_by_node (e ∷ es) loads =
      metrics_by_node es (with_metric (metric_node e) (decode_sys_load e.value) loads)

  unfoldable pub attach_loads : Dict Str (SysLoad F) → List (Node F) → List (Node F)
  attach_loads loads [] = []
  attach_loads loads (n ∷ ns) =
      elim (Dict.get loads n.id) [ none ↦ n | some load ↦ record n { sys_load = load } ]
      ∷ attach_loads loads ns

  -- A store that is nil is none; a list counts in the store.
  unfoldable pub attach_node_metrics :
      ℕ → Option (Store V) → List (Node F) → Option (Store V) × List (Node F)
  unfolding metrics_by_node attach_loads
  attach_node_metrics now none nodes = (none, nodes)
  attach_node_metrics now (some store) [] = (some store, [])
  attach_node_metrics now (some store) (n ∷ ns) =
      let (store', entries) = list now metrics_prefix store in
      (
        some store',
        if is_empty entries then n ∷ ns else attach_loads (metrics_by_node entries []) (n ∷ ns),
      )

module _ {F V S J E : Type 0} (decode_sys_load : V → Option (SysLoad F)) (json : Json (Node F) J)
    (etcd : Etcd S J E) (client : Client S E) where
  nodes_reply :
      ℕ
      → Option (Store V)
      → Result (NodeError E) (List (Node F))
      → Option (Store V) × Response (NodeReply F E)
  nodes_reply now store (err e) = (store, respond 500 (node_failed e))
  nodes_reply now store (ok nodes) =
      let (store', attached) = attach_node_metrics decode_sys_load now store nodes in
      (store', respond 200 (all_nodes attached))

  unfoldable pub handle_nodes :
      Str → ℕ → S → Option (Store V) → Option (Store V) × Response (NodeReply F E)
  unfolding nodes_reply
  handle_nodes method now s store =
      if method == codes "GET"
      then nodes_reply now store (list_nodes_with_etcd_role json etcd client s)
      else (store, respond 405 node_method_not_allowed)

  cluster_reply : Result (NodeError E) ClusterStatus → Response (NodeReply F E)
  cluster_reply (err e) = respond 500 (node_failed e)
  cluster_reply (ok status) = respond 200 (the_cluster status)

  unfoldable pub handle_cluster_status : Str → S → Response (NodeReply F E)
  unfolding cluster_reply
  handle_cluster_status method s =
      if method == codes "GET"
      then cluster_reply (cluster_status client s)
      else respond 405 node_method_not_allowed

  node_reply : Result (NodeError E) (Node F) → Response (NodeReply F E)
  node_reply (ok node) = respond 200 (one_node node)
  node_reply (err node_not_found) = respond 404 node_missing
  node_reply (err e) = respond 500 (node_failed e)

  evict_reply : NodeEvictResult → Option (NodeError E) → Response (NodeReply F E)
  evict_reply result none = respond 200 (evicted_node result)
  evict_reply result (some node_not_found) = respond 404 node_missing
  evict_reply result (some leader_evict_requires_force) = respond 409 leader_conflict
  evict_reply result (some e) = respond 500 (node_failed e)

  -- strings.EqualFold(force, "true"), on ASCII.
  unfoldable pub handle_node_by_id : Str → Str → Str → S → S × Response (NodeReply F E)
  unfolding node_reply evict_reply
  handle_node_by_id method path force s =
      let id = trim_space (trim_prefix path (codes "/api/v1/nodes/")) in
      let forced = to_lower (trim_space force) == codes "true" in
      let (s', result, e) = evict_node json etcd client id forced s in
      if is_empty id
      then (s, respond 400 node_id_required)
      else if method == codes "GET"
      then (s, node_reply (get_node json etcd client id s))
      else if method == codes "DELETE"
      then (s', evict_reply result e)
      else (s, respond 405 node_method_not_allowed)
