-- ===== src/Registry/Nodes/Roles.antt =====
-- The roles that `ListNodesWithEtcdRole` of internal/registry/nodes.go writes.
use flux_mesh.Base.{
  ℕ, Bool, true, false, Option, none, some, List, [], ◌∷◌, map, if◌then◌else◌, ◌==◌, Result, ok,
  err, Str, codes, str_eq, nat_eq, is_empty, ◌≡◌, refl, ap, ◌∙◌, arith,
}
use flux_mesh.Base.Dict
use flux_mesh.Base.Dict.{Dict}
use flux_mesh.Registry.Etcd.{Etcd}
use flux_mesh.Registry.Services.{Json}
use flux_mesh.Registry.Cluster.{
  Member, EndpointStatus, Client, first_endpoint, member_role, member_roles,
}
use flux_mesh.Registry.Nodes.{
  Node, with_role, is_server, mark_unknown_etcd_roles, role_in, set_etcd_roles, roles_of_members,
  roles_of_status, roles_at, with_roles, list_nodes, list_nodes_with_etcd_role,
}

-- The last member of a name.
abbrev pub last_named : Str → List (Option Member) → Option Member
last_named id [] = none
last_named id (none ∷ ms) = last_named id ms
last_named id (some m ∷ ms) = elim (last_named id ms) [
  | some l ↦ some l
  | none ↦ if m.name == id then some m else none
]

role_or : Option Str → ℕ → Option Member → Option Str
role_or old leader none = old
role_or old leader (some m) = some (member_role leader m)

get-member_roles :
    (leader : ℕ) (ms : List (Option Member)) (roles : Dict Str Str) (id : Str)
    → Dict.get (member_roles leader ms roles) id
      ≡ role_or (Dict.get roles id) leader (last_named id ms)
unfolding member_roles role_or
get-member_roles leader [] roles id = refl
get-member_roles leader (none ∷ ms) roles id = get-member_roles leader ms roles id
get-member_roles leader (some m ∷ ms) roles id =
    let role = member_role leader m in
    ground (
      arith,
      get-member_roles leader ms (Dict.put roles m.name role) id,
      Dict.get-put roles m.name id role,
    )

-- What is known of the cluster: its leader and its members.
abbrev pub role_known : Option (ℕ × List (Option Member)) → Str → Str
role_known none id = codes "unknown"
role_known (some (leader, ms)) id = elim (last_named id ms) [
  | none ↦ codes "unknown"
  | some m ↦ if m.id == leader then codes "leader" else codes "follower"
]

role_in-member_roles :
    (leader : ℕ) (ms : List (Option Member)) (id : Str)
    → role_in (member_roles leader ms []) id ≡ role_known (some (leader, ms)) id
unfolding role_in member_role Dict.get role_or
role_in-member_roles leader ms id = ground (arith, get-member_roles leader ms [] id)

module _ {F : Type 0} where
  abbrev pub assign : Option (ℕ × List (Option Member)) → Node F → Node F
  assign known n = with_role (if is_server n then role_known known n.id else codes "agent") n

  mark_unknown_etcd_roles-assign :
      (nodes : List (Node F)) → mark_unknown_etcd_roles nodes ≡ map (assign none) nodes
  unfolding mark_unknown_etcd_roles
  mark_unknown_etcd_roles-assign [] = refl
  mark_unknown_etcd_roles-assign (n ∷ ns) =
      ap (◌∷◌ (assign none n)) (mark_unknown_etcd_roles-assign ns)

  set_etcd_roles-assign :
      (leader : ℕ) (ms : List (Option Member)) (nodes : List (Node F))
      → set_etcd_roles (member_roles leader ms []) nodes ≡ map (assign (some (leader, ms))) nodes
  unfolding set_etcd_roles
  set_etcd_roles-assign leader ms [] = refl
  set_etcd_roles-assign leader ms (n ∷ ns) =
      rw (role_in-member_roles leader ms n.id)
        (ap (◌∷◌ (assign (some (leader, ms)) n)) (set_etcd_roles-assign leader ms ns))

module _ {F S J E : Type 0} (json : Json (Node F) J) (etcd : Etcd S J E) (client : Client S E) where
  abbrev pub known_members : ℕ → Result E (List (Option Member)) → Option (ℕ × List (Option Member))
  known_members leader (err e) = none
  known_members leader (ok members) = some (leader, members)

  abbrev pub known_status : S → Result E EndpointStatus → Option (ℕ × List (Option Member))
  known_status s (err e) = none
  known_status s (ok status) = known_members status.leader (client.member_list s)

  -- What the first endpoint and the members tell of the cluster, if both answer.
  abbrev pub cluster_known : S → Option (ℕ × List (Option Member))
  cluster_known s =
      let endpoint = first_endpoint client.endpoints in
      if is_empty endpoint then none else known_status s (client.status endpoint s)

  roles_of_members-assign :
      (leader : ℕ) (r : Result E (List (Option Member))) (nodes : List (Node F))
      → roles_of_members json etcd client nodes leader r
        ≡ map (assign (known_members leader r)) nodes
  unfolding roles_of_members
  roles_of_members-assign leader (err e) nodes = mark_unknown_etcd_roles-assign nodes
  roles_of_members-assign leader (ok ms) nodes = set_etcd_roles-assign leader ms nodes

  roles_of_status-assign :
      (s : S) (r : Result E EndpointStatus) (nodes : List (Node F))
      → roles_of_status json etcd client nodes s r ≡ map (assign (known_status s r)) nodes
  unfolding roles_of_status
  roles_of_status-assign s (err e) nodes = mark_unknown_etcd_roles-assign nodes
  roles_of_status-assign s (ok status) nodes =
      roles_of_members-assign status.leader (client.member_list s) nodes

  roles_chosen :
      (s : S) (nodes : List (Node F)) (b : Bool) (r : Result E EndpointStatus)
      → (if b then mark_unknown_etcd_roles nodes else roles_of_status json etcd client nodes s r)
        ≡ map (assign (if b then none else known_status s r)) nodes
  roles_chosen s nodes true r = mark_unknown_etcd_roles-assign nodes
  roles_chosen s nodes false r = roles_of_status-assign s r nodes

  roles_at-assign :
      (s : S) (nodes : List (Node F))
      → roles_at json etcd client s nodes ≡ map (assign (cluster_known s)) nodes
  unfolding roles_at
  roles_at-assign s [] = refl
  roles_at-assign s (n ∷ ns) =
      let endpoint = first_endpoint client.endpoints in
      roles_chosen s (n ∷ ns) (is_empty endpoint) (client.status endpoint s)

  -- Where the nodes are listed, they are listed with their roles, in their order: "agent" for a
  -- node that is not a server; "leader" or "follower" for a server that a member is named like,
  -- the last such if there are several; "unknown" for another server, and for all servers where
  -- no endpoint is known, or the endpoint or the list of members fails.
  pub list_nodes_with_etcd_role-assign :
      (s : S) (nodes : List (Node F))
      → list_nodes json etcd client s ≡ ok nodes
      → list_nodes_with_etcd_role json etcd client s ≡ ok (map (assign (cluster_known s)) nodes)
  unfolding list_nodes_with_etcd_role with_roles
  list_nodes_with_etcd_role-assign s nodes h =
      ap (with_roles json etcd client s) h ∙ ap ok (roles_at-assign s nodes)
