-- ===== src/Startup/Join.antt =====
-- internal/etcd/join.go: a server joins an existing etcd cluster, and takes its membership back.
-- The calls of the etcd client are parameters.
pub mod Own
use flux_mesh.Base.{
  ℕ, Bool, true, false, ◌&&◌, ◌||◌, Option, none, some, List, [], ◌∷◌, ◌++◌, if◌then◌else◌, ◌==◌,
  Result, ok, err, Str, codes, str_eq, is_empty,
}
use flux_mesh.Registry.Cluster.{Member}

pub record JoinResult : Type 0 where
  pub initial_cluster : Str
  pub member_id : ℕ
  pub seed_endpoints : List Str

pub data JoinError (E : Type 0) : Type 0 where
  no_initial_cluster : JoinError E
  call_failed : E → JoinError E

-- clientv3.New, MemberAdd and MemberRemove at some endpoints; `S` is the cluster with the network.
pub record Members (S E : Type 0) : Type 0 where
  pub connect : List Str → S → S × Option E
  -- The number of the new member, and all members.
  pub member_add : List Str → Str → S → S × Result E (ℕ × List Member)
  pub member_remove : List Str → ℕ → S → S × Option E

unfoldable pub contains_url : List Str → Str → Bool
contains_url [] target = false
contains_url (u ∷ us) target = u == target || contains_url us target

unfoldable pub member_name : Str → Str → Member → Str
unfolding contains_url
member_name node url m = if is_empty m.name && contains_url m.peer_urls url then node else m.name

unfoldable pub with_entry : Str → List Str → List Str → List Str
with_entry name [] rest = rest
with_entry name (u ∷ us) rest = if is_empty name then rest else (name ++ codes "=" ++ u) ∷ rest

-- The loop that fills `entries`.
unfoldable pub initial_entries : List Member → Str → Str → List Str
unfolding with_entry member_name
initial_entries [] node url = []
initial_entries (m ∷ ms) node url =
    with_entry (member_name node url m) m.peer_urls (initial_entries ms node url)

-- strings.Join(entries, ",").
unfoldable pub joined : List Str → Str
joined [] = []
joined (e ∷ []) = e
joined (e ∷ f ∷ es) = e ++ codes "," ++ joined (f ∷ es)

unfoldable pub build_initial_cluster : List Member → Str → Str → Str
unfolding joined initial_entries
build_initial_cluster ms node url = joined (initial_entries ms node url)

module _ {S E : Type 0} (calls : Members S E) where
  unfoldable pub join_built : List Str → ℕ → S → Str → S × Result (JoinError E) JoinResult
  join_built seeds id s initial =
      if is_empty initial
      then (s, err no_initial_cluster)
      else (s, ok (record { initial_cluster = initial; member_id = id; seed_endpoints = seeds }))

  unfoldable pub join_added :
      List Str → Str → Str → S × Result E (ℕ × List Member) → S × Result (JoinError E) JoinResult
  unfolding join_built
  join_added seeds node url (s, err e) = (s, err (call_failed e))
  join_added seeds node url (s, ok (id, ms)) =
      join_built seeds id s (build_initial_cluster ms node url)

  unfoldable pub join_connected :
      List Str → Str → Str → S × Option E → S × Result (JoinError E) JoinResult
  unfolding join_added
  join_connected seeds node url (s, some e) = (s, err (call_failed e))
  join_connected seeds node url (s, none) = join_added seeds node url (calls.member_add seeds url s)

  unfoldable pub join_existing_cluster :
      List Str → Str → Str → S → S × Result (JoinError E) JoinResult
  unfolding join_connected
  join_existing_cluster seeds node url s = join_connected seeds node url (calls.connect seeds s)

  unfoldable pub rollback_connected : List Str → ℕ → S × Option E → S × Option E
  rollback_connected seeds id (s, some e) = (s, some e)
  rollback_connected seeds id (s, none) = calls.member_remove seeds id s

  unfoldable pub rollback_member : List Str → ℕ → S → S × Option E
  unfolding rollback_connected
  rollback_member seeds id s = rollback_connected seeds id (calls.connect seeds s)
