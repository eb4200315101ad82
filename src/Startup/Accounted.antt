-- ===== src/Startup/Accounted.antt =====
-- What becomes of the member that is added to etcd when the start of internal/app/app.go fails.
use mathlib.Core.List.{Memᴰ}
use flux_mesh.Base.{
  ℕ, true, false, Option, none, some, List, [], ◌∷◌, ◌==◌, nat_eq, Result, ok, err, Str, codes,
  str_eq, is_empty, ◌≡◌, ◌≢◌, ◌⊎◌, inl, inr, refl, sym, subst, ap, arith, Option-cases,
}
use flux_mesh.Base.Dict
use flux_mesh.Base.Dict.{get-put_self}
use flux_mesh.Config.{Config}
use flux_mesh.Registry.Cluster.{Member}
use flux_mesh.Reconcile.{Tasks, add}
use flux_mesh.Startup.{
  App, undone, undo_joined, client_made, embedded_started, start_server, start_joined,
  start_etcd_and_client,
}
use flux_mesh.Startup.Join.Own.{build_initial_cluster-is_empty}
use flux_mesh.Startup.Join.{
  JoinResult, JoinError, Members, rollback_member, rollback_connected, join_existing_cluster,
  build_initial_cluster, join_built, join_added, join_connected,
}

module _ {S E : Type 0} (calls : Members S E) (start_embedded : Config → Str → S → S × Option E)
    (close_embedded : S → S) (holds : S → ℕ → Type 0) where
  -- Only MemberAdd adds a member, the one that it names; a member that MemberRemove has removed
  -- is gone.
  pub record IsClustered : Type 0 where
    pub connect_law :
        (seeds : List Str) (s : S) (j : ℕ) → holds (calls.connect seeds s).0 j → holds s j
    pub start_law :
        (cfg : Config) (initial : Str) (s : S) (j : ℕ)
        → holds (start_embedded cfg initial s).0 j
        → holds s j
    pub close_law : (s : S) (j : ℕ) → holds (close_embedded s) j → holds s j
    pub add_law :
        (seeds : List Str) (url : Str) (s : S) (id : ℕ) (ms : List Member) (j : ℕ)
        → (calls.member_add seeds url s).1 ≡ ok (id, ms)
        → holds (calls.member_add seeds url s).0 j
        → holds s j ⊎ (j ≡ id)
    pub remove_law :
        (seeds : List Str) (id : ℕ) (s : S) (j : ℕ)
        → holds (calls.member_remove seeds id s).0 j
        → holds s j
    pub removed_law :
        (seeds : List Str) (id : ℕ) (s : S) (j : ℕ)
        → (calls.member_remove seeds id s).1 ≡ none
        → holds (calls.member_remove seeds id s).0 j
        → j ≢ id
    -- The answer lists the new member, which has no name yet.
    pub listed_law :
        (seeds : List Str) (url : Str) (s : S) (id : ℕ) (ms : List Member)
        → (calls.member_add seeds url s).1 ≡ ok (id, ms)
        → (m : Member) × Memᴰ m ms × (m.name ≡ []) × (m.peer_urls ≡ url ∷ [])

  abbrev pub HasTask : ℕ → Tasks → Type 0
  HasTask id tasks = Dict.get tasks id ≢ none

  -- A member of the cluster was there before, or the reconciler has a task for it.
  abbrev pub AreAccounted : (ℕ → Type 0) → App S → Type 0
  AreAccounted before a = (j : ℕ) → holds a.cluster j → before j ⊎ HasTask j a.tasks

  module _ (law : IsClustered) where
    add_has : (now id : ℕ) (seeds : List Str) (tasks : Tasks) → HasTask id (add now id seeds tasks)
    unfolding add
    add_has now id seeds tasks = elim (Option-cases (Dict.get tasks id)) [
      | inl n ↦ rw (n, get-put_self tasks id _) (λ q. ground arith)
      | inr o ↦ rw (o.1, o.1) (λ q. ground arith)
    ]

    undone-AreAccounted :
        (before : ℕ → Type 0) (now : ℕ) (j : JoinResult) (a : App S) (r : S × Option E)
        → ((i : ℕ) → holds r.0 i → before i ⊎ (i ≡ j.member_id))
        → (r.1 ≡ none → (i : ℕ) → holds r.0 i → i ≢ j.member_id)
        → AreAccounted before (undone calls start_embedded close_embedded now j a r)
    unfolding undone
    undone-AreAccounted before now j a (s, none) kept gone i h = elim (kept i h) [
      | inl b ↦ inl b
      | inr q ↦ elim (gone refl i h q) [ ]
    ]
    undone-AreAccounted before now j a (s, some e) kept gone i h = elim (kept i h) [
      | inl b ↦ inl b
      | inr q ↦ inr (rw q (add_has now j.member_id j.seed_endpoints a.tasks))
    ]

    rollback_connected_keeps :
        (seeds : List Str) (id : ℕ) (r : S × Option E) (i : ℕ)
        → holds (rollback_connected calls seeds id r).0 i
        → holds r.0 i
    unfolding rollback_connected
    rollback_connected_keeps seeds id (s, some e) i h = h
    rollback_connected_keeps seeds id (s, none) i h = law.remove_law seeds id s i h

    rollback_connected_removes :
        (seeds : List Str) (id : ℕ) (r : S × Option E) (i : ℕ)
        → (rollback_connected calls seeds id r).1 ≡ none
        → holds (rollback_connected calls seeds id r).0 i
        → i ≢ id
    unfolding rollback_connected
    rollback_connected_removes seeds id (s, some e) i q h = ground arith
    rollback_connected_removes seeds id (s, none) i q h = law.removed_law seeds id s i q h

    undo_joined-AreAccounted :
        (before : ℕ → Type 0) (now : ℕ) (j : JoinResult) (a : App S)
        → ((i : ℕ) → holds a.cluster i → before i ⊎ (i ≡ j.member_id))
        → AreAccounted before (undo_joined calls start_embedded close_embedded now (some j) a)
    unfolding undo_joined rollback_member
    undo_joined-AreAccounted before now j a kept =
        let seeds = j.seed_endpoints in
        let start = calls.connect seeds a.cluster in
        undone-AreAccounted before now j a (rollback_member calls seeds j.member_id a.cluster)
          (λ i h. kept i (
            law.connect_law seeds a.cluster i
              (rollback_connected_keeps seeds j.member_id start i h)))
          (λ q i h. rollback_connected_removes seeds j.member_id start i q h)

    abbrev pub IsOutcome : (ℕ → Type 0) → App S × Option (JoinError E) → Type 0
    IsOutcome before (a, e) = e ≢ none → AreAccounted before a

    client_made-IsOutcome :
        (before : ℕ → Type 0) (now : ℕ) (j : JoinResult) (a : App S) (r : S × Option E)
        → ((i : ℕ) → holds r.0 i → before i ⊎ (i ≡ j.member_id))
        → IsOutcome before (client_made calls start_embedded close_embedded now (some j) a r)
    unfolding client_made
    client_made-IsOutcome before now j a (s, none) kept = λ failed. elim (failed refl) [ ]
    client_made-IsOutcome before now j a (s, some e) kept = λ failed i h.
        let from = record a { cluster = s } in
        let u = undo_joined calls start_embedded close_embedded now (some j) from in
        undo_joined-AreAccounted before now j from kept i (law.close_law u.cluster i h)

    embedded_started-IsOutcome :
        (before : ℕ → Type 0) (cfg : Config) (now : ℕ) (j : JoinResult) (a : App S)
        (r : S × Option E)
        → ((i : ℕ) → holds r.0 i → before i ⊎ (i ≡ j.member_id))
        → IsOutcome before
            (embedded_started calls start_embedded close_embedded cfg now (some j) a r)
    unfolding embedded_started
    embedded_started-IsOutcome before cfg now j a (s, some e) kept =
        λ failed. undo_joined-AreAccounted before now j (record a { cluster = s }) kept
    embedded_started-IsOutcome before cfg now j a (s, none) kept =
        client_made-IsOutcome before now j (record a { cluster = s; embedded = true })
          (calls.connect (cfg.client_advertise_url ∷ []) s)
          (λ i h. kept i (law.connect_law (cfg.client_advertise_url ∷ []) s i h))

    -- Either the call that adds the member fails, or a failed start leaves no member behind.
    abbrev pub IsSettled : Config → App S → App S × Option (JoinError E) → Type 0
    IsSettled cfg a out =
        let seeds = cfg.seed_endpoints in
        let added =
          calls.member_add seeds cfg.peer_advertise_url (calls.connect seeds a.cluster).0 in
        ((e : E) × (added.1 ≡ err e)) ⊎ IsOutcome (holds a.cluster) out

    join_built-IsOutcome :
        (cfg : Config) (now : ℕ) (a : App S) (s : S) (id : ℕ) (initial : Str)
        → is_empty initial ≡ false
        → ((i : ℕ) → holds s i → holds a.cluster i ⊎ (i ≡ id))
        → IsOutcome (holds a.cluster) (
            start_joined calls start_embedded close_embedded cfg now a
              (join_built calls cfg.seed_endpoints id s initial))
    unfolding join_built start_joined start_server
    join_built-IsOutcome cfg now a s id initial h kept =
        let j : JoinResult = record {
          initial_cluster = initial;
          member_id = id;
          seed_endpoints = cfg.seed_endpoints;
        } in
        rw h (
          embedded_started-IsOutcome (holds a.cluster) cfg now j (record a { cluster = s })
            (start_embedded cfg initial s) (λ i k. kept i (law.start_law cfg initial s i k)))

    join_added-IsSettled :
        (cfg : Config) (now : ℕ) (a : App S) (s : S) (r : S × Result E (ℕ × List Member))
        → is_empty cfg.node_id ≡ false
        → r ≡ calls.member_add cfg.seed_endpoints cfg.peer_advertise_url s
        → ((i : ℕ) → holds s i → holds a.cluster i)
        → ((e : E) × (r.1 ≡ err e))
          ⊎ IsOutcome (holds a.cluster) (
              start_joined calls start_embedded close_embedded cfg now a
                (join_added calls cfg.seed_endpoints cfg.node_id cfg.peer_advertise_url r))
    unfolding join_added
    join_added-IsSettled cfg now a s (s', err e) named q kept = inl (e, refl)
    join_added-IsSettled cfg now a s (s', ok (id, ms)) named q kept =
        let seeds = cfg.seed_endpoints in
        let url = cfg.peer_advertise_url in
        let answer = ap (λ p. p.1) (sym q) in
        let (m, listed, unnamed, own) = law.listed_law seeds url s id ms answer in
        inr (
          join_built-IsOutcome cfg now a s' id (build_initial_cluster ms cfg.node_id url)
            (build_initial_cluster-is_empty ms cfg.node_id url m named listed unnamed own)
            (λ i k. elim (law.add_law seeds url s id ms i answer (subst (λ p. holds p.0 i) q k)) [
              | inl b ↦ inl (kept i b)
              | inr e ↦ inr e
            ]))

    join_connected-IsSettled :
        (cfg : Config) (now : ℕ) (a : App S) (r : S × Option E)
        → is_empty cfg.node_id ≡ false
        → ((i : ℕ) → holds r.0 i → holds a.cluster i)
        → ((e : E) × ((calls.member_add cfg.seed_endpoints cfg.peer_advertise_url r.0).1 ≡ err e))
          ⊎ IsOutcome (holds a.cluster) (
              start_joined calls start_embedded close_embedded cfg now a
                (join_connected calls cfg.seed_endpoints cfg.node_id cfg.peer_advertise_url r))
    unfolding join_connected start_joined
    join_connected-IsSettled cfg now a (s, some e) named kept = inr (λ failed i h. inl (kept i h))
    join_connected-IsSettled cfg now a (s, none) named kept =
        join_added-IsSettled cfg now a s
          (calls.member_add cfg.seed_endpoints cfg.peer_advertise_url s) named refl kept

    -- A server with a node id that joins an existing cluster and cannot start: unless MemberAdd
    -- itself failed, each member of the cluster was there before, or the reconciler has a task to
    -- remove it.
    pub start_etcd_and_client-IsSettled :
        (cfg : Config) (now : ℕ) (a : App S)
        → is_empty cfg.node_id ≡ false
        → (cfg.role == codes "agent") ≡ false
        → (cfg.cluster_state == codes "existing") ≡ true
        → IsSettled cfg a (start_etcd_and_client calls start_embedded close_embedded cfg now a)
    unfolding start_etcd_and_client join_existing_cluster
    start_etcd_and_client-IsSettled cfg now a named server existing =
        rw (server, existing)
          (join_connected-IsSettled cfg now a (calls.connect cfg.seed_endpoints a.cluster) named
            (law.connect_law cfg.seed_endpoints a.cluster))
