-- ===== src/Registry/Nodes/Evict/Outcome.antt =====
-- What `EvictNode` of internal/registry/nodes.go does to the nodes and to the members.
use flux_mesh.Base.{
  ℕ, Bool, true, false, not, ◌&&◌, Option, none, some, List, [], ◌∷◌, if◌then◌else◌, ◌==◌, nat_eq,
  nat_beq_iff, Result, ok, err, Str, trim_space, is_empty, ◌≡◌, ◌≢◌, ◌⊎◌, inl, inr, refl, sym,
  subst, ◌∙◌, arith, Bool-cases,
}
use flux_mesh.Registry.Etcd.{KeyValue, Etcd, IsEtcd, Same, Deleted, found, count}
use flux_mesh.Registry.Services.{Json}
use flux_mesh.Registry.Cluster.{
  NodeError, Member, EndpointStatus, Client, first_endpoint, target_member,
}
use flux_mesh.Registry.Nodes.{Node, node_key, is_server, get_node, node_found}
use flux_mesh.Registry.Nodes.Evict.{
  NodeEvictResult, no_result, evict_target, members_checked, target_checked, leader_checked,
  evict_node, evict_found, evict_checked, evict_deleted, evict_member,
}

true≢false : true ≢ false
true≢false h = ground arith

module _ {F S J E : Type 0} (json : Json (Node F) J) (etcd : Etcd S J E) (client : Client S E) where
  -- The member that an eviction removes: none for a node that is not a server or that no member
  -- is named like, and without force not the leader that the first endpoint reports.
  abbrev pub MayRemove : Bool → ℕ → S → Type 0
  MayRemove force target s =
      (target ≡ 0)
      ⊎ ((status : EndpointStatus) × (client.status (first_endpoint client.endpoints) s ≡ ok status)
          × (force ≡ false → status.leader ≢ target))

  abbrev pub IsTarget : Str → Bool → Node F → S → ℕ → Type 0
  IsTarget id force node s target =
      ((is_server node ≡ false) × (target ≡ 0))
      ⊎ ((is_server node ≡ true)
          × (members : List (Option Member)) × (client.member_list s ≡ ok members)
          × (target_member id members ≡ target)
          × MayRemove force target s)

  leader_checked_lem :
      (force : Bool) (target t : ℕ) (s : S) (r : Result E EndpointStatus)
      → client.status (first_endpoint client.endpoints) s ≡ r
      → leader_checked json etcd client force target r ≡ ok t
      → (t ≡ target) × MayRemove force target s
  unfolding leader_checked
  leader_checked_lem force target t s (err e) h g = ground arith
  leader_checked_lem force target t s (ok status) h g =
      elim (Bool-cases (status.leader == target && not force)) [
        | inl y ↦ let q = rw y at g in ground arith
        | inr n ↦
            let q = rw n at g in
            (
              ground arith,
              inr (status, h, λ unforced e. ground (arith, nat_beq_iff status.leader target)),
            )
      ]

  target_checked_lem :
      (force : Bool) (s : S) (target t : ℕ)
      → target_checked json etcd client force s target ≡ ok t
      → (t ≡ target) × MayRemove force target s
  unfolding target_checked
  target_checked_lem force s target t h =
      let endpoint = first_endpoint client.endpoints in
      elim (Bool-cases (target == 0)) [
        | inl y ↦ let q = rw y at h in (ground arith, inl (ground arith))
        | inr n ↦ elim (Bool-cases (is_empty endpoint)) [
          | inl y ↦ let q = rw (n, y) at h in ground arith
          | inr m ↦
              leader_checked_lem force target t s (client.status endpoint s) refl (rw (n, m) at h)
        ]
      ]

  members_checked_lem :
      (id : Str) (force : Bool) (s : S) (t : ℕ) (r : Result E (List (Option Member)))
      → client.member_list s ≡ r
      → members_checked json etcd client id force s r ≡ ok t
      → (members : List (Option Member)) × (client.member_list s ≡ ok members)
        × (target_member id members ≡ t)
        × MayRemove force t s
  unfolding members_checked
  members_checked_lem id force s t (err e) h g = ground arith
  members_checked_lem id force s t (ok members) h g =
      let (q, may) = target_checked_lem force s (target_member id members) t g in
      (members, h, sym q, subst (λ n. MayRemove force n s) (sym q) may)

  evict_target-IsTarget :
      (id : Str) (force : Bool) (node : Node F) (s : S) (t : ℕ)
      → evict_target json etcd client id force node s ≡ ok t
      → IsTarget id force node s t
  unfolding evict_target
  evict_target-IsTarget id force node s t h = elim (Bool-cases (is_server node)) [
    | inl y ↦
        let (members, listed, at, may) =
          members_checked_lem id force s t (client.member_list s) refl (rw y at h) in
        inr (y, members, listed, at, may)
    | inr n ↦ let q = rw n at h in inl (n, ground arith)
  ]

module _ {F S J E : Type 0} (json : Json (Node F) J) (etcd : Etcd S J E) (client : Client S E)
    (store : S → Str → Option (KeyValue J)) where
  -- What is reported once the key is gone and `removed` says whether the member is.
  abbrev pub evicted : Str → Node F → ℕ → Bool → NodeEvictResult
  evicted id node target removed = record {
    node_id = id;
    node_role = node.node_status.node_role;
    node_deleted = true;
    member_id = if removed then target else 0;
    member_removed = removed;
  }

  abbrev pub IsEvicted : Str → Bool → S → S × NodeEvictResult × Option (NodeError E) → Type 0
  IsEvicted id force s (s', result, none) =
      (node : Node F) × (target : ℕ) × (get_node json etcd client id s ≡ ok node)
      × IsTarget json etcd client id force node s target
      × Deleted (node_key id) (store s) (store s')
      × (result ≡ evicted id node target (not (target == 0)))
      × (target ≢ 0
          → (s1 : S) × Deleted (node_key id) (store s) (store s1)
            × (client.member_remove target s1 ≡ (s', none)))
  IsEvicted id force s (s', result, some e) =
      ((result ≡ no_result json etcd client)
        × (Same (store s) (store s') ⊎ Deleted (node_key id) (store s) (store s')))
      ⊎ ((node : Node F) × (target : ℕ) × (get_node json etcd client id s ≡ ok node)
          × IsTarget json etcd client id force node s target
          × (target ≢ 0)
          × Deleted (node_key id) (store s) (store s')
          × (result ≡ evicted id node target false))

  module _ (law : IsEtcd etcd store)
      (keeps : (id : ℕ) (s : S) → Same (store s) (store (client.member_remove id s).0)) where
    found-count :
        (o : Option (KeyValue J)) (kv : KeyValue J) (kvs : List (KeyValue J))
        → kv ∷ kvs ≡ found o
        → count o ≡ 1
    found-count none kv kvs h = ground arith
    found-count (some x) kv kvs h = refl

    node_found-count :
        (id : Str) (s : S) (node : Node F) (r : Result E (List (KeyValue J)))
        → etcd.get (node_key id) s ≡ r
        → node_found json etcd client r ≡ ok node
        → count (store s (node_key id)) ≡ 1
    unfolding node_found
    node_found-count id s node (err e) h g = ground arith
    node_found-count id s node (ok []) h g = ground arith
    node_found-count id s node (ok (kv ∷ kvs)) h g =
        found-count (store s (node_key id)) kv kvs (law.get_law (node_key id) s (kv ∷ kvs) h)

    Deleted-after :
        (k : Str) (a b c : Str → Option (KeyValue J)) → Deleted k a b → Same b c → Deleted k a c
    Deleted-after k a b c d same = (same k ∙ d.0, λ j ne. same j ∙ d.1 j ne)

    evict_member-IsEvicted :
        (id : Str) (force : Bool) (node : Node F) (target : ℕ) (s s1 : S) (out : S × Option E)
        → get_node json etcd client id s ≡ ok node
        → IsTarget json etcd client id force node s target
        → (target == 0) ≡ false
        → Deleted (node_key id) (store s) (store s1)
        → client.member_remove target s1 ≡ out
        → IsEvicted id force s
            (evict_member json etcd client (evicted id node target false) target out)
    unfolding evict_member
    evict_member-IsEvicted id force node target s s1 (s', some e) h t ne d q =
        let same = subst (λ (p : S × Option E). Same (store s1) (store p.0)) q (keeps target s1) in
        inr (
          node,
          target,
          h,
          t,
          ground arith,
          Deleted-after (node_key id) (store s) (store s1) (store s') d same,
          refl,
        )
    evict_member-IsEvicted id force node target s s1 (s', none) h t ne d q =
        let same = subst (λ (p : S × Option E). Same (store s1) (store p.0)) q (keeps target s1) in
        (
          node,
          target,
          h,
          t,
          Deleted-after (node_key id) (store s) (store s1) (store s') d same,
          rw ne refl,
          λ k. (s1, d, q),
        )

    no_target :
        (id : Str) (force : Bool) (node : Node F) (target : ℕ) (s : S)
        → IsTarget json etcd client id force node s target
        → is_server node ≡ false
        → target ≡ 0
    no_target id force node target s t n = elim t [
      | inl a ↦ a.1
      | inr b ↦ absurd (true≢false (sym b.0 ∙ n))
    ]

    evict_deleted-IsEvicted :
        (id : Str) (force : Bool) (node : Node F) (target : ℕ) (s : S) (out : S × Result E ℕ)
        → get_node json etcd client id s ≡ ok node
        → IsTarget json etcd client id force node s target
        → etcd.delete (node_key id) s ≡ out
        → IsEvicted id force s (evict_deleted json etcd client id node target out)
    unfolding evict_deleted get_node
    evict_deleted-IsEvicted id force node target s (s', err e) h t q =
        inl (refl, law.delete_error (node_key id) s s' e q)
    evict_deleted-IsEvicted id force node target s (s', ok n) h t q =
        let (c, d) = law.delete_law (node_key id) s s' n q in
        let one = node_found-count id s node (etcd.get (node_key id) s) refl h in
        let n1 : n ≡ 1 = c ∙ one in
        let done : (target ≡ 0) → IsEvicted id force s (s', evicted id node target false, none) =
          λ z. (node, target, h, t, d, rw z refl, λ ne. absurd (ne z)) in
        elim (Bool-cases (is_server node)) [
          | inr a ↦ rw (n1, a) (done (no_target id force node target s t a))
          | inl a ↦ elim (Bool-cases (target == 0)) [
            | inl z ↦ rw (n1, a, z) (done ((nat_beq_iff target 0).0 z))
            | inr z ↦
                rw (n1, a, z)
                  (evict_member-IsEvicted id force node target s s' (client.member_remove target s')
                    h t z d refl)
          ]
        ]

    evict_checked-IsEvicted :
        (id : Str) (force : Bool) (node : Node F) (s : S) (r : Result (NodeError E) ℕ)
        → get_node json etcd client id s ≡ ok node
        → evict_target json etcd client id force node s ≡ r
        → IsEvicted id force s (evict_checked json etcd client id node s r)
    unfolding evict_checked
    evict_checked-IsEvicted id force node s (err e) h q = inl (refl, inl (λ j. refl))
    evict_checked-IsEvicted id force node s (ok target) h q =
        evict_deleted-IsEvicted id force node target s (etcd.delete (node_key id) s) h
          (evict_target-IsTarget json etcd client id force node s target q) refl

    evict_found-IsEvicted :
        (id : Str) (force : Bool) (s : S) (r : Result (NodeError E) (Node F))
        → get_node json etcd client id s ≡ r
        → IsEvicted id force s (evict_found json etcd client id force s r)
    unfolding evict_found
    evict_found-IsEvicted id force s (err e) h = inl (refl, inl (λ j. refl))
    evict_found-IsEvicted id force s (ok node) h =
        evict_checked-IsEvicted id force node s (evict_target json etcd client id force node s) h
          refl

    -- An eviction without an error has deleted the key of the node and no other; where the node
    -- is a server and a member has its name, that member was removed after it, and without force
    -- it was not the leader that the first endpoint reported. An error leaves the keys as they
    -- were or without the key of the node, and its result is empty, or says of a server with a
    -- member that the node is deleted and the member is not removed.
    pub evict_node-IsEvicted :
        (raw : Str) (force : Bool) (s : S)
        → IsEvicted (trim_space raw) force s (evict_node json etcd client raw force s)
    unfolding evict_node
    evict_node-IsEvicted raw force s =
        evict_found-IsEvicted (trim_space raw) force s
          (get_node json etcd client (trim_space raw) s) refl
