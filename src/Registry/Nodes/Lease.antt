-- ===== src/Registry/Nodes/Lease.antt =====
-- Registration with a lease in internal/registry/nodes.go.
use flux_mesh.Base.{
  ◌<◌, Option-cases, Option, none, some, [], ◌∷◌, Result, ok, err, ℤ, Str, ◌≡◌, ◌⊎◌, inl, inr, refl,
  ap, subst, ◌∙◌, arith,
}
use flux_mesh.Registry.Etcd.{KeyValue, Etcd, IsEtcd, Written, Same, found, revision_of}
use flux_mesh.Registry.Services.{Json}
use flux_mesh.Registry.Cluster.{Client}
use flux_mesh.Registry.Nodes.{
  Node, node_key, register_with_lease, register_granted, register_payload, bind_lease, get_node,
  node_found, decode_node,
}

Result-cases : {A B : Type 0} (r : Result A B) → ((a : A) × (r ≡ err a)) ⊎ ((b : B) × (r ≡ ok b))
Result-cases (err a) = inl (a, refl)
Result-cases (ok b) = inr (b, refl)

module _ {F S J E : Type 0} (json : Json (Node F) J) (etcd : Etcd S J E) (client : Client S E)
    (store : S → Str → Option (KeyValue J)) (law : IsEtcd etcd store)
    (grant_keeps : (ttl : ℤ) (s : S) → Same (store s) (store (client.grant ttl s).0))
    (renew_keeps : (lease : ℤ) (s : S) → Same (store s) (store (client.keep_alive lease s).0)) where
  -- The key of the node holds the node, bound to the lease, and no other key has changed.
  abbrev pub IsRegistered : Node F → ℤ → S → S → Type 0
  IsRegistered node lease s s' =
      (payload : J) × (json.marshal node ≡ some payload)
      × Written (node_key node.id) payload lease (store s) (store s')

  Written-between :
      (k : Str) (v : J) (lease : ℤ) (a b c d : Str → Option (KeyValue J))
      → Same a b
      → Written k v lease b c
      → Same c d
      → Written k v lease a d
  Written-between k v lease a b c d ab w cd = record {
    revision = w.revision;
    later = subst (λ o. revision_of o < w.revision) (ab k) w.later;
    here = cd k ∙ w.here;
    elsewhere = λ j ne. cd j ∙ w.elsewhere j ne ∙ ab j;
  }

  bind_lease-IsRegistered :
      (node : Node F) (payload : J) (lease l : ℤ) (s s1 s' : S) (out : S × Option E)
      → Same (store s) (store s1)
      → json.marshal node ≡ some payload
      → etcd.put (node_key node.id) payload lease s1 ≡ out
      → bind_lease json etcd client lease out ≡ (s', ok l)
      → IsRegistered node l s s'
  unfolding bind_lease
  bind_lease-IsRegistered node payload lease l s s1 s' (s2, some e) same m q h = ground arith
  bind_lease-IsRegistered node payload lease l s s1 s' (s2, none) same m q h =
      elim (Option-cases (client.keep_alive lease s2).1) [
        | inl o ↦
            let g = rw (o, bind_lease) at h in
            let lq : lease ≡ l = ground arith in
            let sq : (client.keep_alive lease s2).0 ≡ s' = ap (λ p. p.0) g in
            (
              payload,
              m,
              subst (λ i. Written (node_key node.id) payload i (store s) (store s')) lq
                  (Written-between (node_key node.id) payload lease (store s) (store s1) (store s2)
                    (store s') same (law.put_law (node_key node.id) payload lease s1 s2 q)
                    (subst (λ t. Same (store s2) (store t)) sq (renew_keeps lease s2))),
            )
        | inr o ↦ let g = rw (o.1, bind_lease) at h in ground arith
      ]

  register_granted-IsRegistered :
      (node : Node F) (l : ℤ) (s s' : S) (out : S × Result E ℤ)
      → Same (store s) (store out.0)
      → register_granted json etcd client node out ≡ (s', ok l)
      → IsRegistered node l s s'
  unfolding register_granted register_payload
  register_granted-IsRegistered node l s s' (s1, err e) same h = ground arith
  register_granted-IsRegistered node l s s' (s1, ok lease) same h =
      elim (Option-cases (json.marshal node)) [
        | inl o ↦ let g = rw o at h in ground arith
        | inr (payload, o) ↦
            bind_lease-IsRegistered node payload lease l s s1 s'
              (etcd.put (node_key node.id) payload lease s1) same o refl (rw o at h)
      ]

  found-some : (o : Option (KeyValue J)) (kv : KeyValue J) → o ≡ some kv → found o ≡ kv ∷ []
  found-some o kv h = ap found h

  -- Where JSON gives back the nodes that it encodes, and grants and renewals change no key: after a
  -- registration that returns a lease, the key of the node holds the node with that lease and no
  -- other key has changed, and `GetNode` returns the node, or etcd does not answer.
  pub get_node-register_with_lease :
      (node : Node F) (ttl l : ℤ) (s s' : S)
      → ((n : Node F) (raw : J) → json.marshal n ≡ some raw → json.unmarshal raw ≡ some n)
      → register_with_lease json etcd client node ttl s ≡ (s', ok l)
      → IsRegistered node l s s'
        × ((get_node json etcd client node.id s' ≡ ok node)
            ⊎ ((e : E) × (etcd.get (node_key node.id) s' ≡ err e)))
  unfolding register_with_lease get_node node_found decode_node
  get_node-register_with_lease node ttl l s s' faithful h =
      let (payload, m, w) =
        register_granted-IsRegistered node l s s' (client.grant ttl s) (grant_keeps ttl s) h in
      (
        (payload, m, w),
        elim (Result-cases (etcd.get (node_key node.id) s')) [
          | inl (e, failed) ↦ inr (e, failed)
          | inr (kvs, answers) ↦
              let kvs' : kvs ≡ _ ∷ [] =
                law.get_law (node_key node.id) s' kvs answers ∙ ap found w.here in
              inl (rw answers (rw kvs' (rw (faithful node payload m) refl)))
        ],
      )
