-- ===== src/Startup/Peers.antt =====
-- internal/app/app.go: the peers that gossip joins, found in the list of nodes. ListNodes and
-- net.JoinHostPort, with the port of gossip, are parameters.
use mathlib.Core.List.{Memᴰ}
use flux_mesh.Base.{
  Bool, false, ◌||◌, Option, none, some, List, [], ◌∷◌, if◌then◌else◌, ◌==◌, Result, ok, err, Str,
  str_eq, trim_space, is_empty, ◌≡◌, All, All-map, arith, Bool-cases, str_beq_iff, ap, sym, true,
  ◌⊎◌, ◌∙◌, inl, inr, refl,
}
use flux_mesh.Registry.Nodes.{Node}

abbrev has : Str → List Str → Bool
has a [] = false
has a (b ∷ bs) = a == b || has a bs

abbrev IsFresh : List Str → Str → Type 0
IsFresh seen a = has a seen ≡ false

abbrev pub AreDistinct : List Str → Type 0
AreDistinct [] = Unit
AreDistinct (a ∷ bs) = All (λ b. (b == a) ≡ false) bs × AreDistinct bs

IsFresh-older : (a : Str) (seen : List Str) (b : Str) → IsFresh (a ∷ seen) b → IsFresh seen b
IsFresh-older a seen b h = ground arith

IsFresh-other : (a : Str) (seen : List Str) (b : Str) → IsFresh (a ∷ seen) b → (b == a) ≡ false
IsFresh-other a seen b h = ground arith

-- An address that was seen, or is a peer.
abbrev IsListed : List Str → Str → List Str → Type 0
IsListed seen a peers = (has a seen ≡ true) ⊎ Memᴰ a peers

module _ {F : Type 0} (join_host_port : Str → Str) (own_id : Str) where
  abbrev pub is_skipped : Node F → Bool
  is_skipped n = n.id == own_id || is_empty (trim_space n.ip)

  -- The loop over the nodes; `seen` holds the addresses that were appended.
  unfoldable pub peers_of : List Str → List (Node F) → List Str
  peers_of seen [] = []
  peers_of seen (n ∷ ns) =
      let addr = join_host_port n.ip in
      let skipped = peers_of seen ns in
      let rest = peers_of (addr ∷ seen) ns in
      if is_skipped n then skipped else if has addr seen then skipped else addr ∷ rest

  -- A registry that is nil is `none`; nil is the empty list.
  unfoldable pub discover_gossip_peers : {E : Type 0} → Option (Result E (List (Node F))) → List Str
  unfolding peers_of
  discover_gossip_peers none = []
  discover_gossip_peers (some (err e)) = []
  discover_gossip_peers (some (ok nodes)) = peers_of [] nodes

  peers_of-IsFresh : (seen : List Str) (ns : List (Node F)) → All (IsFresh seen) (peers_of seen ns)
  unfolding peers_of
  peers_of-IsFresh seen [] = tt
  peers_of-IsFresh seen (n ∷ ns) =
      let addr = join_host_port n.ip in
      elim (Bool-cases (is_skipped n)) [
        | inl y ↦ rw y (peers_of-IsFresh seen ns)
        | inr o ↦ elim (Bool-cases (has addr seen)) [
          | inl d ↦ rw (o, d) (peers_of-IsFresh seen ns)
          | inr f ↦
              rw (o, f)
                (
                  f,
                  All-map _ _ (peers_of (addr ∷ seen) ns) (IsFresh-older addr seen)
                      (peers_of-IsFresh (addr ∷ seen) ns),
                )
        ]
      ]

  peers_of-AreDistinct : (seen : List Str) (ns : List (Node F)) → AreDistinct (peers_of seen ns)
  unfolding peers_of
  peers_of-AreDistinct seen [] = tt
  peers_of-AreDistinct seen (n ∷ ns) =
      let addr = join_host_port n.ip in
      elim (Bool-cases (is_skipped n)) [
        | inl y ↦ rw y (peers_of-AreDistinct seen ns)
        | inr o ↦ elim (Bool-cases (has addr seen)) [
          | inl d ↦ rw (o, d) (peers_of-AreDistinct seen ns)
          | inr f ↦
              rw (o, f)
                (
                  All-map _ _ (peers_of (addr ∷ seen) ns) (IsFresh-other addr seen)
                      (peers_of-IsFresh (addr ∷ seen) ns),
                  peers_of-AreDistinct (addr ∷ seen) ns,
                )
        ]
      ]

  -- What a peer is the address of.
  abbrev pub IsPeer : List (Node F) → Str → Type 0
  IsPeer ns a = (n : Node F) × Memᴰ n ns × (is_skipped n ≡ false) × (join_host_port n.ip ≡ a)

  IsPeer-more : (n : Node F) (ns : List (Node F)) (a : Str) → IsPeer ns a → IsPeer (n ∷ ns) a
  IsPeer-more n ns a (m, k, kept, q) = (m, Memᴰ.tail k, kept, q)

  peers_of-IsPeer : (seen : List Str) (ns : List (Node F)) → All (IsPeer ns) (peers_of seen ns)
  unfolding peers_of
  peers_of-IsPeer seen [] = tt
  peers_of-IsPeer seen (n ∷ ns) =
      let addr = join_host_port n.ip in
      elim (Bool-cases (is_skipped n)) [
        | inl y ↦ rw y (All-map _ _ (peers_of seen ns) (IsPeer-more n ns) (peers_of-IsPeer seen ns))
        | inr o ↦ elim (Bool-cases (has addr seen)) [
          | inl d ↦
              rw (o, d)
                (All-map _ _ (peers_of seen ns) (IsPeer-more n ns) (peers_of-IsPeer seen ns))
          | inr f ↦
              rw (o, f)
                (
                  (n, Memᴰ.head refl, o, refl),
                  All-map _ _ (peers_of (addr ∷ seen) ns) (IsPeer-more n ns)
                      (peers_of-IsPeer (addr ∷ seen) ns),
                )
        ]
      ]

  peers_of-IsListed :
      (seen : List Str) (ns : List (Node F)) (n : Node F)
      → Memᴰ n ns
      → is_skipped n ≡ false
      → IsListed seen (join_host_port n.ip) (peers_of seen ns)
  unfolding peers_of
  peers_of-IsListed seen [] n m kept = elim m [ ]
  peers_of-IsListed seen (x ∷ ns) n (Memᴰ.head q) kept =
      let o : is_skipped x ≡ false = rw (sym q) kept in
      let same : join_host_port n.ip ≡ join_host_port x.ip =
        ap (λ (w : Node F). join_host_port w.ip) q in
      elim (Bool-cases (has (join_host_port x.ip) seen)) [
        | inl d ↦ rw (o, d) (inl (ap (λ a. has a seen) same ∙ d))
        | inr f ↦ rw (o, f) (inr (Memᴰ.head same))
      ]
  peers_of-IsListed seen (x ∷ ns) n (Memᴰ.tail m) kept =
      let addr = join_host_port x.ip in
      let own = join_host_port n.ip in
      elim (Bool-cases (is_skipped x)) [
        | inl y ↦ rw y (peers_of-IsListed seen ns n m kept)
        | inr o ↦ elim (Bool-cases (has addr seen)) [
          | inl d ↦ rw (o, d) (peers_of-IsListed seen ns n m kept)
          | inr f ↦
              rw (o, f)
                (elim (peers_of-IsListed (addr ∷ seen) ns n m kept) [
                  | inr later ↦ inr (Memᴰ.tail later)
                  | inl known ↦ elim (Bool-cases (own == addr)) [
                    | inl e ↦ inr (Memᴰ.head ((str_beq_iff own addr).0 e))
                    | inr e ↦ inl (ground (arith, known, e))
                  ]
                ])
        ]
      ]

  peers_of-complete :
      (ns : List (Node F)) (n : Node F)
      → Memᴰ n ns
      → is_skipped n ≡ false
      → Memᴰ (join_host_port n.ip) (peers_of [] ns)
  peers_of-complete ns n m kept = elim (peers_of-IsListed [] ns n m kept) [
    | inl seen ↦ ground (arith, seen)
    | inr listed ↦ listed
  ]

  -- The peers that are found in a list of nodes.
  pub record ArePeers (ns : List (Node F)) (peers : List Str) : Type 0 where
    pub distinct : AreDistinct peers
    pub nodes : All (IsPeer ns) peers
    pub complete :
        (n : Node F) → Memᴰ n ns → is_skipped n ≡ false → Memᴰ (join_host_port n.ip) peers

  -- Where the nodes are listed, the peers are exactly the addresses of the nodes with another id
  -- than the node's own and with an IP, none of them twice.
  pub discover_gossip_peers-ArePeers :
      (E : Type 0) (ns : List (Node F)) → ArePeers ns (discover_gossip_peers {E = E} (some (ok ns)))
  unfolding discover_gossip_peers
  discover_gossip_peers-ArePeers E ns = record {
    distinct = peers_of-AreDistinct [] ns;
    nodes = peers_of-IsPeer [] ns;
    complete = peers_of-complete ns;
  }
