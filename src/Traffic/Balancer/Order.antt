-- ===== src/Traffic/Balancer/Order.antt =====
-- The orders of internal/traffic/balancer.go: by weight and address, and by latency first.
use mathlib.Core.List.{Memᴰ}
use flux_mesh.Base.{
  Bool, true, false, Option, none, some, List, [], ◌∷◌, if◌then◌else◌, int_eq, Str, str_eq,
  str_lt_asymm, str_lt_irrefl, str_lt_trans, str_lt_connex, ◌≡◌, ◌⊎◌, inl, inr, refl, sym, ap, ◌∙◌,
  arith, All, All-at, Bool-cases, Memᴰ-cases, ok,
}
use flux_mesh.Base.Dict
use flux_mesh.Base.Dict.{Dict}
use flux_mesh.Base.Sorting.{
  IsWeakOrder, IsSorted, sort_stable, sort_stable-IsSorted, mem-sort_stable, sort_stable-mem,
}
use flux_mesh.Model.Service.{BackendTarget, BackendGroup}
use flux_mesh.Traffic.Floats.{Floats, IsOrdered}
use flux_mesh.Traffic.Balancer.{
  by_weight, by_latency, heavier, load_first, load_first_pick, Draws, PlanState, latencies,
  latency_less, head_addr, latency_first_balancer,
}

module _ (f : Floats) where
  by_weight_not_trans :
      (a b c : BackendTarget)
      → by_weight f b a ≡ false
      → by_weight f c b ≡ false
      → by_weight f c a ≡ false
  by_weight_not_trans a b c h k = ground (
    arith,
    str_lt_trans c.addr a.addr b.addr,
    str_lt_trans a.addr b.addr c.addr,
    str_lt_connex a.addr b.addr,
    str_lt_connex b.addr c.addr,
    str_lt_asymm a.addr b.addr,
  )

  pub by_weight-IsWeakOrder : IsWeakOrder (by_weight f)
  by_weight-IsWeakOrder = record {
    asymm = λ a b h. ground (arith, str_lt_asymm a.addr b.addr);
    not_trans = by_weight_not_trans;
  }

  -- Targets of which neither comes first have one weight and one address.
  by_weight_connex :
      (a b : BackendTarget) → by_weight f a b ≡ false → by_weight f b a ≡ false → a.addr ≡ b.addr
  by_weight_connex a b h k = ground (arith, str_lt_connex a.addr b.addr)

  heavier-by_weight :
      (best t : BackendTarget) → heavier best t ≡ (if by_weight f t best then t else best)
  unfolding heavier
  heavier-by_weight best t = ground arith

  load_first_least :
      (best : BackendTarget) (ts : List BackendTarget)
      → All (λ x. by_weight f x (load_first best ts) ≡ false) (best ∷ ts)
  unfolding load_first
  load_first_least best [] = (ground (arith, str_lt_irrefl best.addr), tt)
  load_first_least best (t ∷ ts) =
      let (h, rest) = load_first_least (heavier best t) ts in
      let m = load_first (heavier best t) ts in
      elim (Bool-cases (by_weight f t best)) [
        | inl p ↦
            let e : heavier best t ≡ t =
              heavier-by_weight best t ∙ ap (λ b. if b then t else best) p in
            let ht : by_weight f t m ≡ false = ap (λ x. by_weight f x m) (sym e) ∙ h in
            (by_weight_not_trans m t best ht (by_weight-IsWeakOrder.asymm t best p), (ht, rest))
        | inr p ↦
            let e : heavier best t ≡ best =
              heavier-by_weight best t ∙ ap (λ b. if b then t else best) p in
            let hb : by_weight f best m ≡ false = ap (λ x. by_weight f x m) (sym e) ∙ h in
            (hb, (by_weight_not_trans m best t hb p, rest))
      ]

  heavier-cases : (best t : BackendTarget) → (heavier best t ≡ best) ⊎ (heavier best t ≡ t)
  unfolding heavier
  heavier-cases best t = ground arith

  load_first-mem :
      (best : BackendTarget) (ts : List BackendTarget) → Memᴰ (load_first best ts) (best ∷ ts)
  unfolding load_first
  load_first-mem best [] = Memᴰ.head refl
  load_first-mem best (t ∷ ts) = elim (Memᴰ-cases (load_first-mem (heavier best t) ts)) [
    | inl q ↦ elim (heavier-cases best t) [
      | inl e ↦ Memᴰ.head (q ∙ e)
      | inr e ↦ Memᴰ.tail (Memᴰ.head (q ∙ e))
    ]
    | inr m ↦ Memᴰ.tail (Memᴰ.tail m)
  ]

  -- The head of a sorted list comes first among the members of the list.
  head_least :
      (less : BackendTarget → BackendTarget → Bool) (w : IsWeakOrder less)
      (irrefl : (x : BackendTarget) → less x x ≡ false) (l : List BackendTarget) (h : BackendTarget)
      (rest : List BackendTarget)
      → sort_stable less l ≡ h ∷ rest
      → Memᴰ h l × ((x : BackendTarget) → Memᴰ x l → less x h ≡ false)
  head_least less w irrefl l h rest e =
      let sorted : IsSorted less (h ∷ rest) = rw e at (sort_stable-IsSorted less w l) in
      (
        sort_stable-mem less l (rw e (Memᴰ.head refl)),
        λ x m.
            All-at (λ y. less y h ≡ false) (h ∷ rest) (irrefl h, sorted.0)
              (rw e at (mem-sort_stable less l m)),
      )

  by_weight_irrefl : (a : BackendTarget) → by_weight f a a ≡ false
  by_weight_irrefl a = ground (arith, str_lt_irrefl a.addr)

  -- The load-first strategy picks the address that the sort by weight and address, which orders
  -- the candidates of several attempts, puts first.
  pub load_first_pick-sort_stable :
      (ts : List BackendTarget) → load_first_pick ts ≡ head_addr f (sort_stable (by_weight f) ts)
  unfolding load_first_pick sort_stable
  load_first_pick-sort_stable [] = refl
  load_first_pick-sort_stable (t ∷ ts) = over (sort_stable (by_weight f) (t ∷ ts)) refl
    where
      over :
          (l : List BackendTarget)
          → sort_stable (by_weight f) (t ∷ ts) ≡ l
          → ok (load_first t ts).addr ≡ head_addr f l
      over [] e = elim (rw e at (mem-sort_stable (by_weight f) (t ∷ ts) (Memᴰ.head refl))) [ ]
      over (h ∷ rest) e =
          let (member, least) =
            head_least (by_weight f) by_weight-IsWeakOrder by_weight_irrefl (t ∷ ts) h rest e in
          ap ok (
            by_weight_connex (load_first t ts) h (least (load_first t ts) (load_first-mem t ts)) (
              All-at (λ y. by_weight f y (load_first t ts) ≡ false) (t ∷ ts) (load_first_least t ts)
                member))

module _ (f : Floats) (o : IsOrdered f) where
  latency_less_asymm :
      (a b : Option f.Float) (p q : Bool)
      → (p ≡ true → q ≡ false)
      → latency_less f a b p ≡ true
      → latency_less f b a q ≡ false
  unfolding latency_less
  latency_less_asymm (some x) (some y) p q k h =
      ground (arith, o.asymm x y, o.equal_iff x y, o.equal_iff y x, k)
  latency_less_asymm (some x) none p q k h = refl
  latency_less_asymm none (some y) p q k h = cc
  latency_less_asymm none none p q k h = k h

  latency_less_not_trans :
      (a b c : Option f.Float) (p q r : Bool)
      → (p ≡ false → q ≡ false → r ≡ false)
      → latency_less f b a p ≡ false
      → latency_less f c b q ≡ false
      → latency_less f c a r ≡ false
  unfolding latency_less
  latency_less_not_trans (some x) (some y) (some z) p q r k h l = ground (
    arith,
    k,
    o.equal_iff y x,
    o.equal_iff z y,
    o.equal_iff z x,
    o.trans z x y,
    o.trans x y z,
    o.connex x y,
    o.connex y z,
    o.asymm x y,
  )
  latency_less_not_trans (some x) (some y) none p q r k h l = refl
  latency_less_not_trans (some x) none (some z) p q r k h l = cc
  latency_less_not_trans (some x) none none p q r k h l = refl
  latency_less_not_trans none (some y) c p q r k h l = cc
  latency_less_not_trans none none (some z) p q r k h l = cc
  latency_less_not_trans none none none p q r k h l = k h l

  pub by_latency-IsWeakOrder : (m : Dict Str f.Float) → IsWeakOrder (by_latency f m)
  unfolding by_latency
  by_latency-IsWeakOrder m = record {
    asymm = λ a b h.
        latency_less_asymm (Dict.get m a.addr) (Dict.get m b.addr) (by_weight f a b)
          (by_weight f b a) ((by_weight-IsWeakOrder f).asymm a b) h;
    not_trans = λ a b c h k.
        latency_less_not_trans (Dict.get m a.addr) (Dict.get m b.addr) (Dict.get m c.addr)
          (by_weight f b a) (by_weight f c b) (by_weight f c a)
          ((by_weight-IsWeakOrder f).not_trans a b c) h k;
  }

  latency_less_same : (a : Option f.Float) → latency_less f a a false ≡ false
  unfolding latency_less
  latency_less_same none = refl
  latency_less_same (some x) = ground (arith, o.equal_iff x x)

  by_latency_irrefl : (m : Dict Str f.Float) (a : BackendTarget) → by_latency f m a a ≡ false
  unfolding by_latency
  by_latency_irrefl m a = rw (by_weight_irrefl f a) (latency_less_same (Dict.get m a.addr))

  -- The latency-first strategy picks a target that no target of the group comes before: one with
  -- a known latency before one without, then the smaller latency, the larger weight and the
  -- smaller address. It leaves the state alone, and fails only for a group with no targets.
  pub latency_first_balancer_least :
      (draws : Draws) (name : Str) (group : BackendGroup) (s : Option (PlanState f))
      (t : BackendTarget) (ts : List BackendTarget)
      → group.targets ≡ t ∷ ts
      → (best : BackendTarget) × (latency_first_balancer f draws name group s ≡ (s, ok best.addr))
        × Memᴰ best group.targets
        × ((x : BackendTarget) → Memᴰ x group.targets → by_latency f (latencies f s) x best ≡ false)
  unfolding latency_first_balancer
  latency_first_balancer_least draws name group s t ts e =
      over (sort_stable (by_latency f (latencies f s)) group.targets) refl
    where
      less : BackendTarget → BackendTarget → Bool
      less = by_latency f (latencies f s)

      over :
          (l : List BackendTarget)
          → sort_stable less group.targets ≡ l
          → (best : BackendTarget) × (latency_first_balancer f draws name group s
              ≡ (s, ok best.addr))
            × Memᴰ best group.targets
            × ((x : BackendTarget) → Memᴰ x group.targets → less x best ≡ false)
      over [] q =
          let first : Memᴰ t group.targets = rw e (Memᴰ.head refl) in
          elim (rw q at (mem-sort_stable less group.targets first)) [ ]
      over (h ∷ rest) q =
          let (member, least) =
            head_least f less (by_latency-IsWeakOrder (latencies f s))
              (by_latency_irrefl (latencies f s)) group.targets h rest q in
          (h, rw q refl, member, least)
