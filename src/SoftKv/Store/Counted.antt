-- ===== src/SoftKv/Store/Counted.antt =====
-- What the counters of internal/softkv/store.go count: the calls, and their outcomes.
use flux_mesh.Base.{
  ℕ, ◌+◌, ◌%◌, ◌^◌, Bool, true, false, List, [], ◌∷◌, if◌then◌else◌, ◌≡◌, refl, arith, ◌∙◌, ap,
  Bool-cases, inl, inr,
}
use flux_mesh.SoftKv.Store.{Store, u64, put, get, list, merge, delete_expired, new_store}
use flux_mesh.SoftKv.Store.Invariant.{
  Call, put_call, get_call, list_call, merge_call, delete_expired_call, perform, perform_all,
  perform_all-IsSound,
}

wrapped : (n m : ℕ) → ((n + 1) % 2 ^ 64 + m) % 2 ^ 64 ≡ (n + (1 + m)) % 2 ^ 64
wrapped n m = grind arith

module _ {V : Type 0} where
  abbrev pub is_put : Call V → Bool
  is_put (put_call now key value ttl source) = true
  is_put c = false

  abbrev pub is_get : Call V → Bool
  is_get (get_call now key) = true
  is_get c = false

  abbrev pub is_list : Call V → Bool
  is_list (list_call now prefix) = true
  is_list c = false

  abbrev pub is_merge : Call V → Bool
  is_merge (merge_call now now' e) = true
  is_merge c = false

  -- How many of the calls are of a kind.
  abbrev pub calls_of : (Call V → Bool) → List (Call V) → ℕ
  calls_of kind [] = 0
  calls_of kind (c ∷ cs) = if kind c then 1 + calls_of kind cs else calls_of kind cs

  -- A counter that each call of a kind, and no other, raises by one.
  abbrev Counts : (Call V → Bool) → (Store V → ℕ) → Type 0
  Counts kind counter =
      (s : Store V) (c : Call V)
      → counter (perform s c) ≡ (if kind c then u64 (counter s + 1) else counter s)

  counted_from :
      (kind : Call V → Bool) (counter : Store V → ℕ)
      → Counts kind counter
      → (cs : List (Call V)) (s : Store V) → u64 (counter s) ≡ counter s
      → counter (perform_all s cs) ≡ u64 (counter s + calls_of kind cs)
  unfolding perform_all
  counted_from kind counter step [] s small = ground (arith, small)
  counted_from kind counter step (c ∷ cs) s small = elim (Bool-cases (kind c)) [
    | inl y ↦
        let at : counter (perform s c) ≡ u64 (counter s + 1) = step s c ∙ rw y refl in
        let rest = counted_from kind counter step cs (perform s c) (rw at (grind arith)) in
        rw y (rest ∙ rw at (wrapped (counter s) (calls_of kind cs)))
    | inr n ↦
        let at : counter (perform s c) ≡ counter s = step s c ∙ rw n refl in
        let rest = counted_from kind counter step cs (perform s c) (rw at small) in
        rw n (rest ∙ ap (λ k. u64 (k + calls_of kind cs)) at)
  ]

  counted :
      (kind : Call V → Bool) (counter : Store V → ℕ)
      → Counts kind counter
      → counter new_store ≡ 0
      → (cs : List (Call V)) → counter (perform_all new_store cs) ≡ u64 (calls_of kind cs)
  counted kind counter step none_yet cs =
      counted_from kind counter step cs new_store (rw none_yet refl)
      ∙ rw none_yet (ap u64 (omega arith))

  put_total-Counts : Counts is_put (λ s. s.counters.put_total)
  unfolding perform put get list merge delete_expired
  put_total-Counts s (put_call now key value ttl source) = ground arith
  put_total-Counts s (get_call now key) = ground arith
  put_total-Counts s (list_call now prefix) = ground arith
  put_total-Counts s (merge_call now now' e) = ground arith
  put_total-Counts s (delete_expired_call now) = ground arith

  get_total-Counts : Counts is_get (λ s. s.counters.get_total)
  unfolding perform put get list merge delete_expired
  get_total-Counts s (put_call now key value ttl source) = ground arith
  get_total-Counts s (get_call now key) = ground arith
  get_total-Counts s (list_call now prefix) = ground arith
  get_total-Counts s (merge_call now now' e) = ground arith
  get_total-Counts s (delete_expired_call now) = ground arith

  list_total-Counts : Counts is_list (λ s. s.counters.list_total)
  unfolding perform put get list merge delete_expired
  list_total-Counts s (put_call now key value ttl source) = ground arith
  list_total-Counts s (get_call now key) = ground arith
  list_total-Counts s (list_call now prefix) = ground arith
  list_total-Counts s (merge_call now now' e) = ground arith
  list_total-Counts s (delete_expired_call now) = ground arith

  merge_total-Counts : Counts is_merge (λ s. s.counters.merge_total)
  unfolding perform put get list merge delete_expired
  merge_total-Counts s (put_call now key value ttl source) = ground arith
  merge_total-Counts s (get_call now key) = ground arith
  merge_total-Counts s (list_call now prefix) = ground arith
  merge_total-Counts s (merge_call now now' e) = ground arith
  merge_total-Counts s (delete_expired_call now) = ground arith

  -- The counters after calls on a new store.
  pub record AreCounted (cs : List (Call V)) (s : Store V) : Type 0 where
    pub puts : s.counters.put_total ≡ u64 (calls_of is_put cs)
    pub gets : u64 (s.counters.get_hits + s.counters.get_misses) ≡ u64 (calls_of is_get cs)
    pub lists : s.counters.list_total ≡ u64 (calls_of is_list cs)
    pub merges :
        u64 (s.counters.merge_accepted + s.counters.merge_rejected) ≡ u64 (calls_of is_merge cs)

  -- After any calls on a new store, its counters, which wrap at 2^64, say how often `Put` and `List`
  -- were called; the hits and the misses add up to the number of calls of `Get`, and the accepted
  -- and the rejected entries to the number of calls of `Merge`.
  pub perform_all-AreCounted : (cs : List (Call V)) → AreCounted cs (perform_all new_store cs)
  perform_all-AreCounted cs =
      let sound = perform_all-IsSound cs in
      record {
        puts = counted is_put (λ s. s.counters.put_total) put_total-Counts refl cs;
        gets = sound.gets ∙ counted is_get (λ s. s.counters.get_total) get_total-Counts refl cs;
        lists = counted is_list (λ s. s.counters.list_total) list_total-Counts refl cs;
        merges =
            sound.merges
            ∙ counted is_merge (λ s. s.counters.merge_total) merge_total-Counts refl cs;
      }
