-- ===== src/SoftKv/Store/Divergence.antt =====
-- Where a source's clock goes back, or its numbers start again: `shouldAccept` of
-- internal/softkv/store.go prefers the number within a source, and the time across sources.
use flux_mesh.Base.{
  ℕ, ◌<◌, true, false, some, [], ◌∷◌, ltb_ℤ, int_eq, Str, str_eq, str_beq_iff, ◌≡◌, ◌≢◌, arith, All,
  ◌∙◌,
}
use flux_mesh.Base.Dict
use flux_mesh.SoftKv.Store.{Entry, Store, should_accept, merge, new_store}
use flux_mesh.SoftKv.Store.Accept.{payload}
use flux_mesh.SoftKv.Store.Replica.{Delivery, IsTaken, merge_all, view, view-merge_all, settle}

module _ {V : Type 0} where
  -- An entry with a smaller number than the one that is held from the same source is rejected
  -- and changes nothing but the counters, however late its time.
  pub merge_restarted_source :
      (now now' : ℕ) (e current : Entry V) (s : Store V)
      → Dict.get s.entries e.key ≡ some current
      → e.source_id ≡ current.source_id
      → e.seq < current.seq
      → let (s', accepted) = merge now now' e s in
        (accepted ≡ false) × (s'.entries ≡ s.entries) × (s'.seqs ≡ s.seqs)
  unfolding merge should_accept
  merge_restarted_source now now' e current s h same less =
      ground (arith, str_beq_iff current.source_id e.source_id)

  -- Of a source's two writes the later in number has an earlier time, and a write of another
  -- source lies between: then each of the three replaces the next.
  pub record Backward (a b c : Entry V) : Type 0 where
    pub same : a.source_id ≡ c.source_id
    pub other : a.source_id ≢ b.source_id
    pub later : a.seq < c.seq
    pub earlier : ltb_ℤ c.updated_at b.updated_at ≡ true
    pub between : ltb_ℤ b.updated_at a.updated_at ≡ true

  accepts_forward : (a b c : Entry V) → Backward a b c → should_accept a c ≡ true
  unfolding should_accept
  accepts_forward a b c h = ground (arith, str_beq_iff a.source_id c.source_id)

  accepts_middle :
      (a b c : Entry V)
      → Backward a b c
      → (should_accept a b ≡ false) × (should_accept b c ≡ false) × (should_accept b a ≡ true)
  unfolding should_accept
  accepts_middle a b c h = (
    ground (arith, str_beq_iff a.source_id b.source_id),
    ground (arith, str_beq_iff b.source_id c.source_id, str_beq_iff a.source_id b.source_id),
    ground (arith, str_beq_iff b.source_id a.source_id),
  )

  Backward-payload :
      (a b c : Entry V) → Backward a b c → Backward (payload a) (payload b) (payload c)
  Backward-payload a b c h = record {
    same = h.same;
    other = h.other;
    later = h.later;
    earlier = h.earlier;
    between = h.between;
  }

  -- Take three writes of one key: the first and the last of one source, the last with the larger
  -- number and the smaller time, the middle one of another source with a time between. Delivered
  -- to two empty replicas in two orders, and taken by both, they leave them with different
  -- writes: the first replica holds the last write, the second the first.
  pub merge_all_diverges :
      (p q r p' q' r' : Delivery V) (k : Str)
      → All IsTaken (p ∷ q ∷ r ∷ [])
      → All IsTaken (q' ∷ r' ∷ p' ∷ [])
      → (p'.entry ≡ p.entry) × (q'.entry ≡ q.entry) × (r'.entry ≡ r.entry)
      → (p.entry.key ≡ k) × (q.entry.key ≡ k) × (r.entry.key ≡ k)
      → Backward p.entry q.entry r.entry
      → (view (merge_all (p ∷ q ∷ r ∷ []) new_store) k ≡ some (payload r.entry))
        × (view (merge_all (q' ∷ r' ∷ p' ∷ []) new_store) k ≡ some (payload p.entry))
  unfolding settle Dict.get
  merge_all_diverges p q r p' q' r' k h h' same at b =
      let b' = Backward-payload p.entry q.entry r.entry b in
      let (ab, bc, ba) = accepts_middle (payload p.entry) (payload q.entry) (payload r.entry) b' in
      let ac = accepts_forward (payload p.entry) (payload q.entry) (payload r.entry) b' in
      (
        view-merge_all (p ∷ q ∷ r ∷ []) new_store k h
            ∙ ground (
              arith,
              str_beq_iff p.entry.key k,
              str_beq_iff q.entry.key k,
              str_beq_iff r.entry.key k,
            ),
        view-merge_all (q' ∷ r' ∷ p' ∷ []) new_store k h'
            ∙ ground (
              arith,
              str_beq_iff p.entry.key k,
              str_beq_iff q.entry.key k,
              str_beq_iff r.entry.key k,
            ),
      )
