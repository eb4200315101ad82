-- ===== src/SoftKv/Store/Accept.antt =====
-- `shouldAccept` of internal/softkv/store.go: when an entry replaces another.
use flux_mesh.Base.{
  ◌<◌, Bool, true, false, if◌then◌else◌, ltb, ◌==◌, pos, ◌≤ℤ◌, ltb_ℤ, int_eq, str_eq, str_lt,
  str_beq_iff, str_lt_asymm, str_lt_irrefl, str_lt_trans, str_lt_connex, ◌≡◌, inl, inr, arith,
  Bool-cases,
}
use flux_mesh.SoftKv.Store.{Entry, should_accept}

module _ {V : Type 0} where
  -- An entry without the time at which this node received it.
  abbrev pub payload : Entry V → Entry V
  payload e = record e { ingested_at = pos 0 }

  -- What writes of well-behaved sources satisfy: of two writes of one source the one with the
  -- larger number is not older, and a number is used for one write.
  pub record Compatible (a b : Entry V) : Type 0 where
    pub ordered : a.source_id ≡ b.source_id → a.seq < b.seq → a.updated_at ≤ℤ b.updated_at
    pub ordered' : a.source_id ≡ b.source_id → b.seq < a.seq → b.updated_at ≤ℤ a.updated_at
    pub same : a.source_id ≡ b.source_id → a.seq ≡ b.seq → a ≡ b

  -- Time of the write first, then the source, then its number.
  unfoldable pub newer : Entry V → Entry V → Bool
  newer a b =
      if ltb_ℤ a.updated_at b.updated_at
      then true
      else if ltb_ℤ b.updated_at a.updated_at
      then false
      else if str_lt a.source_id b.source_id
      then true
      else if str_lt b.source_id a.source_id
      then false
      else ltb a.seq b.seq

  pub newer_asymm : (a b : Entry V) → newer a b ≡ true → newer b a ≡ false
  unfolding newer
  newer_asymm a b h =
      ground (arith, str_lt_asymm a.source_id b.source_id, str_lt_asymm b.source_id a.source_id)

  -- On compatible entries the code's test is this order.
  pub should_accept-newer : (a b : Entry V) → Compatible a b → should_accept a b ≡ newer a b
  unfolding should_accept newer
  should_accept-newer a b h = elim (Bool-cases (a.source_id == b.source_id)) [
    | inl p ↦
        let e : a.source_id ≡ b.source_id = (str_beq_iff a.source_id b.source_id).0 p in
        ground (
          arith,
          h.ordered e,
          h.ordered' e,
          str_lt_irrefl b.source_id,
          str_beq_iff b.source_id a.source_id,
          e,
        )
    | inr p ↦ ground (
      arith,
      str_beq_iff b.source_id a.source_id,
      str_beq_iff a.source_id b.source_id,
      str_lt_asymm a.source_id b.source_id,
      str_lt_connex a.source_id b.source_id,
    )
  ]

  -- Whatever the entries, two of them never replace each other, and none replaces itself.
  pub should_accept_asymm : (a b : Entry V) → should_accept a b ≡ true → should_accept b a ≡ false
  unfolding should_accept
  should_accept_asymm a b h = ground (
    arith,
    str_beq_iff a.source_id b.source_id,
    str_beq_iff b.source_id a.source_id,
    str_lt_asymm a.source_id b.source_id,
  )

  pub newer_trans : (a b c : Entry V) → newer a b ≡ true → newer b c ≡ true → newer a c ≡ true
  unfolding newer
  newer_trans a b c h k = ground (
    arith,
    str_lt_asymm a.source_id b.source_id,
    str_lt_asymm b.source_id c.source_id,
    str_lt_asymm a.source_id c.source_id,
    str_lt_asymm c.source_id a.source_id,
    str_lt_trans a.source_id b.source_id c.source_id,
    str_lt_trans b.source_id c.source_id a.source_id,
    str_lt_trans c.source_id a.source_id b.source_id,
    str_lt_connex a.source_id b.source_id,
    str_lt_connex b.source_id c.source_id,
    str_lt_connex a.source_id c.source_id,
  )

  -- Compatible entries of which neither is newer are one.
  pub newer_connex :
      (a b : Entry V) → Compatible a b → newer a b ≡ false → newer b a ≡ false → a ≡ b
  unfolding newer
  newer_connex a b h k l =
      h.same (ground (arith, str_lt_connex a.source_id b.source_id))
        (ground (arith, str_lt_connex a.source_id b.source_id, str_lt_irrefl b.source_id))

  pub newer_irrefl : (e : Entry V) → newer e e ≡ false
  unfolding newer
  newer_irrefl e = ground (arith, str_lt_irrefl e.source_id)
