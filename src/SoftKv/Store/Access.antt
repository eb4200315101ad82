-- ===== src/SoftKv/Store/Access.antt =====
-- `Put` and `Get` of internal/softkv/store.go, as a caller sees them.
use flux_mesh.Base.{
  ℕ, ◌+◌, true, none, some, if◌then◌else◌, ◌==◌, ok, err, ℤ, pos, leb_ℤ, Str, str_eq, str_beq_iff,
  trim_space, is_empty, ◌≡◌, ◌⊎◌, arith,
}
use flux_mesh.Base.Dict
use flux_mesh.SoftKv.Store.{PutError, Entry, Store, expired, put, get, u64}

module _ {V : Type 0} where
  -- A `Put` fails only for a blank key or a ttl that is not positive; it is then counted as an
  -- error, draws no sequence number, and no `Get` sees a change.
  pub put_failure :
      (now : ℕ) (raw : Str) (value : V) (ttl : ℤ) (source : Str) (s : Store V) (x : PutError)
      → let (s', r) = put now raw value ttl source s in
        r ≡ err x
        → ((is_empty (trim_space raw) ≡ true) ⊎ (leb_ℤ ttl (pos 0) ≡ true))
          × (s'.counters.put_errors ≡ u64 (s.counters.put_errors + 1))
          × (s'.seqs ≡ s.seqs)
          × ((now' : ℕ) (raw' : Str) → (get now' raw' s').1 ≡ (get now' raw' s).1)
  unfolding put get
  put_failure now raw value ttl source s x h =
      (ground arith, ground arith, ground arith, λ now' raw'. ground arith)

  -- After a `Put` that succeeds, a `Get` of the same key, but for surrounding spaces, returns the
  -- new entry until it expires and nothing from then on; a `Get` of another key is unchanged.
  pub get-put :
      (now now' : ℕ) (raw raw' : Str) (value : V) (ttl : ℤ) (source : Str) (s : Store V)
      (e : Entry V)
      → let (s', r) = put now raw value ttl source s in
        r ≡ ok e
        → (get now' raw' s').1 ≡ (
            if trim_space raw == trim_space raw'
            then (if expired e now' then none else some e)
            else (get now' raw' s).1)
  unfolding put get
  get-put now now' raw raw' value ttl source s e h = ground (
    arith,
    Dict.get-put s.entries (trim_space raw) (trim_space raw') e,
    str_beq_iff (trim_space raw) (trim_space raw'),
  )
