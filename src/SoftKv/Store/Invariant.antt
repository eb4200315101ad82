-- ===== src/SoftKv/Store/Invariant.antt =====
-- What holds of a store between two calls of internal/softkv/store.go, whatever the calls.
use flux_mesh.Base.{
  ℕ, ◌+◌, List, [], ◌∷◌, ◌==◌, ℤ, Str, str_eq, trim_space, ◌≡◌, refl, arith, All, keep, inl, inr,
  Bool-cases,
}
use flux_mesh.Base.Dict
use flux_mesh.Base.Dict.{Dict, IsMap}
use flux_mesh.SoftKv.Store.{
  Entry, Store, u64, seq_of, put, get, list, merge, delete_expired, new_store, new_entry,
  unix_milli, expired, entry_live, raise_seq,
}

-- The calls of the package's API, with the clock readings that they make.
pub data Call (V : Type 0) : Type 0 where
  put_call : ℕ → Str → V → ℤ → Str → Call V
  get_call : ℕ → Str → Call V
  list_call : ℕ → Str → Call V
  merge_call : ℕ → ℕ → Entry V → Call V
  delete_expired_call : ℕ → Call V

module _ {V : Type 0} where
  unfoldable pub perform : Store V → Call V → Store V
  perform s (put_call now key value ttl source) = (put now key value ttl source s).0
  perform s (get_call now key) = (get now key s).0
  perform s (list_call now prefix) = (list now prefix s).0
  perform s (merge_call now now' e) = (merge now now' e s).0
  perform s (delete_expired_call now) = (delete_expired now s).0

  unfoldable pub perform_all : Store V → List (Call V) → Store V
  perform_all s [] = s
  perform_all s (c ∷ cs) = perform_all (perform s c) cs

  -- Each key is stored once and under its own name, and the counters of outcomes add up to the
  -- counters of calls.
  pub record IsSound (s : Store V) : Type 0 where
    pub keys_once : IsMap s.entries
    pub keyed : All (λ p. p.1.key ≡ p.0) s.entries
    pub sources_once : IsMap s.seqs
    pub gets : u64 (s.counters.get_hits + s.counters.get_misses) ≡ s.counters.get_total
    pub merges :
        u64 (s.counters.merge_accepted + s.counters.merge_rejected) ≡ s.counters.merge_total

  keyed-put :
      (m : Dict Str (Entry V)) (e : Entry V)
      → All (λ p. p.1.key ≡ p.0) m
      → All (λ p. p.1.key ≡ p.0) (Dict.put m e.key e)
  unfolding Dict.put
  keyed-put [] e h = (refl, tt)
  keyed-put ((k, v) ∷ m) e h = elim (Bool-cases (k == e.key)) [
    | inl p ↦ rw p (refl, h.1)
    | inr p ↦ rw p (h.0, keyed-put m e h.1)
  ]

  keyed-keep :
      (m : Dict Str (Entry V)) (now : ℕ)
      → All (λ p. p.1.key ≡ p.0) m
      → All (λ p. p.1.key ≡ p.0) (keep (entry_live now) m)
  keyed-keep [] now h = tt
  keyed-keep (p ∷ m) now h = elim (Bool-cases (expired p.1 now)) [
    | inl q ↦ rw q (keyed-keep m now h.1)
    | inr q ↦ rw q (h.0, keyed-keep m now h.1)
  ]

  put-IsSound :
      (now : ℕ) (raw : Str) (value : V) (ttl : ℤ) (source : Str) (s : Store V)
      → IsSound s
      → IsSound (put now raw value ttl source s).0
  unfolding put
  put-IsSound now raw value ttl source s h =
      let seq = u64 (seq_of s.seqs source + 1) in
      let e = new_entry now (trim_space raw) value ttl source seq in
      ground (
        arith,
        Dict.IsMap-put s.entries (trim_space raw) e h.keys_once,
        keyed-put s.entries e h.keyed,
        Dict.IsMap-put s.seqs source seq h.sources_once,
      )

  get-IsSound : (now : ℕ) (raw : Str) (s : Store V) → IsSound s → IsSound (get now raw s).0
  unfolding get
  get-IsSound now raw s h = ground arith

  list-IsSound : (now : ℕ) (raw : Str) (s : Store V) → IsSound s → IsSound (list now raw s).0
  unfolding list
  list-IsSound now raw s h = ground arith

  raise_seq-IsMap : (m : Dict Str ℕ) (e : Entry V) → IsMap m → IsMap (raise_seq m e)
  unfolding raise_seq
  raise_seq-IsMap m e h = ground (arith, Dict.IsMap-put m e.source_id e.seq h)

  merge-IsSound :
      (now now' : ℕ) (e : Entry V) (s : Store V) → IsSound s → IsSound (merge now now' e s).0
  unfolding merge
  merge-IsSound now now' e s h =
      let e' = record e { ingested_at = unix_milli now' } in
      ground (
        arith,
        Dict.IsMap-put s.entries e.key e' h.keys_once,
        keyed-put s.entries e' h.keyed,
        raise_seq-IsMap s.seqs e' h.sources_once,
      )

  delete_expired-IsSound : (now : ℕ) (s : Store V) → IsSound s → IsSound (delete_expired now s).0
  unfolding delete_expired
  delete_expired-IsSound now s h = ground (
    arith,
    Dict.IsMap-keep s.entries (entry_live now) h.keys_once,
    keyed-keep s.entries now h.keyed,
  )

  pub perform-IsSound : (s : Store V) (c : Call V) → IsSound s → IsSound (perform s c)
  unfolding perform
  perform-IsSound s (put_call now key value ttl source) = put-IsSound now key value ttl source s
  perform-IsSound s (get_call now key) = get-IsSound now key s
  perform-IsSound s (list_call now prefix) = list-IsSound now prefix s
  perform-IsSound s (merge_call now now' e) = merge-IsSound now now' e s
  perform-IsSound s (delete_expired_call now) = delete_expired-IsSound now s

  perform_all-IsSound_from :
      (s : Store V) (cs : List (Call V)) → IsSound s → IsSound (perform_all s cs)
  unfolding perform_all
  perform_all-IsSound_from s [] h = h
  perform_all-IsSound_from s (c ∷ cs) h =
      perform_all-IsSound_from (perform s c) cs (perform-IsSound s c h)

  -- After any calls on a new store, each key is held once, under the entry's own key, and the
  -- counters of outcomes add up to those of `Get` and of `Merge`.
  pub perform_all-IsSound : (cs : List (Call V)) → IsSound (perform_all new_store cs)
  perform_all-IsSound cs = perform_all-IsSound_from new_store cs (ground arith)
