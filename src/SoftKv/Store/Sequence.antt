-- ===== src/SoftKv/Store/Sequence.antt =====
-- The sequence numbers of internal/softkv/store.go: `seq[source]` against the entries held.
use flux_mesh.Base.{
  ℕ, ◌+◌, ◌^◌, ◌≤◌, ◌<◌, true, false, some, if◌then◌else◌, ◌==◌, ok, ℤ, Str, str_eq, str_beq_iff,
  trim_space, is_empty, ◌≡◌, arith,
}
use flux_mesh.Base.Dict
use flux_mesh.Base.Dict.{Dict, IsMap}
use flux_mesh.SoftKv.Store.{
  Entry, Store, u64, seq_of, put, get, list, merge, delete_expired, new_entry, unix_milli,
  should_accept, entry_live, raise_seq,
}
use flux_mesh.SoftKv.Store.Invariant.{
  Call, put_call, get_call, list_call, merge_call, delete_expired_call, perform, IsSound,
}

seq_of-put :
    (m : Dict Str ℕ) (k j : Str) (n : ℕ)
    → seq_of (Dict.put m k n) j ≡ (if k == j then n else seq_of m j)
seq_of-put m k j n = ground (arith, Dict.get-put m k j n)

module _ {V : Type 0} where
  -- No entry is ahead of the number that is kept for its source.
  pub record CoversSeqs (s : Store V) : Type 0 where
    pub at_key :
        (k : Str) (e : Entry V)
        → Dict.get s.entries k ≡ some e
        → is_empty e.source_id ≡ false
        → e.seq ≤ seq_of s.seqs e.source_id

  pub put-CoversSeqs :
      (now : ℕ) (raw : Str) (value : V) (ttl : ℤ) (source : Str) (s : Store V)
      → seq_of s.seqs source + 1 < 2 ^ 64
      → CoversSeqs s
      → CoversSeqs (put now raw value ttl source s).0
  unfolding put
  put-CoversSeqs now raw value ttl source s room h = record {
    at_key = λ k e p q.
        let seq = u64 (seq_of s.seqs source + 1) in
        let new = new_entry now (trim_space raw) value ttl source seq in
        ground (
          arith,
          Dict.get-put s.entries (trim_space raw) k new,
          seq_of-put s.seqs source e.source_id seq,
          str_beq_iff source e.source_id,
          h.at_key k e,
        );
  }

  seq_of-raise_seq :
      (m : Dict Str ℕ) (e : Entry V) (j : Str)
      → (seq_of m j ≤ seq_of (raise_seq m e) j)
        × (is_empty e.source_id ≡ false → e.seq ≤ seq_of (raise_seq m e) e.source_id)
  unfolding raise_seq
  seq_of-raise_seq m e j = (
    ground (arith, seq_of-put m e.source_id j e.seq, str_beq_iff e.source_id j),
    λ q.
        ground
          (arith, seq_of-put m e.source_id e.source_id e.seq, str_beq_iff e.source_id e.source_id),
  )

  pub merge-CoversSeqs :
      (now now' : ℕ) (e : Entry V) (s : Store V) → CoversSeqs s → CoversSeqs (merge now now' e s).0
  unfolding merge
  merge-CoversSeqs now now' e s h = record {
    at_key = λ k x p q.
        let e' = record e { ingested_at = unix_milli now' } in
        ground (
          arith,
          Dict.get-put s.entries e.key k e',
          seq_of-raise_seq s.seqs e' x.source_id,
          h.at_key k x,
        );
  }

  get-CoversSeqs : (now : ℕ) (raw : Str) (s : Store V) → CoversSeqs s → CoversSeqs (get now raw s).0
  unfolding get
  get-CoversSeqs now raw s h = record { at_key = h.at_key }

  list-CoversSeqs :
      (now : ℕ) (raw : Str) (s : Store V) → CoversSeqs s → CoversSeqs (list now raw s).0
  unfolding list
  list-CoversSeqs now raw s h = record { at_key = h.at_key }

  delete_expired-CoversSeqs :
      (now : ℕ) (s : Store V) → IsMap s.entries → CoversSeqs s → CoversSeqs (delete_expired now s).0
  unfolding delete_expired
  delete_expired-CoversSeqs now s m h = record {
    at_key = λ k x p q. ground (arith, Dict.get-keep s.entries (entry_live now) k m, h.at_key k x);
  }

  -- A `Put` does not run out of numbers.
  abbrev pub HasRoom : Store V → Call V → Type 0
  HasRoom s (put_call now key value ttl source) = seq_of s.seqs source + 1 < 2 ^ 64
  HasRoom s _ = Unit

  -- No call lets an entry get ahead of its source's number, if a `Put` has a number left and the
  -- store is sound.
  pub perform-CoversSeqs :
      (s : Store V) (c : Call V) → HasRoom s c → IsSound s → CoversSeqs s → CoversSeqs (perform s c)
  unfolding perform
  perform-CoversSeqs s (put_call now key value ttl source) room sound h =
      put-CoversSeqs now key value ttl source s room h
  perform-CoversSeqs s (get_call now key) room sound h = get-CoversSeqs now key s h
  perform-CoversSeqs s (list_call now prefix) room sound h = list-CoversSeqs now prefix s h
  perform-CoversSeqs s (merge_call now now' e) room sound h = merge-CoversSeqs now now' e s h
  perform-CoversSeqs s (delete_expired_call now) room sound h =
      delete_expired-CoversSeqs now s sound.keys_once h

  -- A write of this node has a larger number than every entry that it holds from the same source,
  -- so it replaces each of them wherever the two meet, whatever the clock did in between. The
  -- source has a name and a number left, and no entry is ahead of its source's number.
  pub put-supersedes :
      (now : ℕ) (raw : Str) (value : V) (ttl : ℤ) (source : Str) (s : Store V) (e x : Entry V)
      (k : Str)
      → seq_of s.seqs source + 1 < 2 ^ 64
      → CoversSeqs s
      → is_empty source ≡ false
      → (put now raw value ttl source s).1 ≡ ok e
      → Dict.get s.entries k ≡ some x
      → x.source_id ≡ source
      → (x.seq < e.seq) × (should_accept x e ≡ true)
  unfolding put should_accept new_entry
  put-supersedes now raw value ttl source s e x k room h named p q same = (
    ground (arith, h.at_key k x, same),
    ground (arith, h.at_key k x, same, str_beq_iff x.source_id source),
  )
