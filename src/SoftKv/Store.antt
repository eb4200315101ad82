-- ===== src/SoftKv/Store.antt =====
-- internal/softkv/store.go. An operation takes the clock readings that it makes (nanoseconds since
-- 1970), and returns the new store with its result. One call runs at a time, as under `mu`.
pub mod Accept
pub mod Replica
pub mod Settle
pub mod Convergence
pub mod Divergence
pub mod Access
pub mod Invariant
pub mod Counted
pub mod Sequence
pub mod Expiry
use flux_mesh.Base.{
  ℕ, ◌+◌, ◌/◌, ◌%◌, ◌^◌, Bool, true, false, not, ◌&&◌, ◌||◌, Option, none, some, List, [], ◌∷◌, map,
  ltb, nat_beq, if◌then◌else◌, ◌==◌, Result, ok, err, ℤ, pos, pos_part, ltb_ℤ, leb_ℤ, int_eq, Str,
  str_eq, str_lt, has_prefix, trim_space, is_empty, length, keep,
}
use flux_mesh.Base.Dict
use flux_mesh.Base.Dict.{Dict}
use flux_mesh.Base.Sorting.{sort_stable}

pub data PutError : Type 0 where
  invalid_key invalid_ttl : PutError

pub record Entry (V : Type 0) : Type 0 where
  pub key : Str
  pub value : V
  pub source_id : Str
  pub seq : ℕ  -- uint64
  pub updated_at : ℤ
  pub expires_at : ℤ
  pub ingested_at : ℤ

-- The atomic counters, each a uint64.
pub record Counters : Type 0 where
  pub put_total : ℕ
  pub put_errors : ℕ
  pub get_total : ℕ
  pub get_hits : ℕ
  pub get_misses : ℕ
  pub list_total : ℕ
  pub merge_total : ℕ
  pub merge_accepted : ℕ
  pub merge_rejected : ℕ
  pub delete_expired_runs : ℕ
  pub delete_expired_keys : ℕ

-- `entries` is the map `data`, `seqs` the map `seq`.
pub record Store (V : Type 0) : Type 0 where
  pub entries : Dict Str (Entry V)
  pub seqs : Dict Str ℕ
  pub counters : Counters

pub record StoreStats : Type 0 where
  pub totals : Counters
  pub live_entries : ℕ
  pub sources : ℕ
  pub snapshot_at_unix_milli : ℤ

abbrev pub u64 : ℕ → ℕ
u64 n = n % 2 ^ 64

abbrev pub unix_milli : ℕ → ℤ
unix_milli now = pos (now / 1000000)

abbrev pub zero_counters : Counters
zero_counters = record {
  put_total = 0;
  put_errors = 0;
  get_total = 0;
  get_hits = 0;
  get_misses = 0;
  list_total = 0;
  merge_total = 0;
  merge_accepted = 0;
  merge_rejected = 0;
  delete_expired_runs = 0;
  delete_expired_keys = 0;
}

-- A missing source reads as 0.
abbrev pub seq_of : Dict Str ℕ → Str → ℕ
seq_of m source = elim (Dict.get m source) [ none ↦ 0 | some n ↦ n ]

abbrev pub expired : {V : Type 0} → Entry V → ℕ → Bool
expired e now = leb_ℤ e.expires_at (unix_milli now)

module _ {V : Type 0} where
  abbrev pub new_store : Store V
  new_store = record { entries = []; seqs = []; counters = zero_counters }

  pub new_entry : ℕ → Str → V → ℤ → Str → ℕ → Entry V
  new_entry now key value ttl source seq = record {
    key = key;
    value = value;
    source_id = source;
    seq = seq;
    updated_at = unix_milli now;
    expires_at = unix_milli (now + pos_part ttl);
    ingested_at = unix_milli now;
  }

  count_put : Store V → Bool → Store V
  count_put s failed =
      let c = s.counters in
      record s {
        counters = record c {
          put_total = u64 (c.put_total + 1);
          put_errors = if failed then u64 (c.put_errors + 1) else c.put_errors;
        };
      }

  unfoldable pub put : ℕ → Str → V → ℤ → Str → Store V → Store V × Result PutError (Entry V)
  unfolding new_entry count_put
  put now raw value ttl source s =
      let key = trim_space raw in
      let seq = u64 (seq_of s.seqs source + 1) in
      let entry = new_entry now key value ttl source seq in
      let counted = count_put s false in
      if is_empty key
      then (count_put s true, err invalid_key)
      else if leb_ℤ ttl (pos 0)
      then (count_put s true, err invalid_ttl)
      else (
        record counted {
          entries = Dict.put s.entries key entry;
          seqs = Dict.put s.seqs source seq;
        },
        ok entry,
      )

  count_get : Store V → Bool → Store V
  count_get s hit =
      let c = s.counters in
      record s {
        counters = record c {
          get_total = u64 (c.get_total + 1);
          get_hits = if hit then u64 (c.get_hits + 1) else c.get_hits;
          get_misses = if hit then c.get_misses else u64 (c.get_misses + 1);
        };
      }

  abbrev live_at : ℕ → Option (Entry V) → Option (Entry V)
  live_at now none = none
  live_at now (some e) = if expired e now then none else some e

  abbrev found : Option (Entry V) → Bool
  found none = false
  found (some e) = true

  unfoldable pub get : ℕ → Str → Store V → Store V × Option (Entry V)
  unfolding count_get
  get now raw s =
      let key = trim_space raw in
      let result = if is_empty key then none else live_at now (Dict.get s.entries key) in
      (count_get s (found result), result)

  unfoldable pub listed : ℕ → Str → Entry V → Bool
  listed now prefix e = not (expired e now) && (is_empty prefix || has_prefix e.key prefix)

  abbrev pub key_lt : Entry V → Entry V → Bool
  key_lt a b = str_lt a.key b.key

  -- `range s.data` meets the entries in some order; the sort makes the order not matter.
  unfoldable pub list : ℕ → Str → Store V → Store V × List (Entry V)
  unfolding listed
  list now raw s =
      let c = s.counters in
      let items = keep (listed now (trim_space raw)) (map (λ p. p.1) s.entries) in
      (
        record s { counters = record c { list_total = u64 (c.list_total + 1) } },
        sort_stable key_lt items,
      )

  unfoldable pub should_accept : Entry V → Entry V → Bool
  should_accept current incoming =
      if current.source_id == incoming.source_id && not (nat_beq incoming.seq current.seq)
      then ltb current.seq incoming.seq
      else if not (incoming.updated_at == current.updated_at)
      then ltb_ℤ current.updated_at incoming.updated_at
      else if not (incoming.source_id == current.source_id)
      then str_lt current.source_id incoming.source_id
      else ltb current.seq incoming.seq

  count_merge : Store V → Bool → Store V
  count_merge s accepted =
      let c = s.counters in
      record s {
        counters = record c {
          merge_total = u64 (c.merge_total + 1);
          merge_accepted = if accepted then u64 (c.merge_accepted + 1) else c.merge_accepted;
          merge_rejected = if accepted then c.merge_rejected else u64 (c.merge_rejected + 1);
        };
      }

  -- `incoming.SourceID != "" && incoming.Seq > s.seq[incoming.SourceID]`
  raise_seq : Dict Str ℕ → Entry V → Dict Str ℕ
  raise_seq m e =
      if not (is_empty e.source_id) && ltb (seq_of m e.source_id) e.seq
      then Dict.put m e.source_id e.seq
      else m

  store_entry : Store V → Entry V → Store V
  unfolding raise_seq
  store_entry s e = record s { entries = Dict.put s.entries e.key e; seqs = raise_seq s.seqs e }

  abbrev accepts : Option (Entry V) → Entry V → Bool
  accepts none e = true
  accepts (some current) e = should_accept current e

  -- `now` is read for the expiry test, `now'` for `IngestedAt`.
  unfoldable pub merge : ℕ → ℕ → Entry V → Store V → Store V × Bool
  unfolding count_merge store_entry
  merge now now' incoming s =
      let e = record incoming { ingested_at = unix_milli now' } in
      if is_empty (trim_space incoming.key)
      then (count_merge s false, false)
      else if expired incoming now
      then (count_merge s false, false)
      else if accepts (Dict.get s.entries incoming.key) e
      then (store_entry (count_merge s true) e, true)
      else (count_merge s false, false)

  abbrev pub entry_live : ℕ → Str × Entry V → Bool
  entry_live now p = not (expired p.1 now)

  unfoldable pub delete_expired : ℕ → Store V → Store V × ℕ
  delete_expired now s =
      let c = s.counters in
      let deleted = length (keep (λ p. expired p.1 now) s.entries) in
      (
        record s {
          entries = keep (entry_live now) s.entries;
          counters = record c {
            delete_expired_runs = u64 (c.delete_expired_runs + 1);
            delete_expired_keys = u64 (c.delete_expired_keys + deleted);
          };
        },
        deleted,
      )

  unfoldable pub stats : ℕ → Store V → StoreStats
  stats now s = record {
    totals = s.counters;
    live_entries = length s.entries;
    sources = length s.seqs;
    snapshot_at_unix_milli = unix_milli now;
  }
