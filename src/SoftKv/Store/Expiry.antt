-- ===== src/SoftKv/Store/Expiry.antt =====
-- `DeleteExpired` and `List` of internal/softkv/store.go.
use mathlib.Core.List.{Memᴰ}
use flux_mesh.Base.{
  ℕ, ◌+◌, ◌/◌, ◌≤◌, true, false, Option, none, some, [], ◌∷◌, map, ◌==◌, Str, str_eq, str_beq_iff,
  str_lt_asymm, str_lt_trans, str_lt_connex, trim_space, has_prefix, is_empty, length, keep, ◌≡◌,
  inl, inr, refl, arith, All, Bool-cases, ap, sym, ◌∙◌, mem-keep, keep-mem,
}
use flux_mesh.Base.Dict
use flux_mesh.Base.Dict.{Dict, IsMap}
use flux_mesh.Base.Sorting.{
  IsWeakOrder, IsSorted, sort_stable-IsSorted, mem-sort_stable, sort_stable-mem,
}
use flux_mesh.SoftKv.Store.{
  Entry, Store, expired, entry_live, get, list, listed, key_lt, delete_expired, live_at,
}
use flux_mesh.SoftKv.Store.Invariant.{IsSound}

-- What has expired stays expired.
leb_div : (a b : ℕ) → a ≤ b → a / 1000000 ≤ b / 1000000
leb_div a b h = omega arith

has_prefix_empty : (s p : Str) → is_empty p ≡ true → has_prefix s p ≡ true
unfolding has_prefix
has_prefix_empty s [] h = refl
has_prefix_empty s (c ∷ p) h = cc

module _ {V : Type 0} where
  expired_later :
      (e : Entry V) (now now' : ℕ) → now ≤ now' → expired e now ≡ true → expired e now' ≡ true
  expired_later e now now' h k = ground (arith, leb_div now now' h)

  live_survivor :
      (now now' : ℕ) (k : Str) (o : Option (Entry V))
      → now ≤ now'
      → live_at now' (Dict.survivor (entry_live now) k o) ≡ live_at now' o
  live_survivor now now' k none h = refl
  live_survivor now now' k (some e) h = elim (Bool-cases (expired e now)) [
    | inl p ↦ rw (p, expired_later e now now' h p) refl
    | inr p ↦ rw p refl
  ]

  -- From its own time on, a garbage collection is invisible to `Get`, if the store holds each key
  -- once.
  pub get-delete_expired :
      (now now' : ℕ) (raw : Str) (s : Store V)
      → IsMap s.entries
      → now ≤ now'
      → (get now' raw (delete_expired now s).0).1 ≡ (get now' raw s).1
  unfolding get delete_expired
  get-delete_expired now now' raw s m h = ground (
    arith,
    Dict.get-keep s.entries (entry_live now) (trim_space raw) m,
    live_survivor now now' (trim_space raw) (Dict.get s.entries (trim_space raw)) h,
  )

  length-split :
      (m : Dict Str (Entry V)) (now : ℕ)
      → length (keep (λ p. expired p.1 now) m) + length (keep (entry_live now) m) ≡ length m
  length-split [] now = refl
  length-split (p ∷ m) now = ground (arith, length-split m now)

  all_live :
      (m : Dict Str (Entry V)) (now : ℕ)
      → All (λ p. expired p.1 now ≡ false) (keep (entry_live now) m)
  all_live [] now = tt
  all_live (p ∷ m) now = elim (Bool-cases (expired p.1 now)) [
    | inl q ↦ rw q (all_live m now)
    | inr q ↦ rw q (q, all_live m now)
  ]

  -- A garbage collection leaves no entry that has expired, and reports how many it removed.
  pub delete_expired_lem :
      (now : ℕ) (s : Store V)
      → let (s', deleted) = delete_expired now s in
        All (λ p. expired p.1 now ≡ false) s'.entries
        × (deleted + length s'.entries ≡ length s.entries)
  unfolding delete_expired
  delete_expired_lem now s = (all_live s.entries now, length-split s.entries now)

  key_lt-IsWeakOrder : IsWeakOrder (key_lt {V = V})
  key_lt-IsWeakOrder = record {
    asymm = λ a b h. str_lt_asymm a.key b.key h;
    not_trans = λ a b c h k. ground (
      arith,
      str_lt_trans a.key b.key c.key,
      str_lt_connex a.key b.key,
      str_lt_asymm a.key b.key,
      str_lt_trans c.key a.key b.key,
    );
  }

  -- The entries that `List` returns are ordered by key.
  pub list-IsSorted : (now : ℕ) (raw : Str) (s : Store V) → IsSorted key_lt (list now raw s).1
  unfolding list
  list-IsSorted now raw s = sort_stable-IsSorted key_lt key_lt-IsWeakOrder _

  mem_of_get :
      (m : Dict Str (Entry V)) (k : Str) (e : Entry V)
      → Dict.get m k ≡ some e
      → Memᴰ e (map (λ p. p.1) m)
  unfolding Dict.get
  mem_of_get [] k e h = cc
  mem_of_get ((j, v) ∷ m) k e h = elim (Bool-cases (j == k)) [
    | inl p ↦ let q = rw p at h in Memᴰ.head (cc)
    | inr p ↦ Memᴰ.tail (mem_of_get m k e (rw p at h))
  ]

  get_of_mem :
      (m : Dict Str (Entry V)) (e : Entry V)
      → IsMap m
      → All (λ p. p.1.key ≡ p.0) m
      → Memᴰ e (map (λ p. p.1) m)
      → Dict.get m e.key ≡ some e
  unfolding Dict.get
  get_of_mem [] e h a n = elim n [ ]
  get_of_mem ((j, v) ∷ m) e h a (Memᴰ.head q) =
      let same : (j == e.key) ≡ true =
        (str_beq_iff j e.key).1 (sym (ap (λ (y : Entry V). y.key) q ∙ a.0)) in
      rw same (ap some (sym q))
  get_of_mem ((j, v) ∷ m) e h a (Memᴰ.tail n) = elim (Bool-cases (j == e.key)) [
    | inl p ↦
        let g = get_of_mem m e h.1 a.1 n in
        let absent = Dict.get-Absent m j h.0 in absurd (cc (g, absent, (str_beq_iff j e.key).0 p))
    | inr p ↦ rw p (get_of_mem m e h.1 a.1 n)
  ]

  -- An entry that `Get` finds, and whose own key has the prefix, is in what `List` returns.
  pub mem-list :
      (now : ℕ) (raw key : Str) (s : Store V) (e : Entry V)
      → (get now key s).1 ≡ some e
      → has_prefix e.key (trim_space raw) ≡ true
      → Memᴰ e (list now raw s).1
  unfolding list get
  mem-list now raw key s e h p =
      let at : Dict.get s.entries (trim_space key) ≡ some e = ground arith in
      mem-sort_stable key_lt _ (
        mem-keep (listed now (trim_space raw)) _ (ground arith)
          (mem_of_get s.entries (trim_space key) e at))

  -- Each entry that `List` returns of a sound store is held under its key, has not expired and
  -- has the prefix.
  pub list-mem :
      (now : ℕ) (raw : Str) (s : Store V) (e : Entry V)
      → IsSound s
      → Memᴰ e (list now raw s).1
      → (Dict.get s.entries e.key ≡ some e)
        × (expired e now ≡ false)
        × (has_prefix e.key (trim_space raw) ≡ true)
  unfolding list
  list-mem now raw s e sound m =
      let (n, h) = keep-mem (listed now (trim_space raw)) _ (sort_stable-mem key_lt _ m) in
      (
        get_of_mem s.entries e sound.keys_once sound.keyed n,
        ground arith,
        ground (arith, has_prefix_empty e.key (trim_space raw)),
      )
