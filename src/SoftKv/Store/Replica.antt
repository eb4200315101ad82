-- ===== src/SoftKv/Store/Replica.antt =====
-- A replica to which writes are delivered: `Merge` of internal/softkv/store.go, call after call,
-- and what the calls do to one key.
use flux_mesh.Base.{
  ℕ, false, Option, none, some, List, [], ◌∷◌, map, if◌then◌else◌, ◌==◌, Str, str_eq, str_beq_iff,
  trim_space, is_empty, ◌≡◌, refl, ap, ◌∙◌, arith, All,
}
use flux_mesh.Base.Dict
use flux_mesh.SoftKv.Store.{Entry, Store, expired, merge, should_accept, unix_milli}
use flux_mesh.SoftKv.Store.Accept.{payload}

-- One call of `Merge`: the two readings of this node's clock, and the entry.
pub record Delivery (V : Type 0) : Type 0 where
  pub now : ℕ
  pub now' : ℕ
  pub entry : Entry V

module _ {V : Type 0} where
  unfoldable pub merge_all : List (Delivery V) → Store V → Store V
  merge_all [] s = s
  merge_all (d ∷ ds) s = merge_all ds (merge d.now d.now' d.entry s).0

  -- What a store holds for a key, but for the time of receipt.
  abbrev pub strip : Option (Entry V) → Option (Entry V)
  strip none = none
  strip (some e) = some (payload e)

  abbrev pub view : Store V → Str → Option (Entry V)
  view s k = strip (Dict.get s.entries k)

  -- An entry that `Merge` looks at: its key is not blank, and it has not expired.
  abbrev pub IsTaken : Delivery V → Type 0
  IsTaken d = (is_empty (trim_space d.entry.key) ≡ false) × (expired d.entry d.now ≡ false)

  abbrev pub better : Option (Entry V) → Entry V → Option (Entry V)
  better none e = some e
  better (some c) e = some (if should_accept c e then e else c)

  view-merge :
      (d : Delivery V) (s : Store V) (k : Str)
      → IsTaken d
      → view (merge d.now d.now' d.entry s).0 k
        ≡ (if d.entry.key == k then better (view s k) (payload d.entry) else view s k)
  unfolding merge should_accept
  view-merge d s k h =
      let e = record d.entry { ingested_at = unix_milli d.now' } in
      ground (arith, Dict.get-put s.entries d.entry.key k e, str_beq_iff d.entry.key k)

  -- What the calls do to one key, on payloads.
  unfoldable pub settle : Str → Option (Entry V) → List (Entry V) → Option (Entry V)
  settle k o [] = o
  settle k o (e ∷ es) = settle k (if e.key == k then better o e else o) es

  abbrev pub writes : List (Delivery V) → List (Entry V)
  writes ds = map (λ d. payload d.entry) ds

  pub view-merge_all :
      (ds : List (Delivery V)) (s : Store V) (k : Str)
      → All IsTaken ds
      → view (merge_all ds s) k ≡ settle k (view s k) (writes ds)
  unfolding merge_all settle
  view-merge_all [] s k h = refl
  view-merge_all (d ∷ ds) s k h =
      let s' = (merge d.now d.now' d.entry s).0 in
      view-merge_all ds s' k h.1 ∙ ap (λ o. settle k o (writes ds)) (view-merge d s k h.0)
