-- ===== src/SoftKv/Store/Convergence.antt =====
-- Replicas that merge the same writes agree: `Merge` of internal/softkv/store.go.
use mathlib.Core.List.{Memᴰ}
use flux_mesh.Base.{List, Str, str_eq, ◌≡◌, sym, ◌∙◌, All}
use flux_mesh.Base.Dict
use flux_mesh.SoftKv.Store.{Entry, new_store}
use flux_mesh.SoftKv.Store.Accept.{Compatible}
use flux_mesh.SoftKv.Store.Replica.{Delivery, IsTaken, merge_all, view, view-merge_all, writes}
use flux_mesh.SoftKv.Store.Settle.{settle-eq}

module _ {V : Type 0} where
  -- Two empty replicas to which the same writes are delivered, each in its own order, with its own
  -- clock and with any repetitions, hold the same value for every key, if the writes are
  -- compatible with one another and none was blank or expired when it came.
  pub merge_all-convergence :
      (ds es : List (Delivery V)) (k : Str)
      → All IsTaken ds
      → All IsTaken es
      → ((e : Entry V) → Memᴰ e (writes ds) → Memᴰ e (writes es))
      → ((e : Entry V) → Memᴰ e (writes es) → Memᴰ e (writes ds))
      → ((a b : Entry V) → Memᴰ a (writes ds) → Memᴰ b (writes ds) → Compatible a b)
      → view (merge_all ds new_store) k ≡ view (merge_all es new_store) k
  unfolding Dict.get
  merge_all-convergence ds es k h h' there back compatible =
      view-merge_all ds new_store k h
      ∙ settle-eq k (writes ds) (writes es) compatible there back
      ∙ sym (view-merge_all es new_store k h')
