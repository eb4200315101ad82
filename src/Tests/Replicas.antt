-- ===== src/Tests/Replicas.antt =====
-- Runs of replicas that get the same writes: internal/softkv/store.go.
use mathlib.Core.List.{Memᴰ}
use flux_mesh.Base.{
  ℕ, some, List, [], ◌∷◌, pos, Str, trim_space, codes, ◌≡◌, ◌≢◌, refl, sym, arith, All, All-at,
}
use flux_mesh.SoftKv.Store.{Entry, Store, new_store, zero_counters}
use flux_mesh.SoftKv.Store.Accept.{payload, Compatible}
use flux_mesh.SoftKv.Store.Replica.{Delivery, merge_all, view}
use flux_mesh.SoftKv.Store.Convergence.{merge_all-convergence}
use flux_mesh.SoftKv.Store.Divergence.{Backward, merge_all_diverges}

abbrev key_a : Str
key_a = codes "a"

-- A write of "a" by a source, with its number and its time.
abbrev write_of : Str → ℕ → ℕ → Entry ℕ
write_of source seq at = record {
  key = key_a;
  value = seq;
  source_id = source;
  seq = seq;
  updated_at = pos at;
  expires_at = pos 1000;
  ingested_at = pos 0;
}

abbrev delivered : ℕ → Entry ℕ → Delivery ℕ
delivered now e = record { now = now; now' = now; entry = e }

abbrev first_write : Entry ℕ
first_write = write_of (codes "n1") 1 100

abbrev other_write : Entry ℕ
other_write = write_of (codes "n2") 1 90

abbrev backward_write : Entry ℕ
backward_write = write_of (codes "n1") 2 80

writes-swapped : {A : Type 0} {a b x : A} → Memᴰ x (a ∷ b ∷ []) → Memᴰ x (b ∷ a ∷ [])
writes-swapped (Memᴰ.head q) = Memᴰ.tail (Memᴰ.head q)
writes-swapped (Memᴰ.tail (Memᴰ.head q)) = Memᴰ.head q
writes-swapped (Memᴰ.tail (Memᴰ.tail m)) = elim m [ ]

-- Two writes of different sources, and each with itself, are compatible.
abbrev two_writes : List (Entry ℕ)
two_writes = payload first_write ∷ payload other_write ∷ []

sources_differ : codes "n1" ≢ codes "n2"
sources_differ e = ground arith

Compatible-pairs : All (λ a. All (Compatible a) two_writes) two_writes
Compatible-pairs = (
  (
    record { ordered = λ e h. ground arith; ordered' = λ e h. ground arith; same = λ e h. refl },
    (
      record {
        ordered = λ e h. absurd (sources_differ e);
        ordered' = λ e h. absurd (sources_differ e);
        same = λ e h. absurd (sources_differ e);
      },
      tt,
    ),
  ),
  (
    (
      record {
        ordered = λ e h. absurd (sources_differ (sym e));
        ordered' = λ e h. absurd (sources_differ (sym e));
        same = λ e h. absurd (sources_differ (sym e));
      },
      (
        record {
          ordered = λ e h. ground arith;
          ordered' = λ e h. ground arith;
          same = λ e h. refl;
        },
        tt,
      ),
    ),
    tt,
  ),
)

two_writes-Compatible : (a b : Entry ℕ) → Memᴰ a two_writes → Memᴰ b two_writes → Compatible a b
two_writes-Compatible a b m n =
    All-at (Compatible a) two_writes
      (All-at (λ x. All (Compatible x) two_writes) two_writes Compatible-pairs m) n

merge_all-convergence_example :
    view (merge_all (delivered 0 first_write ∷ delivered 5 other_write ∷ []) new_store) key_a
    ≡ view (merge_all (delivered 9 other_write ∷ delivered 9 first_write ∷ []) new_store) key_a
unfolding trim_space
merge_all-convergence_example =
    merge_all-convergence (delivered 0 first_write ∷ delivered 5 other_write ∷ [])
      (delivered 9 other_write ∷ delivered 9 first_write ∷ []) key_a
      ((refl, refl), ((refl, refl), tt)) ((refl, refl), ((refl, refl), tt))
      (λ e m. writes-swapped m) (λ e m. writes-swapped m) two_writes-Compatible

abbrev store_with : Entry ℕ → Store ℕ
store_with e = record { entries = (key_a, e) ∷ []; seqs = []; counters = zero_counters }

abbrev restarted : Entry ℕ
restarted = write_of (codes "n1") 1 500

Backward-writes : Backward first_write other_write backward_write
Backward-writes = record {
  same = refl;
  other = sources_differ;
  later = omega arith;
  earlier = refl;
  between = refl;
}

merge_all_diverges_example :
    (view
        (merge_all
          (delivered 0 first_write ∷ delivered 0 other_write ∷ delivered 0 backward_write ∷ [])
          new_store)
        key_a
      ≡ some (payload backward_write))
    × (view
          (merge_all
            (delivered 0 other_write ∷ delivered 0 backward_write ∷ delivered 0 first_write ∷ [])
            new_store)
          key_a
        ≡ some (payload first_write))
unfolding trim_space
merge_all_diverges_example =
    merge_all_diverges (delivered 0 first_write) (delivered 0 other_write)
      (delivered 0 backward_write) (delivered 0 first_write) (delivered 0 other_write)
      (delivered 0 backward_write) key_a ((refl, refl), ((refl, refl), ((refl, refl), tt)))
      ((refl, refl), ((refl, refl), ((refl, refl), tt))) (refl, refl, refl) (refl, refl, refl)
      Backward-writes
