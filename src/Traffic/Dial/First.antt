-- ===== src/Traffic/Dial/First.antt =====
-- The candidate that a TCP connection is joined to in internal/traffic/server.go.
use flux_mesh.Base.{
  ℕ, none, some, List, [], ◌∷◌, ◌++◌, Str, ◌≡◌, ◌⊎◌, inl, inr, refl, ap, All, Option-cases,
}
use flux_mesh.Traffic.Forward.{Urls}
use flux_mesh.Traffic.Dial.{Dialler, reach, dial_candidates}

module _ (urls : Urls) (dial : Dialler) where
  abbrev pub IsUnreached : Str → Type 0
  IsUnreached c = reach urls dial c ≡ none

  -- The loop over the candidates joins the first that has an address which can be dialled, and
  -- none only if there is no such candidate.
  pub dial_candidates_first :
      (cs : List Str)
      → ((dial_candidates urls dial cs ≡ none) × All IsUnreached cs)
        ⊎ ((before : List Str) × (c : Str) × (after : List Str) × (a : Str × ℕ) × (cs
              ≡ before ++ c ∷ after)
            × All IsUnreached before
            × (reach urls dial c ≡ some a)
            × (dial_candidates urls dial cs ≡ some (c, a.0, a.1)))
  unfolding dial_candidates
  dial_candidates_first [] = inl (refl, tt)
  dial_candidates_first (c ∷ cs) = elim (Option-cases (reach urls dial c)) [
    | inr o ↦ inr ([], c, cs, o.0, refl, tt, o.1, rw (o.1, dial_candidates) refl)
    | inl o ↦ elim (dial_candidates_first cs) [
      | inl n ↦ inl (rw (o, dial_candidates) n.0, (o, n.1))
      | inr m ↦
          let (before, d, after, a, q, unreached, at, found) = m in
          inr (
            c ∷ before,
            d,
            after,
            a,
            ap (◌∷◌ c) q,
            (o, unreached),
            at,
            rw (o, dial_candidates) found,
          )
    ]
  ]
