-- ===== src/Traffic/Balancer/Weighted.antt =====
-- `weightedRandomTarget` of internal/traffic/balancer.go: the distribution of its picks.
use flux_mesh.Base.{ℕ, ◌+◌, ◌%◌, List, [], ◌∷◌, ◌++◌, replicate, pos, pos_part, ◌≤ℤ◌, Str, All}
use flux_mesh.Model.Service.{BackendTarget}
use flux_mesh.Traffic.Balancer.{Draws}

-- The weights of targets that are at least 1, as natural numbers.
abbrev pub ArePositive : List BackendTarget → Type 0
ArePositive = All (λ t. pos 1 ≤ℤ t.weight)

abbrev pub weight_sum : List BackendTarget → ℕ
weight_sum [] = 0
weight_sum (t ∷ ts) = pos_part t.weight + weight_sum ts

-- Each address as often as its target weighs.
abbrev pub weighted_addrs : List BackendTarget → List Str
weighted_addrs [] = []
weighted_addrs (t ∷ ts) = replicate (pos_part t.weight) t.addr ++ weighted_addrs ts

-- The source of a call whose draw below `n` is the rest of `d` by `n`.
abbrev pub drawing : ℕ → Draws
drawing d = record { intn = λ n. d % n; shuffle = λ ts. ts }
