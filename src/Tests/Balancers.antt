-- ===== src/Tests/Balancers.antt =====
-- Runs of internal/traffic/balancer.go on groups of two targets.
use flux_mesh.Base.{
  ℕ, ◌%◌, some, [], ◌∷◌, ◌++◌, map, take, drop, ltb, nat_beq, nat_beq_iff, pos, Str, str_eq, codes,
  ◌≡◌, arith,
}
use flux_mesh.Base.Dict
use flux_mesh.Model.Service.{BackendTarget, BackendGroup}
use flux_mesh.Traffic.Floats.{Floats, IsOrdered}
use flux_mesh.Traffic.Balancer.{PlanState, new_plan_state, counter_of}
use flux_mesh.Traffic.Balancer.Weighted.{drawing}
use flux_mesh.Traffic.Balancer.RoundRobin.{picks, ok_addr, picks_rotate}

-- Latencies in whole numbers.
abbrev whole : Floats
whole = record { Float = ℕ; less = ltb; equal = nat_beq; of_nanoseconds = λ n. n; blend = λ a b. b }

whole-IsOrdered : IsOrdered whole
whole-IsOrdered = record {
  asymm = λ a b h. ground arith;
  trans = λ a b c h k. ground arith;
  equal_iff = nat_beq_iff;
  connex = λ a b h k. ground arith;
}

abbrev target : Str → ℕ → BackendTarget
target addr weight = record { addr = addr; weight = pos weight; tags = [] }

abbrev two : BackendGroup
two = record { name = codes "g"; targets = target (codes "a:1") 1 ∷ target (codes "b:1") 3 ∷ [] }

abbrev fresh : PlanState whole
fresh = new_plan_state whole

picks_rotate_example :
    let start = counter_of whole fresh two.name % 2 in
    picks whole (drawing 0) two.name two 2 (some fresh)
    ≡ map (ok_addr whole) (drop start two.targets ++ take start two.targets)
unfolding Dict.get
picks_rotate_example = picks_rotate whole (drawing 0) two.name two fresh (omega arith) (omega arith)
