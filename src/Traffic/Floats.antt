-- ===== src/Traffic/Floats.antt =====
-- The float64 values of internal/traffic: latencies in milliseconds and their moving average.
use flux_mesh.Base.{ℕ, Bool, true, false, ◌≡◌, ◌↔◌}

pub record Floats : Type 1 where
  pub Float : Type 0
  pub less : Float → Float → Bool
  pub equal : Float → Float → Bool
  pub of_nanoseconds : ℕ → Float  -- float64(ns) / 1e6
  pub blend : Float → Float → Float  -- prev*(1-alpha) + ms*alpha

-- What `<` and `==` satisfy on values that are not NaN. Latencies are none: they come from
-- positive durations.
pub record IsOrdered (f : Floats) : Type 0 where
  pub asymm : (a b : f.Float) → f.less a b ≡ true → f.less b a ≡ false
  pub trans : (a b c : f.Float) → f.less a b ≡ true → f.less b c ≡ true → f.less a c ≡ true
  pub equal_iff : (a b : f.Float) → (f.equal a b ≡ true) ↔ (a ≡ b)
  pub connex : (a b : f.Float) → f.less a b ≡ false → f.less b a ≡ false → a ≡ b
