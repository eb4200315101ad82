-- ===== src/Traffic/Refresh/Converge.antt =====
-- The listeners after a refresh of internal/traffic/server.go are those that the plan asks for.
use flux_mesh.Base.{Option, none, some, Str, str_eq, ◌≡◌}
use flux_mesh.Base.Dict
use flux_mesh.Base.Dict.{Dict, IsMap}
use flux_mesh.Traffic.Floats.{Floats}
use flux_mesh.Traffic.Plan.{Plan}
use flux_mesh.Traffic.Refresh.{
  Runtime, Binds, desired_http, desired_tcp, desired_udp, open_http, open_tcp, open_udp, keep_state,
}

module _ {A B : Type 0} where
  -- What runs under a key after it was looked at.
  abbrev pub started : (Str → A → Option B) → Str → Option A → Option B → Option B
  started start k none running = running
  started start k (some a) (some b) = some b
  started start k (some a) none = start k a

  -- What runs under a key of a listener that the plan asks for, or not.
  abbrev pub listening : (Str → A → Option B) → Str → Option A → Option B → Option B
  listening start k none running = none
  listening start k (some a) (some b) = some b
  listening start k (some a) none = start k a

module _ (f : Floats) where
  -- Each key has at most one listener of a kind.
  pub record AreMaps (s : Runtime f) : Type 0 where
    pub http : IsMap s.http
    pub tcp : IsMap s.tcp
    pub udp : IsMap s.udp

  -- The listeners that the plan asks for are registered, where they were before or, but for HTTP,
  -- could be bound, and no others are; the plan has the state of the plan before it.
  pub record IsConverged (binds : Binds) (plan : Plan f) (s s' : Runtime f) : Type 0 where
    pub planned : s'.plan ≡ some (keep_state f s.plan plan)
    pub maps : AreMaps s'
    pub http :
        (k : Str)
        → Dict.get s'.http k
          ≡ listening (open_http f binds) k (Dict.get (desired_http f plan) k) (Dict.get s.http k)
    pub tcp :
        (k : Str)
        → Dict.get s'.tcp k
          ≡ listening (open_tcp f binds) k (Dict.get (desired_tcp f plan) k) (Dict.get s.tcp k)
    pub udp :
        (k : Str)
        → Dict.get s'.udp k
          ≡ listening (open_udp f binds plan) k (Dict.get (desired_udp f plan) k) (Dict.get s.udp k)
