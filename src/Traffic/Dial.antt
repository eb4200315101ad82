-- ===== src/Traffic/Dial.antt =====
-- internal/traffic/server.go: a TCP connection to a listener, from its binding to the upstream it
-- is joined to (`handleTCPConn`). Dialling is a parameter; the copying of bytes is left out.
pub mod First
use flux_mesh.Base.{
  ℕ, Bool, true, false, not, Option, none, some, List, [], ◌∷◌, if◌then◌else◌, ◌==◌, Result, ok,
  err, ℤ, pos, pos_part, Str, codes, str_eq, trim_space, is_empty,
}
use flux_mesh.Model.Service.{ServiceTrafficPolicy}
use flux_mesh.Traffic.Floats.{Floats}
use flux_mesh.Traffic.Balancer.{PlanState, observe_latency}
use flux_mesh.Traffic.Match.{ListenerKey}
use flux_mesh.Traffic.Plan.{TcpBinding, Plan}
use flux_mesh.Traffic.Plan.Query.{tcp_binding, service_policy}
use flux_mesh.Traffic.Resolve.{ResolveError, resolve_destinations_for_attempts}
use flux_mesh.Traffic.Metrics.{apply_retry_budget, effective_max_attempts}
use flux_mesh.Traffic.Forward.{Url, Urls, is_some, contains_scheme}
use flux_mesh.Traffic.Serve.{observe_upstream}
use flux_mesh.Traffic.Serve.Handler.{Setting}

-- `none` is an error.
url_host : Urls → Option Url → Option Str
url_host urls none = none
url_host urls (some u) =
    if is_empty (trim_space u.host)
    then none
    else if is_some (urls.split_host_port u.host)
    then some u.host
    else none

udp_url : Option Url → Option Url
udp_url none = none
udp_url (some u) = if u.scheme == codes "udp" then some u else none

unfoldable pub tcp_dial_address : Urls → Str → Option Str
unfolding url_host contains_scheme
tcp_dial_address urls raw =
    let destination = trim_space raw in
    if is_empty destination
    then none
    else if contains_scheme destination
    then url_host urls (urls.parse destination)
    else if is_some (urls.split_host_port destination)
    then some destination
    else none

unfoldable pub udp_dial_address : Urls → Str → Option Str
unfolding url_host udp_url contains_scheme
udp_dial_address urls raw =
    let destination = trim_space raw in
    if is_empty destination
    then none
    else if contains_scheme destination
    then url_host urls (udp_url (urls.parse destination))
    else if is_some (urls.split_host_port destination)
    then some destination
    else none

-- The answer of net.DialTimeout for an address: how long it took, or none for an error.
abbrev pub Dialler : Type 0
Dialler = Str → Option ℕ

dialled : Dialler → Option Str → Option (Str × ℕ)
dialled dial none = none
dialled dial (some addr) = elim (dial addr) [ none ↦ none | some elapsed ↦ some (addr, elapsed) ]

-- The upstream of a candidate, if it can be reached, and how long that took.
unfoldable pub reach : Urls → Dialler → Str → Option (Str × ℕ)
unfolding dialled
reach urls dial candidate = dialled dial (tcp_dial_address urls candidate)

-- The loop over the candidates: the first that is reached, with its address.
unfoldable pub dial_candidates : Urls → Dialler → List Str → Option (Str × Str × ℕ)
unfolding reach
dial_candidates urls dial [] = none
dial_candidates urls dial (c ∷ cs) =
    let rest = dial_candidates urls dial cs in
    elim (reach urls dial c) [ none ↦ rest | some a ↦ some (c, a.0, a.1) ]

module _ (f : Floats) (env : Setting f) (plan : Plan f) (dial : Dialler) where
  -- A missing policy reads as the zero one, which allows one attempt.
  attempts_for : Option (ServiceTrafficPolicy f.Float) → ℤ
  attempts_for none = pos 1
  attempts_for (some p) =
      apply_retry_budget (effective_max_attempts p.retry.max_attempts)
        (env.budget_of p.retry.budget_ratio)

  joined : Option (PlanState f) → Option (Str × Str × ℕ) → Option (PlanState f) × Option Str
  joined state none = (state, none)
  joined state (some (c, addr, elapsed)) = (observe_upstream f c elapsed state, some addr)

  dial_resolved :
      Option (PlanState f) × Result ResolveError (List Str) → Option (PlanState f) × Option Str
  unfolding joined dial_candidates
  dial_resolved (state, err e) = (state, none)
  dial_resolved (state, ok candidates) = joined state (dial_candidates env.urls dial candidates)

  bound_conn : Option (PlanState f) → Option TcpBinding → Option (PlanState f) × Option Str
  unfolding dial_resolved attempts_for
  bound_conn state none = (state, none)
  bound_conn state (some b) = dial_resolved (
      resolve_destinations_for_attempts f env.registry env.draws env.net plan b.destination
        (pos_part (attempts_for (service_policy f plan b.service_name))) state)

  -- The state after it, and the upstream that the client is joined to.
  unfoldable pub handle_tcp_conn :
      ListenerKey → Option (PlanState f) → Option (PlanState f) × Option Str
  unfolding bound_conn
  handle_tcp_conn listener state = bound_conn state (tcp_binding f plan listener.addr listener.port)
