-- ===== src/Traffic/Serve/Handler/Hops.antt =====
-- The limit on hops in `serveRequest` of internal/traffic/server.go, which ends loops of relays.
use flux_mesh.Base.{
  ℕ, suc, Bool, true, false, not, ◌||◌, Option, none, some, List, [], ◌∷◌, Result, ok, err, ℤ, pos,
  ltb_ℤ, leb_ℤ, ◌≤ℤ◌, Str, str_eq, str_beq, to_lower, is_empty, ◌≡◌, ◌⊎◌, inl, inr, refl, ◌∙◌,
  arith, Bool-cases, All,
}
use flux_mesh.Base.Dict
use flux_mesh.Base.Dict.{Dict, IsMap, IsMap-put, get-put_self}
use flux_mesh.Traffic.Floats.{Floats}
use flux_mesh.Traffic.Balancer.{PlanState}
use flux_mesh.Traffic.Match.{ListenerKey, MatchResult}
use flux_mesh.Traffic.Plan.{Plan, itoa_ℤ}
use flux_mesh.Traffic.Plan.Query.{match_route, service_policy, is_relay_candidate}
use flux_mesh.Traffic.Resolve.{ResolveError}
use flux_mesh.Traffic.Metrics.{should_retry_status}
use flux_mesh.Traffic.Forward.{
  Url, Header, TargetError, Urls, target_for_destination, is_hop_by_hop,
}
use flux_mesh.Traffic.Forward.Clean.{get-clean_proxy_headers}
use flux_mesh.Traffic.Serve.{
  buffer_calls, buffer_status, acquire_retry_buffer_writer, Request, Outgoing, Upstreams,
  mark_request, next_hops, attempt_body, Serving, Served, attempt_target, serve_attempts,
  serve_direct, direct_target, direct_served, direct_request, hops_key, header_value,
  parse_incoming_hops, maybe_read_request_body_for_retry,
}
use flux_mesh.Traffic.Serve.Handler.{
  Setting, limit_of, attempts_of, serve_resolved, serve_buffered, serve_candidates, serve_hops,
  serve_matched, serve_request, path_of,
}

-- What is handed on says that it has made one hop more.
abbrev pub HasHops : ℤ → Outgoing → Type 0
HasHops hops o = Dict.get o.header hops_key ≡ some (itoa_ℤ (next_hops hops) ∷ [])

get-mark_request :
    (service destination resolved : Str) (hops : ℤ) (h : Header)
    → Dict.get (mark_request service destination resolved hops h) hops_key ≡ some (itoa_ℤ hops ∷ [])
unfolding mark_request
get-mark_request service destination resolved hops h = get-put_self _ hops_key (itoa_ℤ hops ∷ [])

IsMap-mark_request :
    (service destination resolved : Str) (hops : ℤ) (h : Header)
    → IsMap h
    → IsMap (mark_request service destination resolved hops h)
unfolding mark_request
IsMap-mark_request service destination resolved hops h m =
    IsMap-put _ _ _ (IsMap-put _ _ _ (IsMap-put _ _ _ (IsMap-put h _ _ m)))

module _ (f : Floats) (up : Upstreams) (hops : ℤ) where
  attempt_target-HasHops :
      (r : Request) (body : Option Str) (h : Header) (i : ℕ) (c : Str) (hit last : Bool)
      (s : Serving f) (continue : Header → Serving f → Served f)
      (found : Dict Str Url × Result TargetError Url)
      → Dict.get h hops_key ≡ some (itoa_ℤ (next_hops hops) ∷ [])
      → ((m : Header) (t : Serving f) → All (HasHops hops) (continue m t).sent)
      → All (HasHops hops) (attempt_target f up r body h i c hit last s continue found).sent
  unfolding attempt_target
  attempt_target-HasHops r body h i c hit last s continue (cache, err e) q rest = tt
  attempt_target-HasHops r body h i c hit last s continue (cache, ok target) q rest =
      let out : Outgoing = record {
        target = target;
        url = r.url;
        host = r.origin.host;
        header = h;
        body = attempt_body i r body;
      } in
      let status =
        buffer_status
          (buffer_calls (up.serve_http i out) (acquire_retry_buffer_writer (up.pooled i))) in
      elim (Bool-cases (not (should_retry_status status) || last)) [
        | inl y ↦ rw y (q, tt)
        | inr y ↦ rw y (q, rest h _)
      ]

  serve_attempts-HasHops :
      (plan : Plan f) (urls : Urls) (r : Request) (body : Option Str) (service destination : Str)
      (i : ℕ) (cs : List Str) (relay : Bool) (h : Header) (s : Serving f)
      → All
          (HasHops hops)
          (serve_attempts f plan urls up r body service destination hops i cs relay h s).sent
  unfolding serve_attempts
  serve_attempts-HasHops plan urls r body service destination i [] relay h s = tt
  serve_attempts-HasHops plan urls r body service destination i (c ∷ cs) relay h s =
      let hit = relay || is_relay_candidate f plan destination c in
      let next = λ (m : Header) (t : Serving f).
        serve_attempts f plan urls up r body service destination hops (suc i) cs hit m t in
      attempt_target-HasHops r body (mark_request service destination c (next_hops hops) h) i c hit
        (is_empty cs) s next (target_for_destination urls c s.proxies)
        (get-mark_request service destination c (next_hops hops) h)
        (λ m t. serve_attempts-HasHops plan urls r body service destination (suc i) cs hit m t)

  direct_request-HasHops :
      (target : Url) (r : Request) (service destination resolved : Str)
      → IsMap r.header
      → HasHops hops (
          direct_request f target r
            (mark_request service destination resolved (next_hops hops) r.header))
  unfolding direct_request str_beq is_hop_by_hop to_lower
  direct_request-HasHops target r service destination resolved m =
      get-clean_proxy_headers (record r.origin { host = target.host })
        (mark_request service destination resolved (next_hops hops) r.header) hops_key
        (IsMap-mark_request service destination resolved (next_hops hops) r.header m)
      ∙ get-mark_request service destination resolved (next_hops hops) r.header

  direct_served-HasHops :
      (s : Serving f) (resolved : Str) (relay : Bool) (out : Outgoing)
      (answer : Option (ℤ × Header × Bool))
      → HasHops hops out
      → All (HasHops hops) (direct_served f up s resolved relay out answer).sent
  unfolding direct_served
  direct_served-HasHops s resolved relay out none h = (h, tt)
  direct_served-HasHops s resolved relay out (some (status, header, true)) h = (h, tt)
  direct_served-HasHops s resolved relay out (some (status, header, false)) h = (h, tt)

  direct_target-HasHops :
      (r : Request) (service destination resolved : Str) (relay : Bool) (s : Serving f)
      (found : Dict Str Url × Result TargetError Url)
      → IsMap r.header
      → All
          (HasHops hops)
          (direct_target f up r service destination resolved hops relay s found).sent
  unfolding direct_target
  direct_target-HasHops r service destination resolved relay s (cache, err e) m = tt
  direct_target-HasHops r service destination resolved relay s (cache, ok target) m =
      direct_served-HasHops _ resolved relay _ _
        (direct_request-HasHops target r service destination resolved m)

  serve_direct-HasHops :
      (plan : Plan f) (urls : Urls) (r : Request) (service destination resolved : Str)
      (s : Serving f)
      → IsMap r.header
      → All (HasHops hops) (serve_direct f plan urls up r service destination resolved hops s).sent
  unfolding serve_direct
  serve_direct-HasHops plan urls r service destination resolved s m =
      direct_target-HasHops r service destination resolved
        (is_relay_candidate f plan destination resolved) s
        (target_for_destination urls resolved s.targets) m

module _ (f : Floats) (env : Setting f) (plan : Plan f) (up : Upstreams) (r : Request)
    (one : IsMap r.header) where
  -- What is handed on, if anything is: its hops are one more than a number that the limit allows.
  abbrev pub IsLimited : Str → Option ℤ → Served f → Type 0
  IsLimited service incoming v =
      (v.sent ≡ [])
      ⊎ ((hops : ℤ) × (incoming ≡ some hops)
          × (hops ≤ℤ limit_of f env plan up r (service_policy f plan service))
          × All (HasHops hops) v.sent)

  serve_resolved-HasHops :
      (service destination : Str) (hops : ℤ) (s : Serving f)
      (found : Option (PlanState f) × Result ResolveError Str)
      → All (HasHops hops) (serve_resolved f env plan up r service destination hops s found).sent
  unfolding serve_resolved
  serve_resolved-HasHops service destination hops s (state, err e) = tt
  serve_resolved-HasHops service destination hops s (state, ok resolved) =
      serve_direct-HasHops f up hops plan env.urls r service destination resolved
        (record s { state = state }) one

  serve_buffered-HasHops :
      (service destination : Str) (hops : ℤ) (cs : List Str) (s : Serving f)
      (body : Option (Option Str))
      → All (HasHops hops) (serve_buffered f env plan up r service destination hops cs s body).sent
  unfolding serve_buffered
  serve_buffered-HasHops service destination hops cs s none = tt
  serve_buffered-HasHops service destination hops cs s (some body) =
      serve_attempts-HasHops f up hops plan env.urls r body service destination 0 cs false r.header
        s

  serve_candidates-HasHops :
      (service destination : Str) (hops : ℤ) (s : Serving f)
      (found : Option (PlanState f) × Result ResolveError (List Str))
      → All (HasHops hops) (serve_candidates f env plan up r service destination hops s found).sent
  unfolding serve_candidates
  serve_candidates-HasHops service destination hops s (state, err e) = tt
  serve_candidates-HasHops service destination hops s (state, ok []) =
      serve_buffered-HasHops service destination hops [] _ (maybe_read_request_body_for_retry r)
  serve_candidates-HasHops service destination hops s (state, ok (c ∷ [])) =
      serve_direct-HasHops f up hops plan env.urls r service destination c
        (record s { state = state }) one
  serve_candidates-HasHops service destination hops s (state, ok (c ∷ d ∷ cs)) =
      serve_buffered-HasHops service destination hops (c ∷ d ∷ cs) _
        (maybe_read_request_body_for_retry r)

  serve_hops-IsLimited :
      (service destination : Str) (s : Serving f) (incoming : Option ℤ)
      → IsLimited service incoming (
          serve_hops f env plan up r service destination (service_policy f plan service) s incoming)
  unfolding serve_hops
  serve_hops-IsLimited service destination s none = inl refl
  serve_hops-IsLimited service destination s (some hops) =
      let policy = service_policy f plan service in
      let limit = limit_of f env plan up r policy in
      elim (Bool-cases (ltb_ℤ limit hops)) [
        | inl y ↦ rw y (inl refl)
        | inr y ↦
            let allowed : hops ≤ℤ limit = ground arith in
            rw y (
              inr (
                hops,
                refl,
                allowed,
                elim (Bool-cases (leb_ℤ (attempts_of f env plan up r policy) (pos 1))) [
                  | inl z ↦ rw z (serve_resolved-HasHops service destination hops s _)
                  | inr z ↦ rw z (serve_candidates-HasHops service destination hops s _)
                ],
              ))
      ]

  abbrev pub IsGuarded : Option MatchResult → Served f → Type 0
  IsGuarded found v =
      (v.sent ≡ [])
      ⊎ ((m : MatchResult) × (found ≡ some m)
          × IsLimited m.service_name (parse_incoming_hops up.atoi (header_value r.header hops_key))
              v)

  serve_matched-IsGuarded :
      (s : Serving f) (found : Option MatchResult)
      → IsGuarded found (serve_matched f env plan up r s found)
  unfolding serve_matched
  serve_matched-IsGuarded s none = inl refl
  serve_matched-IsGuarded s (some m) =
      inr (m, refl, serve_hops-IsLimited m.service_name m.destination s _)

  -- Whatever a request meets, if its header has each key once: nothing is handed to the transport
  -- or to a reverse proxy, or a route of the listener matches, the incoming header has a number of
  -- hops that is not above the limit of the matched service, and each request that is handed to
  -- them carries that number plus one in its place.
  pub serve_request-IsGuarded :
      (listener : ListenerKey) (fallback : ℕ) (s : Serving f)
      → IsGuarded
          (match_route f plan listener.addr listener.port r.origin.host (path_of f env plan up r))
          (serve_request f env plan up r listener fallback s).0
  unfolding serve_request
  serve_request-IsGuarded listener fallback s = serve_matched-IsGuarded s _
