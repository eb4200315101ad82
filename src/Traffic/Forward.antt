-- ===== src/Traffic/Forward.antt =====
-- internal/traffic/server.go: the address and the headers of a request that goes upstream, and the
-- caches of upstream addresses. url.Parse and net.SplitHostPort are parameters. A header is a map
-- from its key, as net/http keeps it, to its values.
pub mod Clean
use flux_mesh.Base.{
  ℕ, Bool, true, false, not, ◌&&◌, ◌||◌, Option, none, some, List, [], ◌∷◌, ◌++◌, any, keep,
  if◌then◌else◌, ◌==◌, Result, ok, err, Str, codes, str_eq, trim_space, to_lower, has_prefix,
  is_empty,
}
use flux_mesh.Base.Dict
use flux_mesh.Base.Dict.{Dict}

-- The parts of a url.URL that are read or replaced; `rest` is the query and all else.
pub record Url : Type 0 where
  pub scheme : Str
  pub host : Str
  pub path : Str
  pub raw_path : Str
  pub rest : Str

abbrev pub Header : Type 0
Header = Dict Str (List Str)

pub data TargetError : Type 0 where
  target_empty target_form target_scheme target_host target_url : TargetError

-- url.Parse, and net.SplitHostPort.
pub record Urls : Type 0 where
  pub parse : Str → Option Url
  pub split_host_port : Str → Option (Str × Str)

-- strings.Contains(s, "://")
unfoldable pub contains_scheme : Str → Bool
contains_scheme [] = false
contains_scheme (c ∷ s) =
    let rest = contains_scheme s in if has_prefix (c ∷ s) (codes "://") then true else rest

checked_url : Option Url → Result TargetError Url
checked_url none = err target_url
checked_url (some u) =
    if not (u.scheme == codes "http") && not (u.scheme == codes "https")
    then err target_scheme
    else if is_empty (trim_space u.host)
    then err target_host
    else ok u

plain_url : Option Url → Result TargetError Url
plain_url none = err target_url
plain_url (some u) = ok u

abbrev pub is_some : {A : Type 0} → Option A → Bool
is_some none = false
is_some (some a) = true

unfoldable pub parse_destination : Urls → Str → Result TargetError Url
unfolding checked_url plain_url contains_scheme
parse_destination urls destination =
    if contains_scheme destination
    then checked_url (urls.parse destination)
    else if not (is_some (urls.split_host_port destination))
    then err target_form
    else plain_url (urls.parse (codes "http://" ++ destination))

fill_cache : Str → Dict Str Url → Result TargetError Url → Dict Str Url × Result TargetError Url
fill_cache key cache (err e) = (cache, err e)
fill_cache key cache (ok u) = elim (Dict.get cache key) [
  | some existing ↦ (cache, ok existing)
  | none ↦ (Dict.put cache key u, ok u)
]

-- `targetForDestination`, and `proxyForDestination`, whose proxy is known by its target.
unfoldable pub target_for_destination :
    Urls → Str → Dict Str Url → Dict Str Url × Result TargetError Url
unfolding fill_cache
target_for_destination urls raw cache =
    let destination = trim_space raw in
    if is_empty destination then (cache, err target_empty) else elim (Dict.get cache destination) [
      | some u ↦ (cache, ok u)
      | none ↦ fill_cache destination cache (parse_destination urls destination)
    ]

-- strings.HasSuffix(s, "/")
ends_in_slash : Str → Bool
ends_in_slash [] = false
ends_in_slash (c ∷ []) = c ∷ [] == codes "/"
ends_in_slash (c ∷ d ∷ s) = ends_in_slash (d ∷ s)

after_first : Str → Str
after_first [] = []
after_first (c ∷ s) = s

unfoldable pub join_url_path : Str → Str → Str
unfolding ends_in_slash after_first
join_url_path base path =
    if is_empty base || base == codes "/"
    then (if is_empty path then codes "/" else path)
    else if is_empty path
    then base
    else if ends_in_slash base && has_prefix path (codes "/")
    then base ++ after_first path
    else if not (ends_in_slash base) && not (has_prefix path (codes "/"))
    then base ++ codes "/" ++ path
    else base ++ path

unfoldable pub rewrite_target_url : Url → Url → Url
unfolding join_url_path
rewrite_target_url target url = record url {
  scheme = target.scheme;
  host = target.host;
  path = join_url_path target.path url.path;
  raw_path = [];
}

abbrev pub hop_by_hop_headers : List Str
hop_by_hop_headers =
    codes "connection"
    ∷ codes "proxy-connection"
    ∷ codes "keep-alive"
    ∷ codes "proxy-authenticate"
    ∷ codes "proxy-authorization"
    ∷ codes "te"
    ∷ codes "trailer"
    ∷ codes "transfer-encoding"
    ∷ codes "upgrade"
    ∷ []

unfoldable pub is_hop_by_hop : Str → Bool
is_hop_by_hop key = any (λ h. h == to_lower key) hop_by_hop_headers

unfoldable pub drop_hop_by_hop : Header → Header
unfolding is_hop_by_hop
drop_hop_by_hop = keep (λ p. not (is_hop_by_hop p.0))

-- What of a request `cleanProxyHeaders` reads: its host, whether it came over TLS, and the host
-- of its remote address if that has one.
pub record Origin : Type 0 where
  pub host : Str
  pub tls : Bool
  pub remote_host : Option Str

set_forwarded_for : Option Str → Header → Header
set_forwarded_for none h = h
set_forwarded_for (some host) h =
    if is_empty (trim_space host) then h else Dict.put h (codes "X-Forwarded-For") (host ∷ [])

unfoldable pub clean_proxy_headers : Origin → Header → Header
unfolding drop_hop_by_hop set_forwarded_for
clean_proxy_headers origin header =
    let h1 = Dict.remove (drop_hop_by_hop header) (codes "Forwarded") in
    let h2 = Dict.remove h1 (codes "X-Forwarded-For") in
    let h3 = Dict.remove h2 (codes "X-Forwarded-Host") in
    let h4 = Dict.remove h3 (codes "X-Forwarded-Proto") in
    let h5 = Dict.put h4 (codes "X-Forwarded-Host") (origin.host ∷ []) in
    let h6 =
      Dict.put h5 (codes "X-Forwarded-Proto")
        ((if origin.tls then codes "https" else codes "http") ∷ []) in
    set_forwarded_for origin.remote_host h6

unfoldable pub copy_response_headers : Header → Header → Header
unfolding is_hop_by_hop
copy_response_headers dst [] = dst
copy_response_headers dst ((k, vs) ∷ src) =
    let kept = copy_response_headers (Dict.put dst k vs) src in
    let dropped = copy_response_headers dst src in if is_hop_by_hop k then dropped else kept
