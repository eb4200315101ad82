-- ===== src/Traffic/Serve/Direct.antt =====
-- The headers of a request that `forwardDirect` of internal/traffic/server.go sends.
use flux_mesh.Base.{Str, str_eq, ◌≡◌}
use flux_mesh.Base.Dict
use flux_mesh.Base.Dict.{IsMap}
use flux_mesh.Traffic.Floats.{Floats}
use flux_mesh.Traffic.Forward.{Url, Header}
use flux_mesh.Traffic.Forward.Clean.{forwarded_header, get-clean_proxy_headers}
use flux_mesh.Traffic.Serve.{Request, direct_request}

-- A request that is sent to a target, made of a header with each key once, names under the three
-- X-Forwarded keys the host of the target, the scheme of the client's request and its remote host
-- where that is known, whatever was there; it has no Forwarded and none of the nine headers that
-- the server lists as being for one hop, and all its other headers are as they were given.
pub get-direct_request :
    (f : Floats) (target : Url) (r : Request) (h : Header) (key : Str)
    → IsMap h
    → Dict.get (direct_request f target r h).header key
      ≡ forwarded_header (record r.origin { host = target.host }) key (Dict.get h key)
unfolding direct_request
get-direct_request f target r h key m =
    get-clean_proxy_headers (record r.origin { host = target.host }) h key m
