-- ===== src/Tests/Management.antt =====
-- Runs of the management API, of the configuration, and of sessions and dialled connections.
use flux_mesh.Base.{
  trim_space, has_prefix, ℕ, true, none, some, [], ◌∷◌, pos, codes, str_beq, str_eq, sym, refl, ltb,
  nat_beq,
}
use flux_mesh.Base.Dict
use flux_mesh.Base.Dict.{survivor}
use flux_mesh.Model.Service.{ServiceConfig}
use flux_mesh.Model.Service.Minimal.{minimal}
use flux_mesh.Model.Service.Validate.{Parsers}
use flux_mesh.Registry.Services.{Json}
use flux_mesh.Registry.Services.Spec.{IsFaithful}
use flux_mesh.HttpApi.Services.{trim_prefix, ServiceRequest, handle_service_by_name}
use flux_mesh.HttpApi.Services.Refusals.{IsCallOf, IsTold, handle_service_by_name-IsTold}
use flux_mesh.Traffic.Floats.{Floats}
use flux_mesh.Traffic.Plan.{empty_plan}
use flux_mesh.Traffic.Sessions.{
  Session, Sessions, find_session, get_or_create_udp_session, reap_udp_sessions,
}
use flux_mesh.Traffic.Sessions.Reaped.{IsReaped, reap_udp_sessions-IsReaped}
use flux_mesh.Traffic.Sessions.Kept.{IsKnown, IsSafe, get_or_create_udp_session-IsSafe}
use flux_mesh.Tests.Etcd.{Cells, held, local_etcd, local_etcd-IsEtcd}

abbrev lenient : Parsers
lenient = record { is_ipv4 = λ s. true; split_host_port = λ s. none; sscan_int = λ s. none }

abbrev SomeConfig : Type 0
SomeConfig = ServiceConfig ℕ

abbrev plain : Json SomeConfig SomeConfig
plain = record { marshal = λ c. some c; unmarshal = λ c. some c }

plain-IsFaithful : IsFaithful plain
plain-IsFaithful cfg raw h = sym h

abbrev web : SomeConfig
web = minimal 0 (codes "web") (pos 8080) (codes "/") (codes "10.0.0.2:80")

abbrev update_request : ServiceRequest ℕ
update_request = record {
  method = codes "PUT";
  path = codes "/api/v1/services/web";
  query = λ name. codes "1";
  operator = [];
  body = some (some web);
}

abbrev nothing : Cells SomeConfig
nothing = []

handle_service_by_name-IsTold_example :
    IsTold lenient plain local_etcd
      (λ s. some (pos 1))
      (codes "now")
      held
      local_etcd-IsEtcd
      plain-IsFaithful
      (IsCallOf (codes "PUT") (codes "web"))
      nothing
      (handle_service_by_name lenient plain local_etcd
        (λ s. some (pos 1))
        (codes "now")
        update_request
        nothing)
unfolding str_beq trim_space trim_prefix has_prefix
handle_service_by_name-IsTold_example =
    handle_service_by_name-IsTold lenient plain local_etcd (λ s. some (pos 1)) (codes "now") held
      local_etcd-IsEtcd plain-IsFaithful update_request nothing refl

abbrev whole : Floats
whole = record { Float = ℕ; less = ltb; equal = nat_beq; of_nanoseconds = λ n. n; blend = λ a b. b }

abbrev old_session : Session
old_session = record { conn = 5; last_used = 0 }

abbrev one_session : Sessions
one_session = record { open_sessions = (codes "k", old_session) ∷ []; closed = [] }

abbrev late : ℕ
late = 30000000001

reap_udp_sessions-IsReaped_example :
    IsReaped whole
      (empty_plan whole)
      late
      one_session
      (reap_udp_sessions whole (empty_plan whole) late one_session)
reap_udp_sessions-IsReaped_example =
    reap_udp_sessions-IsReaped whole (empty_plan whole) late one_session (tt, tt)

-- Another packet has dialled meanwhile: its session is used.
abbrev with_other : Sessions → Sessions
with_other s = record s { open_sessions = (codes "k", record { conn = 7; last_used = 1 }) ∷ [] }

abbrev empty_sessions : Sessions
empty_sessions = record { open_sessions = []; closed = [] }

abbrev seven : Session
seven = record { conn = 7; last_used = 1 }

abbrev theirs : Sessions
theirs = record { open_sessions = (codes "k", seven) ∷ []; closed = [] }

get_or_create_udp_session-IsSafe_example :
    IsSafe (codes "k") 8 theirs (record theirs { closed = 8 ∷ [] }) seven
    × ((c : ℕ) → IsKnown c empty_sessions → IsKnown c empty_sessions)
unfolding get_or_create_udp_session find_session Dict.get str_beq
get_or_create_udp_session-IsSafe_example =
    get_or_create_udp_session-IsSafe with_other (codes "k") 1 8 (pos 30) empty_sessions
      (record theirs { closed = 8 ∷ [] }) seven refl refl
