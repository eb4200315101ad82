-- ===== src/Traffic/Forward/Clean.antt =====
-- What the headers of a forwarded request keep.
use flux_mesh.Base.{
  not, ◌||◌, Option, none, some, List, [], ◌∷◌, if◌then◌else◌, ◌==◌, ◌||◌, Str, codes, str_eq,
  str_beq, str_beq_iff, ◌≡◌, refl, ap, sym, ◌∙◌, arith, Bool-cases, inl, inr, is_empty, trim_space,
}
use flux_mesh.Base.Dict
use flux_mesh.Base.Dict.{Dict, IsMap, get-keep, get-put, get-remove, survivor}
use flux_mesh.Traffic.Forward.{
  Header, Origin, is_hop_by_hop, drop_hop_by_hop, set_forwarded_for, clean_proxy_headers,
}

-- The value of X-Forwarded-For: the remote host, if it is known.
abbrev pub remote_value : Option Str → Option (List Str)
remote_value none = none
remote_value (some h) = if is_empty (trim_space h) then none else some (h ∷ [])

-- What a request that is forwarded has under a key.
abbrev pub forwarded_header : Origin → Str → Option (List Str) → Option (List Str)
forwarded_header origin key old =
    if codes "X-Forwarded-For" == key
    then remote_value origin.remote_host
    else if codes "X-Forwarded-Proto" == key
    then some ((if origin.tls then codes "https" else codes "http") ∷ [])
    else if codes "X-Forwarded-Host" == key
    then some (origin.host ∷ [])
    else if codes "Forwarded" == key || is_hop_by_hop key
    then none
    else old

get-drop_hop_by_hop :
    (h : Header) (key : Str)
    → IsMap h
    → Dict.get (drop_hop_by_hop h) key ≡ (if is_hop_by_hop key then none else Dict.get h key)
unfolding drop_hop_by_hop
get-drop_hop_by_hop h key m = ground (arith, get-keep h (λ p. not (is_hop_by_hop p.0)) key m)

-- Four keys are deleted and two of them are set again.
get-replaced :
    (d : Header) (w x y z key : Str) (u v : List Str)
    → let h1 = Dict.remove d w in
      let h2 = Dict.remove h1 x in
      let h3 = Dict.remove h2 y in
      let h4 = Dict.remove h3 z in
      Dict.get (Dict.put (Dict.put h4 y u) z v) key ≡ (
        if z == key
        then some v
        else if y == key
        then some u
        else if x == key || (w == key)
        then none
        else Dict.get d key)
get-replaced d w x y z key u v =
    let h1 = Dict.remove d w in
    let h2 = Dict.remove h1 x in
    let h3 = Dict.remove h2 y in
    let h4 = Dict.remove h3 z in
    ground (
      arith,
      get-put (Dict.put h4 y u) z key v,
      get-put h4 y key u,
      get-remove h3 z key,
      get-remove h2 y key,
      get-remove h1 x key,
      get-remove d w key,
    )

without_remote :
    (h : Header) (key : Str)
    → Dict.get h (codes "X-Forwarded-For") ≡ none
    → Dict.get h key ≡ (if codes "X-Forwarded-For" == key then none else Dict.get h key)
without_remote h key n = elim (Bool-cases (codes "X-Forwarded-For" == key)) [
  | inl y ↦
      let e = (str_beq_iff (codes "X-Forwarded-For") key).0 y in rw y (ap (Dict.get h) (sym e) ∙ n)
  | inr y ↦ rw y refl
]

get-set_forwarded_for :
    (remote : Option Str) (h : Header) (key : Str)
    → Dict.get h (codes "X-Forwarded-For") ≡ none
    → Dict.get (set_forwarded_for remote h) key
      ≡ (if codes "X-Forwarded-For" == key then remote_value remote else Dict.get h key)
unfolding set_forwarded_for
get-set_forwarded_for none h key n = without_remote h key n
get-set_forwarded_for (some host) h key n = elim (Bool-cases (is_empty (trim_space host))) [
  | inl b ↦ rw b (without_remote h key n)
  | inr b ↦ rw b (get-put h (codes "X-Forwarded-For") key (host ∷ []))
]

clean_but_remote :
    (h : Header) (key : Str) (remote host proto : Option (List Str)) (g : Option (List Str))
    → IsMap h
    → g ≡ (
        if codes "X-Forwarded-Proto" == key
        then proto
        else if codes "X-Forwarded-Host" == key
        then host
        else if codes "X-Forwarded-For" == key || (codes "Forwarded" == key)
        then none
        else Dict.get (drop_hop_by_hop h) key)
    → (if codes "X-Forwarded-For" == key then remote else g) ≡ (
        if codes "X-Forwarded-For" == key
        then remote
        else if codes "X-Forwarded-Proto" == key
        then proto
        else if codes "X-Forwarded-Host" == key
        then host
        else if codes "Forwarded" == key || is_hop_by_hop key
        then none
        else Dict.get h key)
clean_but_remote h key remote host proto g m e = ground (arith, get-drop_hop_by_hop h key m)

-- A header that is cleaned names, under the three X-Forwarded keys, the host, the scheme and the
-- remote host, where that is known, of the request it is cleaned for; it has no Forwarded and none
-- of the nine listed headers that are for one hop, and its other keys are as they were.
pub get-clean_proxy_headers :
    (origin : Origin) (h : Header) (key : Str)
    → IsMap h
    → Dict.get (clean_proxy_headers origin h) key ≡ forwarded_header origin key (Dict.get h key)
unfolding clean_proxy_headers str_beq
get-clean_proxy_headers origin h key m =
    let proto = if origin.tls then codes "https" else codes "http" in
    let d = drop_hop_by_hop h in
    let at = λ (k : Str).
      get-replaced d (codes "Forwarded") (codes "X-Forwarded-For") (codes "X-Forwarded-Host")
        (codes "X-Forwarded-Proto") k (origin.host ∷ []) (proto ∷ []) in
    get-set_forwarded_for origin.remote_host _ key (at (codes "X-Forwarded-For"))
    ∙ clean_but_remote h key (remote_value origin.remote_host) (some (origin.host ∷ []))
        (some (proto ∷ [])) _ m (at key)
