-- ===== src/Config.antt =====
-- internal/config/config.go: the configuration of the process. The environment and fmt.Sscan are
-- parameters; the flags, which override what the environment gives, are input.
pub mod Accepted
use flux_mesh.Base.{
  ℕ, Bool, true, false, not, ◌&&◌, ◌||◌, Option, none, some, List, [], ◌∷◌, if◌then◌else◌, ◌==◌,
  nat_beq, ℤ, pos, leb_ℤ, Str, codes, str_eq, trim_space, is_empty,
}

pub record Config : Type 0 where
  pub role : Str
  pub cluster_state : Str
  pub node_id : Str
  pub ip : Str
  pub version : Str
  pub data_dir : Str
  pub admin_addr : Str
  pub client_listen_url : Str
  pub client_advertise_url : Str
  pub peer_listen_url : Str
  pub peer_advertise_url : Str
  pub seed_endpoints : List Str
  pub lease_ttl_seconds : ℤ

pub data SettingError : Type 0 where
  invalid_role invalid_cluster_state node_id_missing lease_ttl_not_positive : SettingError
  agent_without_seeds joining_without_seeds : SettingError

-- `none` is nil.
unfoldable pub validate_config : Config → Option SettingError
validate_config c =
    let server = c.role == codes "server" in
    let agent = c.role == codes "agent" in
    let joining = c.cluster_state == codes "existing" in
    if not server && not agent
    then some invalid_role
    else if server && not (c.cluster_state == codes "new") && not joining
    then some invalid_cluster_state
    else if is_empty c.node_id
    then some node_id_missing
    else if leb_ℤ c.lease_ttl_seconds (pos 0)
    then some lease_ttl_not_positive
    else if agent && is_empty c.seed_endpoints
    then some agent_without_seeds
    else if server && joining && is_empty c.seed_endpoints
    then some joining_without_seeds
    else none

-- `env` is os.Getenv.
unfoldable pub env_or : (Str → Str) → Str → Str → Str
env_or env key fallback =
    let v = env key in if is_empty (trim_space v) then fallback else trim_space v

scanned : ℤ → Option ℤ → ℤ
scanned fallback none = fallback
scanned fallback (some n) = n

unfoldable pub env_or_int : (Str → Str) → (Str → Option ℤ) → Str → ℤ → ℤ
unfolding scanned
env_or_int env sscan key fallback =
    let v = trim_space (env key) in if is_empty v then fallback else scanned fallback (sscan v)

-- strings.Split(raw, ","): the first piece, and the others.
pieces : Str → Str × List Str
pieces [] = ([], [])
pieces (c ∷ s) =
    let (piece, rest) = pieces s in if nat_beq c 44 then ([], piece ∷ rest) else (c ∷ piece, rest)

trimmed_pieces : List Str → List Str
trimmed_pieces [] = []
trimmed_pieces (p ∷ ps) =
    let rest = trimmed_pieces ps in
    if not (is_empty (trim_space p)) then trim_space p ∷ rest else rest

unfoldable pub split_csv : Str → List Str
unfolding pieces trimmed_pieces
split_csv raw = let (piece, rest) = pieces raw in trimmed_pieces (piece ∷ rest)
