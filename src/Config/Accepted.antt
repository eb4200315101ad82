-- ===== src/Config/Accepted.antt =====
-- What the validation of internal/config/config.go accepts.
use flux_mesh.Base.{
  false, none, List, [], ◌∷◌, pos, ◌≤ℤ◌, Str, codes, str_eq, str_beq_iff, trim_space,
  trim_space_twice, is_empty, ◌≡◌, ◌⊎◌, arith, All, Bool-cases, inl, inr,
}
use flux_mesh.Config.{Config, validate_config, split_csv, pieces, trimmed_pieces}

pub record IsRunnable (c : Config) : Type 0 where
  pub role : (c.role ≡ codes "server") ⊎ (c.role ≡ codes "agent")
  pub node_id : is_empty c.node_id ≡ false
  pub lease : pos 1 ≤ℤ c.lease_ttl_seconds
  pub state :
      c.role ≡ codes "server"
      → (c.cluster_state ≡ codes "new") ⊎ (c.cluster_state ≡ codes "existing")
  pub agent_seeds : c.role ≡ codes "agent" → is_empty c.seed_endpoints ≡ false
  pub joining_seeds :
      c.role ≡ codes "server"
      → c.cluster_state ≡ codes "existing"
      → is_empty c.seed_endpoints ≡ false

-- A configuration that is accepted has the role of a server or of an agent, a node id and a lease
-- of a second or more; a server starts a cluster or joins one; and an agent, as a server that
-- joins, has an endpoint to join.
pub validate_config-IsRunnable : (c : Config) → validate_config c ≡ none → IsRunnable c
unfolding validate_config
validate_config-IsRunnable c h =
    let server = str_beq_iff c.role (codes "server") in
    let agent = str_beq_iff c.role (codes "agent") in
    let new = str_beq_iff c.cluster_state (codes "new") in
    let existing = str_beq_iff c.cluster_state (codes "existing") in
    record {
      role = ground arith;
      node_id = ground arith;
      lease = ground arith;
      state = λ e. ground arith;
      agent_seeds = λ e. ground arith;
      joining_seeds = λ e k. ground arith;
    }

IsRunnable-validate_config : (c : Config) → IsRunnable c → validate_config c ≡ none
unfolding validate_config
IsRunnable-validate_config c r =
    let server = str_beq_iff c.role (codes "server") in
    let agent = str_beq_iff c.role (codes "agent") in
    let new = str_beq_iff c.cluster_state (codes "new") in
    let existing = str_beq_iff c.cluster_state (codes "existing") in
    ground (
      arith, r.role, r.node_id, r.lease, r.state, r.agent_seeds, r.joining_seeds, server, agent,
      new, existing,
    )

-- A configuration is accepted exactly if it has the role of a server or of an agent, a node id and
-- a lease of a second or more, a server starts a cluster or joins one, and an agent, as a server
-- that joins, has an endpoint to join.
pub validate_config-accepts :
    (c : Config)
    → (validate_config c ≡ none → IsRunnable c) × (IsRunnable c → validate_config c ≡ none)
validate_config-accepts c = (validate_config-IsRunnable c, IsRunnable-validate_config c)

-- The seeds that are read of a text have no space around them, and none is empty.
abbrev pub IsSeed : Str → Type 0
IsSeed s = (is_empty s ≡ false) × (trim_space s ≡ s)

trimmed_pieces-IsSeed : (ps : List Str) → All IsSeed (trimmed_pieces ps)
unfolding trimmed_pieces
trimmed_pieces-IsSeed [] = tt
trimmed_pieces-IsSeed (p ∷ ps) = elim (Bool-cases (is_empty (trim_space p))) [
  | inl y ↦ rw y (trimmed_pieces-IsSeed ps)
  | inr n ↦ rw n ((n, trim_space_twice p), trimmed_pieces-IsSeed ps)
]

pub split_csv-IsSeed : (raw : Str) → All IsSeed (split_csv raw)
unfolding split_csv
split_csv-IsSeed raw = trimmed_pieces-IsSeed ((pieces raw).0 ∷ (pieces raw).1)
