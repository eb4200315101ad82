-- ===== src/Startup.antt =====
-- internal/app/app.go: the start of etcd and of its client. The embedded server and the calls of
-- the client are parameters.
pub mod Join
pub mod Peers
pub mod Lease
pub mod Accounted
use flux_mesh.Base.{
  ℕ, Bool, true, false, Option, none, some, [], ◌∷◌, ◌++◌, if◌then◌else◌, ◌==◌, Result, ok, err,
  Str, codes, str_eq,
}
use flux_mesh.Config.{Config}
use flux_mesh.Reconcile.{Tasks, add}
use flux_mesh.Startup.Join.{
  JoinResult, JoinError, call_failed, Members, join_existing_cluster, rollback_member,
}

-- What of the application the start uses: whether the embedded server runs and a client is
-- there, and the tasks of the reconciler.
pub record App (S : Type 0) : Type 0 where
  pub cluster : S
  pub tasks : Tasks
  pub embedded : Bool
  pub connected : Bool

module _ {S E : Type 0} (calls : Members S E) (start_embedded : Config → Str → S → S × Option E)
    (close_embedded : S → S) where
  undone : ℕ → JoinResult → App S → S × Option E → App S
  undone now j a (s, none) = record a { cluster = s }
  undone now j a (s, some e) = record a {
    cluster = s;
    tasks = add now j.member_id j.seed_endpoints a.tasks;
  }

  -- The member that has joined is removed again, or that is left to the reconciler.
  unfoldable pub undo_joined : ℕ → Option JoinResult → App S → App S
  unfolding undone
  undo_joined now none a = a
  undo_joined now (some j) a =
      undone now j a (rollback_member calls j.seed_endpoints j.member_id a.cluster)

  client_made : ℕ → Option JoinResult → App S → S × Option E → App S × Option (JoinError E)
  unfolding undo_joined
  client_made now joined a (s, none) = (record a { cluster = s; connected = true }, none)
  client_made now joined a (s, some e) =
      let u = undo_joined now joined (record a { cluster = s }) in
      (record u { cluster = close_embedded u.cluster; embedded = false }, some (call_failed e))

  embedded_started :
      Config → ℕ → Option JoinResult → App S → S × Option E → App S × Option (JoinError E)
  unfolding client_made
  embedded_started cfg now joined a (s, some e) =
      (undo_joined now joined (record a { cluster = s }), some (call_failed e))
  embedded_started cfg now joined a (s, none) =
      client_made now joined (record a { cluster = s; embedded = true })
        (calls.connect (cfg.client_advertise_url ∷ []) s)

  start_server : Config → ℕ → Option JoinResult → Str → App S → App S × Option (JoinError E)
  unfolding embedded_started
  start_server cfg now joined initial a =
      embedded_started cfg now joined a (start_embedded cfg initial a.cluster)

  start_joined :
      Config → ℕ → App S → S × Result (JoinError E) JoinResult → App S × Option (JoinError E)
  unfolding start_server
  start_joined cfg now a (s, err e) = (record a { cluster = s }, some e)
  start_joined cfg now a (s, ok j) =
      start_server cfg now (some j) j.initial_cluster (record a { cluster = s })

  agent_connected : App S → S × Option E → App S × Option (JoinError E)
  agent_connected a (s, some e) = (record a { cluster = s }, some (call_failed e))
  agent_connected a (s, none) = (record a { cluster = s; connected = true }, none)

  -- `now` is the time at which a task is added.
  unfoldable pub start_etcd_and_client : Config → ℕ → App S → App S × Option (JoinError E)
  unfolding start_joined agent_connected
  start_etcd_and_client cfg now a =
      if cfg.role == codes "agent"
      then agent_connected a (calls.connect cfg.seed_endpoints a.cluster)
      else if cfg.cluster_state == codes "existing"
      then start_joined cfg now a (
          join_existing_cluster calls cfg.seed_endpoints cfg.node_id cfg.peer_advertise_url
            a.cluster)
      else start_server cfg now none (cfg.node_id ++ codes "=" ++ cfg.peer_advertise_url) a
