-- ===== src/Tests/Nodes.antt =====
-- Runs of internal/softkv/memberlist.go and internal/reconcile/member_reconcile.go.
use mathlib.Core.List.{Memᴰ}
use flux_mesh.Base.{
  ℕ, Bool, true, false, Option, none, some, List, [], ◌∷◌, ◌++◌, replicate, map, str_eq, nat_eq,
  pos, Str, codes, trim_space, has_prefix, ◌≡◌, ◌⊎◌, refl, sym, ◌∙◌, arith,
}
use flux_mesh.Base.Dict
use flux_mesh.Base.Sorting.{sort_stable}
use flux_mesh.SoftKv.Store.{Entry, Store, new_store, zero_counters, list}
use flux_mesh.SoftKv.Store.Accept.{payload, Compatible}
use flux_mesh.SoftKv.Store.Replica.{view}
use flux_mesh.SoftKv.Store.Settle.{Covers}
use flux_mesh.SoftKv.Bus.{Event, event_put}
use flux_mesh.SoftKv.Gossip.{Message, plain_entry, local_state, merge_remote_state}
use flux_mesh.SoftKv.Gossip.Exchange.{deliveries, merge_remote_state-local_state}
use flux_mesh.SoftKv.Gossip.Retry.{
  join_retry_min_interval, join_retry_max_interval, retry_interval, retry_interval_outcome,
}
use flux_mesh.Tests.Codec.{text_codec, same_value, text_codec-IsFaithful, value_of}
use flux_mesh.Reconcile.{Task, Tasks}

retry_interval_outcome_example :
    (retry_interval (pos 5000000000) (replicate 4 false) ≡ join_retry_max_interval)
    × (retry_interval (pos 5000000000) ((false ∷ []) ++ true ∷ []) ≡ join_retry_min_interval)
retry_interval_outcome_example =
    retry_interval_outcome 5000000000 0 (false ∷ []) (omega arith) (omega arith)

-- Every text is a host; a host and a port are joined by a colon.
abbrev split_text : Str → Option (Str × Str)
split_text s = none

abbrev join_text : Str → Str → Str
join_text host port = host ++ 58 ∷ port

abbrev endpoints : List Str
endpoints = codes "http://10.0.0.1:2379" ∷ []

abbrev due_task : Task
due_task = record { member_id = 7; endpoints = endpoints; tries = 0; next_at = 5 }

abbrev refused : List Str → ℕ → Bool
refused es id = false

abbrev due_tasks : Tasks
due_tasks = (7, due_task) ∷ []

-- A codec of messages and states that knows one message and one state.
abbrev one_entry : Entry ℕ
one_entry = record {
  key = codes "a";
  value = 7;
  source_id = codes "n1";
  seq = 1;
  updated_at = pos 1;
  expires_at = pos 6;
  ingested_at = pos 1;
}

abbrev put_event : Event ℕ
put_event = record { kind = event_put; entry = one_entry }

abbrev one_message : Message ℕ
one_message = record { sender = codes "n1"; event = put_event }

abbrev full_store : Store ℕ
full_store = record { entries = (codes "a", one_entry) ∷ []; seqs = []; counters = zero_counters }

-- The writes that may be about: the one entry.
abbrev IsOne : Entry ℕ → Type 0
IsOne e = payload one_entry ≡ e

IsOne-Compatible : (a b : Entry ℕ) → IsOne a → IsOne b → Compatible a b
IsOne-Compatible a b p q = record {
  ordered = λ e h. ground (arith, p, q);
  ordered' = λ e h. ground (arith, p, q);
  same = λ e h. sym p ∙ q;
}

abbrev steady : ℕ → ℕ × ℕ
steady i = (2000000, 2000000)

merge_remote_state-local_state_example :
    ((e : Entry ℕ)
      → Memᴰ e (list 2000000 [] full_store).1
      → Covers
          (view
            (merge_remote_state text_codec steady
              (value_of (local_state text_codec 2000000 full_store).1)
              new_store)
            e.key)
          (payload (plain_entry same_value e)))
    × ((k : Str) (w : Entry ℕ)
        → view
            (merge_remote_state text_codec steady
              (value_of (local_state text_codec 2000000 full_store).1)
              new_store)
            k
          ≡ some w
        → (view {V = ℕ} new_store k ≡ some w)
          ⊎ (Memᴰ w (map payload (map (plain_entry same_value) (list 2000000 [] full_store).1))
              × (w.key ≡ k)))
unfolding list trim_space local_state deliveries sort_stable Dict.get has_prefix
merge_remote_state-local_state_example =
    merge_remote_state-local_state text_codec same_value text_codec-IsFaithful IsOne
      IsOne-Compatible steady 2000000 (value_of (local_state text_codec 2000000 full_store).1)
      full_store new_store refl ((refl, refl), tt) (refl, tt) (λ k. tt)
