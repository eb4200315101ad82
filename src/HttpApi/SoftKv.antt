-- ===== src/HttpApi/SoftKv.antt =====
-- internal/httpapi/server.go: the handlers of the soft store. url.PathUnescape is a parameter; a
-- store that is nil is none.
use flux_mesh.Base.{
  ℕ, Option, none, some, List, if◌then◌else◌, ◌==◌, Str, codes, str_eq, trim_space, is_empty,
}
use flux_mesh.SoftKv.Store.{Entry, Store, StoreStats, get, list, stats}
use flux_mesh.HttpApi.Services.{Response, respond, trim_prefix}

pub data SoftReply (V : Type 0) : Type 0 where
  soft_method_not_allowed soft_not_initialized soft_key_required soft_key_invalid : SoftReply V
  soft_key_missing : SoftReply V
  soft_entry : Entry V → SoftReply V
  soft_entries : List (Entry V) → SoftReply V
  soft_stats : StoreStats → SoftReply V

module _ {V : Type 0} where
  soft_list : ℕ → Str → Option (Store V) → Option (Store V) × Response (SoftReply V)
  soft_list now prefix none = (none, respond 500 soft_not_initialized)
  soft_list now prefix (some s) =
      let (s', items) = list now (trim_space prefix) s in
      (some s', respond 200 (soft_entries items))

  unfoldable pub handle_soft_kv :
      Str → Str → ℕ → Option (Store V) → Option (Store V) × Response (SoftReply V)
  unfolding soft_list
  handle_soft_kv method prefix now s =
      if method == codes "GET"
      then soft_list now prefix s
      else (s, respond 405 soft_method_not_allowed)

  soft_stats_of : ℕ → Option (Store V) → Response (SoftReply V)
  soft_stats_of now none = respond 500 soft_not_initialized
  soft_stats_of now (some s) = respond 200 (soft_stats (stats now s))

  unfoldable pub handle_soft_kv_stats : Str → ℕ → Option (Store V) → Response (SoftReply V)
  unfolding soft_stats_of
  handle_soft_kv_stats method now s =
      if method == codes "GET" then soft_stats_of now s else respond 405 soft_method_not_allowed

  found_reply : Option (Entry V) → Response (SoftReply V)
  found_reply none = respond 404 soft_key_missing
  found_reply (some e) = respond 200 (soft_entry e)

  soft_unescaped : ℕ → Store V → Option Str → Option (Store V) × Response (SoftReply V)
  unfolding found_reply
  soft_unescaped now s none = (some s, respond 400 soft_key_invalid)
  soft_unescaped now s (some key) = let (s', e) = get now key s in (some s', found_reply e)

  soft_get :
      (Str → Option Str) → Str → ℕ → Option (Store V) → Option (Store V) × Response (SoftReply V)
  unfolding soft_unescaped
  soft_get unescape path now none = (none, respond 500 soft_not_initialized)
  soft_get unescape path now (some s) =
      let raw = trim_space (trim_prefix path (codes "/api/v1/softkv/")) in
      if is_empty raw
      then (some s, respond 400 soft_key_required)
      else soft_unescaped now s (unescape raw)

  unfoldable pub handle_soft_kv_by_key :
      (Str → Option Str)
      → Str
      → Str
      → ℕ
      → Option (Store V)
      → Option (Store V) × Response (SoftReply V)
  unfolding soft_get
  handle_soft_kv_by_key unescape method path now s =
      if method == codes "GET"
      then soft_get unescape path now s
      else (s, respond 405 soft_method_not_allowed)
