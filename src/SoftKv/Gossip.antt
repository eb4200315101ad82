-- ===== src/SoftKv/Gossip.antt =====
-- internal/softkv/memberlist.go: what a node does with gossip messages and with the full state of
-- another node, and when it tries to join again. memberlist itself and encoding/json are outside.
pub mod Exchange
pub mod Retry
pub mod Targets
use flux_mesh.Base.{
  ℕ, suc, Bool, true, false, not, ◌||◌, Option, none, some, List, [], ◌∷◌, map, if◌then◌else◌, ◌==◌,
  ◌≡◌, Str, str_eq, trim_space, is_empty, codes,
}
use flux_mesh.SoftKv.Store.{Entry, Store, list, merge}
use flux_mesh.SoftKv.Bus.{Event, event_put}

pub record Message (V : Type 0) : Type 0 where
  pub sender : Str
  pub event : Event V

-- encoding/json at the two types that travel; `none` is an error.
pub record Codec (V : Type 0) : Type 0 where
  pub marshal_message : Message V → Option Str
  pub unmarshal_message : Str → Option (Message V)
  pub marshal_state : List (Entry V) → Option Str
  pub unmarshal_state : Str → Option (List (Entry V))

-- The `Value` of an entry is an `any`: json gives it back as one of its own types, a struct as a
-- map[string]any. `plain` is what it makes of a value.
abbrev pub plain_entry : {V : Type 0} → (V → V) → Entry V → Entry V
plain_entry plain e = record e { value = plain e.value }

abbrev pub plain_message : {V : Type 0} → (V → V) → Message V → Message V
plain_message plain m = record m {
  event = record m.event { entry = plain_entry plain m.event.entry };
}

-- What is documented of it: what was encoded is not empty and decodes to what it was, but for the
-- values of type any.
pub record IsFaithful {V : Type 0} (c : Codec V) (plain : V → V) : Type 0 where
  pub message :
      (m : Message V) (raw : Str)
      → c.marshal_message m ≡ some raw
      → c.unmarshal_message raw ≡ some (plain_message plain m)
  pub state :
      (es : List (Entry V)) (raw : Str)
      → c.marshal_state es ≡ some raw
      → c.unmarshal_state raw ≡ some (map (plain_entry plain) es)
  pub message_full :
      (m : Message V) (raw : Str) → c.marshal_message m ≡ some raw → is_empty raw ≡ false
  pub state_full :
      (es : List (Entry V)) (raw : Str) → c.marshal_state es ≡ some raw → is_empty raw ≡ false

module _ {V : Type 0} where
  -- `clock i` is what the call of `Merge` for the entry `i` reads.
  pub merge_entries : (ℕ → ℕ × ℕ) → ℕ → List (Entry V) → Store V → Store V
  merge_entries clock i [] s = s
  merge_entries clock i (e ∷ es) s =
      merge_entries clock (suc i) es (merge (clock i).0 (clock i).1 e s).0

module _ {V : Type 0} (c : Codec V) where
  unfoldable pub encode_gossip_message : Str → Event V → Option Str
  encode_gossip_message node event = c.marshal_message (record { sender = node; event = event })

  with_sender : Option (Message V) → Option (Message V)
  with_sender none = none
  with_sender (some m) = if is_empty (trim_space m.sender) then none else some m

  unfoldable pub decode_gossip_message : Str → Option (Message V)
  unfolding with_sender
  decode_gossip_message raw = with_sender (c.unmarshal_message raw)

  receive : ℕ → ℕ → Str → Option (Message V) → Store V → Store V
  receive now now' node none s = s
  receive now now' node (some m) s =
      if m.sender == node
      then s
      else if m.event.kind == event_put
      then (merge now now' m.event.entry s).0
      else s

  -- The delegate of the node `node`.
  unfoldable pub notify_msg : ℕ → ℕ → Str → Str → Store V → Store V
  unfolding receive decode_gossip_message
  notify_msg now now' node raw s =
      if is_empty raw then s else receive now now' node (decode_gossip_message raw) s

  unfoldable pub local_state : ℕ → Store V → Store V × Option Str
  local_state now s = let (s', es) = list now [] s in (s', c.marshal_state es)

  merge_decoded : (ℕ → ℕ × ℕ) → Option (List (Entry V)) → Store V → Store V
  merge_decoded clock none s = s
  merge_decoded clock (some es) s = merge_entries clock 0 es s

  unfoldable pub merge_remote_state : (ℕ → ℕ × ℕ) → Str → Store V → Store V
  unfolding merge_decoded
  merge_remote_state clock raw s =
      if is_empty raw then s else merge_decoded clock (c.unmarshal_state raw) s
