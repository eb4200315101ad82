-- ===== src/SoftKv/Gossip/Exchange.antt =====
-- Messages and full states between two nodes: internal/softkv/memberlist.go.
use mathlib.Core.List.{Memᴰ}
use flux_mesh.Base.{
  ℕ, suc, false, some, List, [], ◌∷◌, map, if◌then◌else◌, ◌==◌, ◌≡◌, ◌⊎◌, Str, str_eq, str_beq_refl,
  trim_space, is_empty, refl, sym, ap, ◌∙◌, arith, All, subst,
}
use flux_mesh.SoftKv.Store.{Entry, Store, list, merge}
use flux_mesh.SoftKv.Store.Accept.{payload, Compatible}
use flux_mesh.SoftKv.Store.Replica.{
  Delivery, IsTaken, merge_all, view, writes, settle, view-merge_all,
}
use flux_mesh.SoftKv.Store.Settle.{Covers, Within, settle-Covers, settle-cases}
use flux_mesh.SoftKv.Bus.{event_put}
use flux_mesh.SoftKv.Gossip.{
  Message, Codec, IsFaithful, plain_entry, encode_gossip_message, notify_msg, local_state,
  merge_entries, merge_remote_state,
}

module _ {V : Type 0} (c : Codec V) (plain : V → V) (faithful : IsFaithful c plain) where
  -- A write that a node with a name broadcasts is merged by each other node, with what json makes
  -- of its value, and ignored by the node itself.
  pub notify_msg-encode_gossip_message :
      (now now' : ℕ) (from node raw : Str) (e : Entry V) (s : Store V)
      → is_empty (trim_space from) ≡ false
      → encode_gossip_message c from (record { kind = event_put; entry = e }) ≡ some raw
      → notify_msg c now now' node raw s
        ≡ (if from == node then s else (merge now now' (plain_entry plain e) s).0)
  unfolding notify_msg encode_gossip_message
  notify_msg-encode_gossip_message now now' from node raw e s named h =
      let m : Message V = record {
        sender = from;
        event = record { kind = event_put; entry = e };
      } in
      ground
        (arith, faithful.message_full m raw h, faithful.message m raw h, str_beq_refl event_put)

module _ {V : Type 0} where
  unfoldable pub deliveries : (ℕ → ℕ × ℕ) → ℕ → List (Entry V) → List (Delivery V)
  deliveries clock i [] = []
  deliveries clock i (e ∷ es) =
      record { now = (clock i).0; now' = (clock i).1; entry = e } ∷ deliveries clock (suc i) es

  merge_entries-merge_all :
      (clock : ℕ → ℕ × ℕ) (i : ℕ) (es : List (Entry V)) (s : Store V)
      → merge_entries clock i es s ≡ merge_all (deliveries clock i es) s
  unfolding merge_entries merge_all deliveries
  merge_entries-merge_all clock i [] s = refl
  merge_entries-merge_all clock i (e ∷ es) s =
      merge_entries-merge_all clock (suc i) es (merge (clock i).0 (clock i).1 e s).0

  writes-deliveries :
      (clock : ℕ → ℕ × ℕ) (i : ℕ) (es : List (Entry V))
      → writes (deliveries clock i es) ≡ map payload es
  unfolding deliveries
  writes-deliveries clock i [] = refl
  writes-deliveries clock i (e ∷ es) = ap (◌∷◌ (payload e)) (writes-deliveries clock (suc i) es)

  mem-payload : (es : List (Entry V)) {e : Entry V} → Memᴰ e es → Memᴰ (payload e) (map payload es)
  mem-payload [] m = elim m [ ]
  mem-payload (x ∷ es) (Memᴰ.head q) = Memᴰ.head (ap payload q)
  mem-payload (x ∷ es) (Memᴰ.tail m) = Memᴰ.tail (mem-payload es m)

module _ {V : Type 0} where
  mem-plain :
      (plain : V → V) (es : List (Entry V)) {e : Entry V}
      → Memᴰ e es
      → Memᴰ (plain_entry plain e) (map (plain_entry plain) es)
  mem-plain plain [] m = elim m [ ]
  mem-plain plain (x ∷ es) (Memᴰ.head q) = Memᴰ.head (ap (plain_entry plain) q)
  mem-plain plain (x ∷ es) (Memᴰ.tail m) = Memᴰ.tail (mem-plain plain es m)

module _ {V : Type 0} (c : Codec V) (plain : V → V) (faithful : IsFaithful c plain) where
  view-merge_remote_state :
      (clock : ℕ → ℕ × ℕ) (now : ℕ) (raw : Str) (s r : Store V) (k : Str)
      → (local_state c now s).1 ≡ some raw
      → All IsTaken (deliveries clock 0 (map (plain_entry plain) (list now [] s).1))
      → view (merge_remote_state c clock raw r) k
        ≡ settle k (view r k) (map payload (map (plain_entry plain) (list now [] s).1))
  unfolding merge_remote_state local_state
  view-merge_remote_state clock now raw s r k h taken =
      let sent = (list now [] s).1 in
      let es = map (plain_entry plain) sent in
      let all : merge_remote_state c clock raw r ≡ merge_entries clock 0 es r =
        ground (arith, faithful.state sent raw h, faithful.state_full sent raw h) in
      ap (λ (t : Store V). view t k) (all ∙ merge_entries-merge_all clock 0 es r)
      ∙ view-merge_all (deliveries clock 0 es) r k taken
      ∙ ap (settle k (view r k)) (writes-deliveries clock 0 es)

  -- After a push of the full state of one node to another, where what the receiver holds and what
  -- json makes of the sender's entries is compatible and nothing expires on the way, the receiver
  -- holds under each listed key the sender's entry, with what json makes of its value, or one that
  -- is not older, and it holds nothing that it neither had nor was sent.
  pub merge_remote_state-local_state :
      (W : Entry V → Type 0) (compatible : (a b : Entry V) → W a → W b → Compatible a b)
      (clock : ℕ → ℕ × ℕ) (now : ℕ) (raw : Str) (s r : Store V)
      → (local_state c now s).1 ≡ some raw
      → All IsTaken (deliveries clock 0 (map (plain_entry plain) (list now [] s).1))
      → All W (map payload (map (plain_entry plain) (list now [] s).1))
      → ((k : Str) → Within W compatible (view r k))
      → ((e : Entry V)
          → Memᴰ e (list now [] s).1
          → Covers (view (merge_remote_state c clock raw r) e.key) (payload (plain_entry plain e)))
        × ((k : Str) (w : Entry V)
            → view (merge_remote_state c clock raw r) k ≡ some w
            → (view r k ≡ some w)
              ⊎ (Memᴰ w (map payload (map (plain_entry plain) (list now [] s).1)) × (w.key ≡ k)))
  merge_remote_state-local_state W compatible clock now raw s r h taken sent held =
      let sent_by = (list now [] s).1 in
      let es = map (plain_entry plain) sent_by in
      let at = λ (k : Str). view-merge_remote_state clock now raw s r k h taken in
      (
        λ e m.
            subst (λ o. Covers o (payload (plain_entry plain e))) (sym (at e.key))
              (settle-Covers W compatible e.key (view r e.key) (map payload es)
                (payload (plain_entry plain e)) (held e.key) sent
                (mem-payload es (mem-plain plain sent_by m)) refl),
        λ k w q. settle-cases k (view r k) (map payload es) (sym (at k) ∙ q),
      )
