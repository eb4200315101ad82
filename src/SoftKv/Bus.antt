-- ===== src/SoftKv/Bus.antt =====
-- internal/softkv/bus.go and writer.go: the queue of local writes, and the writer that fills it.
-- A channel is the list of what it holds; a context is whether it is done, with its error.
use flux_mesh.Base.{
  ℕ, ◌≤◌, Bool, Option, none, some, List, [], ◌∷◌, ◌++◌, length, length-append, if◌then◌else◌, ltb,
  Result, ok, err, ℤ, pos, leb_ℤ, pos_part, Str, str_eq, ◌==◌, codes, ◌≡◌, ◌≢◌, ◌⊎◌, arith,
}
use flux_mesh.SoftKv.Store.{PutError, Entry, Store, put, merge}

pub data BusError : Type 0 where
  bus_full context_done : BusError

-- `Type` is a string on the wire.
pub record Event (V : Type 0) : Type 0 where
  pub kind : Str
  pub entry : Entry V

pub record Bus (V : Type 0) : Type 0 where
  pub buffer : ℕ
  pub queue : List (Event V)

abbrev pub event_put : Str
event_put = codes "put"

module _ {V : Type 0} where
  pub new_bus : ℤ → Bus V
  new_bus buffer = record {
    buffer = if leb_ℤ buffer (pos 0) then 256 else pos_part buffer;
    queue = [];
  }

  -- Where the context is done and there is room, Go's `select` picks either case: `pick_done`.
  unfoldable pub publish : Bool → Bool → Event V → Bus V → Bus V × Option BusError
  publish done pick_done event b =
      let room = ltb (length b.queue) b.buffer in
      let sent : Bus V = record b { queue = b.queue ++ event ∷ [] } in
      if done
      then (if room
          then (if pick_done then (b, some context_done) else (sent, none))
          else (b, some context_done))
      else if room
      then (sent, none)
      else (b, some bus_full)

  -- One round of `RunLoopback`: the events that are no writes are skipped.
  unfoldable pub loopback_event : ℕ → ℕ → Event V → Store V → Store V
  loopback_event now now' event s =
      if event.kind == event_put then (merge now now' event.entry s).0 else s

abbrev pub default_publish_timeout : ℤ
default_publish_timeout = pos 200000000

pub record Writer (V : Type 0) : Type 0 where
  pub store : Option (Store V)
  pub bus : Option (Bus V)
  pub publish_timeout : ℤ

pub record WriteResult (V : Type 0) : Type 0 where
  pub entry : Entry V
  pub publish_err : Option BusError

pub data WriteError : Type 0 where
  nil_writer : WriteError
  put_failed : PutError → WriteError

module _ {V : Type 0} where
  pub new_writer : Option (Store V) → Option (Bus V) → Writer V
  new_writer store bus = record {
    store = store;
    bus = bus;
    publish_timeout = default_publish_timeout;
  }

  pub set_publish_timeout : ℤ → Writer V → Writer V
  set_publish_timeout timeout w = record w {
    publish_timeout = if leb_ℤ timeout (pos 0) then default_publish_timeout else timeout;
  }

  publish_entry :
      Bool
      → Bool
      → Entry V
      → Store V
      → Option (Bus V)
      → Writer V
      → Writer V × Result WriteError (WriteResult V)
  publish_entry done pick entry s none w =
      (record w { store = some s }, ok (record { entry = entry; publish_err = none }))
  publish_entry done pick entry s (some b) w =
      let (b', e) = publish done pick (record { kind = event_put; entry = entry }) b in
      (record w { store = some s; bus = some b' }, ok (record { entry = entry; publish_err = e }))

  after_put :
      Bool
      → Bool
      → Store V
      → Result PutError (Entry V)
      → Writer V
      → Writer V × Result WriteError (WriteResult V)
  unfolding publish_entry
  after_put done pick s (err x) w = (record w { store = some s }, err (put_failed x))
  after_put done pick s (ok entry) w = publish_entry done pick entry s w.bus w

  write_store :
      Bool
      → Bool
      → ℕ
      → Str
      → V
      → ℤ
      → Str
      → Option (Store V)
      → Writer V
      → Writer V × Result WriteError (WriteResult V)
  unfolding after_put
  write_store done pick now key value ttl source none w = (w, err nil_writer)
  write_store done pick now key value ttl source (some s) w =
      let (s', r) = put now key value ttl source s in after_put done pick s' r w

  -- `done` is the state of the context with its timeout when the event is sent.
  unfoldable pub write :
      Bool → Bool → ℕ → Str → V → ℤ → Str → Writer V → Writer V × Result WriteError (WriteResult V)
  unfolding write_store publish
  write done pick now key value ttl source w =
      write_store done pick now key value ttl source w.store w

  -- A bus that holds no more than its buffer holds no more after a `Publish`.
  pub publish_bounded :
      (done pick : Bool) (event : Event V) (b : Bus V)
      → length b.queue ≤ b.buffer
      → length (publish done pick event b).0.queue ≤ (publish done pick event b).0.buffer
  unfolding publish
  publish_bounded done pick event b h = ground (arith, length-append b.queue (event ∷ []))

  -- An event is in the queue after `Publish` exactly if no error is returned, the others stay.
  pub publish_outcome :
      (done pick : Bool) (event : Event V) (b : Bus V)
      → let (b', e) = publish done pick event b in
        ((e ≡ none) × (b'.queue ≡ b.queue ++ event ∷ [])) ⊎ ((e ≢ none) × (b'.queue ≡ b.queue))
  unfolding publish
  publish_outcome done pick event b = ground arith

  -- What `Put` stores stays stored whatever the bus does: the bus gets the event of the write
  -- exactly if the result carries no publishing error, and a failed `Put` leaves the bus alone.
  pub write_outcome :
      (done pick : Bool) (now : ℕ) (raw : Str) (value : V) (ttl : ℤ) (source : Str) (s : Store V)
      (b : Bus V) (w : Writer V)
      → w.store ≡ some s
      → w.bus ≡ some b
      → let (w', r) = write done pick now raw value ttl source w in
        let (s', stored) = put now raw value ttl source s in
        (w'.store ≡ some s')
        × ((x : PutError) → stored ≡ err x → (r ≡ err (put_failed x)) × (w'.bus ≡ some b))
        × ((e : Entry V)
            → stored ≡ ok e
            → let sent = record b {
              queue = b.queue ++ record { kind = event_put; entry = e } ∷ [];
            } in
              ((r ≡ ok (record { entry = e; publish_err = none })) × (w'.bus ≡ some sent))
              ⊎ ((r ≢ ok (record { entry = e; publish_err = none })) × (w'.bus ≡ some b)))
  unfolding write
  write_outcome done pick now raw value ttl source s b w hs hb =
      (ground arith, λ x h. ground arith, λ e h. ground arith)
