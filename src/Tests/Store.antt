-- ===== src/Tests/Store.antt =====
-- Runs of internal/softkv/store.go and bus.go on small stores.
use mathlib.Core.List.{Memᴰ}
use flux_mesh.Base.{
  ℕ, ◌<◌, true, false, none, some, List, [], ◌∷◌, ◌++◌, ok, err, pos, Str, str_eq, str_beq,
  str_beq_iff, codes, trim_space, has_prefix, ◌≡◌, ◌≢◌, ◌⊎◌, refl, arith,
}
use flux_mesh.Base.Dict
use flux_mesh.SoftKv.Store.{
  PutError, Entry, Store, zero_counters, new_store, put, get, list, delete_expired, should_accept,
}
use flux_mesh.SoftKv.Store.Access.{get-put}
use flux_mesh.SoftKv.Store.Counted.{AreCounted, perform_all-AreCounted}
use flux_mesh.SoftKv.Store.Invariant.{
  Call, put_call, get_call, delete_expired_call, perform, perform_all, IsSound,
}
use flux_mesh.SoftKv.Store.Sequence.{CoversSeqs, perform-CoversSeqs, put-supersedes}
use flux_mesh.SoftKv.Store.Expiry.{get-delete_expired, mem-list}
use flux_mesh.SoftKv.Bus.{Event, Bus, Writer, put_failed, event_put, write, write_outcome}

abbrev key_a : Str
key_a = codes "a"

abbrev node : Str
node = codes "n1"

-- The store after one `Put` of 7 under "a", made at 1 ms for 5 ms.
abbrev entry_a : Entry ℕ
entry_a = record {
  key = codes "a";
  value = 7;
  source_id = codes "n1";
  seq = 1;
  updated_at = pos 1;
  expires_at = pos 6;
  ingested_at = pos 1;
}

abbrev one_put : Call ℕ
one_put = put_call 1000000 key_a 7 (pos 5000000) node

abbrev store_a : Store ℕ
store_a = record {
  entries = (codes "a", entry_a) ∷ [];
  seqs = (codes "n1", 1) ∷ [];
  counters = record zero_counters { put_total = 1 };
}

store_a-IsSound : IsSound store_a
store_a-IsSound = record {
  keys_once = (tt, tt);
  keyed = (refl, tt);
  sources_once = (tt, tt);
  gets = refl;
  merges = refl;
}

get-put_example :
    (get 2000000 (codes "a ") (put 1000000 key_a 7 (pos 5000000) node new_store).0).1 ≡ some entry_a
unfolding put trim_space Dict.get str_beq
get-put_example =
    get-put 1000000 2000000 key_a (codes "a ") 7 (pos 5000000) node new_store entry_a refl

abbrev three_calls : List (Call ℕ)
three_calls = one_put ∷ get_call 2000000 key_a ∷ delete_expired_call 9000000 ∷ []

perform_all-AreCounted_example : AreCounted three_calls (perform_all new_store three_calls)
perform_all-AreCounted_example = perform_all-AreCounted three_calls

store_a-CoversSeqs : CoversSeqs store_a
unfolding Dict.get
store_a-CoversSeqs = record { at_key = λ k e h n. ground (arith, str_beq_iff node e.source_id) }

perform-CoversSeqs_example : CoversSeqs (perform store_a one_put)
unfolding Dict.get str_beq
perform-CoversSeqs_example =
    perform-CoversSeqs store_a one_put (omega arith) store_a-IsSound store_a-CoversSeqs

-- A second `Put`, whose clock reads earlier.
abbrev later_a : Entry ℕ
later_a = record entry_a {
  value = 8;
  seq = 2;
  updated_at = pos 0;
  expires_at = pos 5;
  ingested_at = pos 0;
}

put-supersedes_example : (entry_a.seq < later_a.seq) × (should_accept entry_a later_a ≡ true)
unfolding put trim_space Dict.get str_beq
put-supersedes_example =
    put-supersedes 0 key_a 8 (pos 5000000) node store_a later_a entry_a key_a (omega arith)
      store_a-CoversSeqs refl refl refl refl

get-delete_expired_example :
    (get 9000000 key_a (delete_expired 8000000 store_a).0).1 ≡ (get 9000000 key_a store_a).1
get-delete_expired_example = get-delete_expired 8000000 9000000 key_a store_a (tt, tt) (omega arith)

a-listed : Memᴰ entry_a (list 2000000 key_a store_a).1
unfolding get trim_space Dict.get has_prefix str_beq
a-listed = mem-list 2000000 key_a key_a store_a entry_a refl refl

abbrev small_bus : Bus ℕ
small_bus = record { buffer = 1; queue = [] }

abbrev event_a : Event ℕ
event_a = record { kind = event_put; entry = entry_a }

abbrev small_writer : Writer ℕ
small_writer = record { store = some new_store; bus = some small_bus; publish_timeout = pos 1 }

abbrev seven : ℕ
seven = 7

write_outcome_example :
    let (w', r) = write false false 1000000 key_a seven (pos 5000000) node small_writer in
    let (s', stored) = put 1000000 key_a seven (pos 5000000) node new_store in
    (w'.store ≡ some s')
    × ((x : PutError) → stored ≡ err x → (r ≡ err (put_failed x)) × (w'.bus ≡ some small_bus))
    × ((e : Entry ℕ)
        → stored ≡ ok e
        → let sent = record small_bus {
          queue = small_bus.queue ++ record { kind = event_put; entry = e } ∷ [];
        } in
          ((r ≡ ok (record { entry = e; publish_err = none })) × (w'.bus ≡ some sent))
          ⊎ ((r ≢ ok (record { entry = e; publish_err = none })) × (w'.bus ≡ some small_bus)))
write_outcome_example =
    write_outcome false false 1000000 key_a seven (pos 5000000) node new_store small_bus
      small_writer refl refl
