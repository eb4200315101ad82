-- ===== src/Tests/Codec.antt =====
-- An encoding of gossip messages and states, in place of encoding/json, that satisfies what is
-- assumed of it.
use flux_mesh.Base.{
  ℕ, zero, suc, false, Option, none, some, List, [], ◌∷◌, ◌++◌, length, take, drop, ℤ, pos, negsuc,
  Str, is_empty, map, sym, ◌∙◌, ◌≡◌, refl, ap, subst,
}
use flux_mesh.SoftKv.Store.{Entry}
use flux_mesh.SoftKv.Bus.{Event}
use flux_mesh.SoftKv.Gossip.{Message, Codec, IsFaithful, plain_entry}

abbrev after : {A B : Type 0} → Option (A × Str) → (A → Str → Option B) → Option B
after none next = none
after (some (a, s)) next = next a s

abbrev enc_num : ℕ → Str → Str
enc_num n rest = n ∷ rest

abbrev dec_num : Str → Option (ℕ × Str)
dec_num [] = none
dec_num (n ∷ s) = some (n, s)

pub enc_int : ℤ → Str → Str
enc_int (pos n) rest = 0 ∷ n ∷ rest
enc_int (negsuc n) rest = 1 ∷ n ∷ rest

pub dec_int : Str → Option (ℤ × Str)
dec_int (zero ∷ n ∷ s) = some (pos n, s)
dec_int (suc k ∷ n ∷ s) = some (negsuc n, s)
dec_int _ = none

dec_int-enc_int : (i : ℤ) (rest : Str) → dec_int (enc_int i rest) ≡ some (i, rest)
unfolding dec_int enc_int
dec_int-enc_int (pos n) rest = refl
dec_int-enc_int (negsuc n) rest = refl

pub enc_str : Str → Str → Str
enc_str s rest = length s ∷ s ++ rest

pub dec_str : Str → Option (Str × Str)
dec_str [] = none
dec_str (n ∷ s) = some (take n s, drop n s)

split_at :
    (s rest : Str)
    → Path (Str × Str) (take (length s) (s ++ rest), drop (length s) (s ++ rest)) (s, rest)
split_at [] rest = refl
split_at (c ∷ s) rest = ap (λ p. (c ∷ p.0, p.1)) (split_at s rest)

dec_str-enc_str : (s rest : Str) → dec_str (enc_str s rest) ≡ some (s, rest)
unfolding dec_str enc_str
dec_str-enc_str s rest = ap some (split_at s rest)

abbrev enc_entry : Entry ℕ → Str → Str
enc_entry e rest = enc_str e.key (
    enc_num e.value (
      enc_str e.source_id
        (enc_num e.seq (enc_int e.updated_at (enc_int e.expires_at (enc_int e.ingested_at rest))))))

abbrev dec_entry : Str → Option (Entry ℕ × Str)
dec_entry s = after (dec_str s) (λ key s1. after (dec_num s1) (λ value s2.
    after (dec_str s2) (λ source s3. after (dec_num s3) (λ seq s4. after (dec_int s4) (λ updated s5.
      after (dec_int s5) (λ expires s6. after (dec_int s6) (λ ingested s7.
        let e : Entry ℕ = record {
          key = key;
          value = value;
          source_id = source;
          seq = seq;
          updated_at = updated;
          expires_at = expires;
          ingested_at = ingested;
        } in
        some (e, s7))))))))

dec_entry-enc_entry : (e : Entry ℕ) (rest : Str) → dec_entry (enc_entry e rest) ≡ some (e, rest)
dec_entry-enc_entry e rest =
    let s3 = enc_int e.ingested_at rest in
    let s2 = enc_int e.expires_at s3 in
    let s1 = enc_int e.updated_at s2 in
    let after_key = enc_num e.value (enc_str e.source_id (enc_num e.seq s1)) in
    rw (dec_str-enc_str e.key after_key) (
      rw (dec_str-enc_str e.source_id (enc_num e.seq s1)) (
        rw (dec_int-enc_int e.updated_at s2)
          (rw (dec_int-enc_int e.expires_at s3) (rw (dec_int-enc_int e.ingested_at rest) refl))))

abbrev enc_entries : List (Entry ℕ) → Str
enc_entries [] = []
enc_entries (e ∷ es) = enc_entry e (enc_entries es)

abbrev dec_entries : ℕ → Str → Option (List (Entry ℕ))
dec_entries zero s = some []
dec_entries (suc n) s =
    after (dec_entry s)
      (λ e rest. elim (dec_entries n rest) [ none ↦ none | some es ↦ some (e ∷ es) ])

dec_entries-enc_entries : (es : List (Entry ℕ)) → dec_entries (length es) (enc_entries es) ≡ some es
dec_entries-enc_entries [] = refl
dec_entries-enc_entries (e ∷ es) =
    rw (dec_entry-enc_entry e (enc_entries es)) (rw (dec_entries-enc_entries es) refl)

abbrev dec_message : Str → Option (Message ℕ)
dec_message s = after (dec_str s) (λ sender s1. after (dec_str s1) (λ kind s2.
    after (dec_entry s2) (λ e s3.
      let event : Event ℕ = record { kind = kind; entry = e } in
      let m : Message ℕ = record { sender = sender; event = event } in some m)))

abbrev enc_message : Message ℕ → Str
enc_message m = enc_str m.sender (enc_str m.event.kind (enc_entry m.event.entry []))

dec_message-enc_message : (m : Message ℕ) → dec_message (enc_message m) ≡ some m
dec_message-enc_message m =
    rw (dec_str-enc_str m.sender (enc_str m.event.kind (enc_entry m.event.entry []))) (
      rw (dec_str-enc_str m.event.kind (enc_entry m.event.entry []))
        (rw (dec_entry-enc_entry m.event.entry []) refl))

abbrev dec_state : Str → Option (List (Entry ℕ))
dec_state [] = none
dec_state (n ∷ s) = dec_entries n s

abbrev pub text_codec : Codec ℕ
text_codec = record {
  marshal_message = λ m. some (enc_message m);
  unmarshal_message = dec_message;
  marshal_state = λ es. some (length es ∷ enc_entries es);
  unmarshal_state = dec_state;
}

abbrev pub value_of : Option Str → Str
value_of none = []
value_of (some s) = s

-- It gives back a value as it was.
abbrev pub same_value : ℕ → ℕ
same_value v = v

map-plain : (es : List (Entry ℕ)) → map (plain_entry same_value) es ≡ es
map-plain [] = refl
map-plain (e ∷ es) = ap (◌∷◌ e) (map-plain es)

pub text_codec-IsFaithful : IsFaithful text_codec same_value
unfolding enc_str
text_codec-IsFaithful = record {
  message =
      λ m raw e. subst (λ s. dec_message s ≡ some m) (ap value_of e) (dec_message-enc_message m);
  state = λ es raw e.
      subst (λ s. dec_state s ≡ some (map (plain_entry same_value) es)) (ap value_of e)
        (dec_entries-enc_entries es ∙ ap some (sym (map-plain es)));
  message_full = λ m raw e. subst (λ s. is_empty s ≡ false) (ap value_of e) refl;
  state_full = λ es raw e. subst (λ s. is_empty s ≡ false) (ap value_of e) refl;
}
