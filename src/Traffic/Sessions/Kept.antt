-- ===== src/Traffic/Sessions/Kept.antt =====
-- No connection of a UDP session of internal/traffic/server.go is lost when a packet opens one.
use mathlib.Core.List.{Memᴰ}
use flux_mesh.Base.{
  ℕ, Option, none, some, [], ◌∷◌, ◌++◌, ◌==◌, ℤ, Str, str_eq, ◌≡◌, ◌⊎◌, inl, inr, refl, subst, ap,
  ◌∙◌, arith, Bool-cases, str_beq_iff, sym,
}
use flux_mesh.Base.Dict
use flux_mesh.Base.Dict.{
  Dict, IsMap, get-keep, get-put, get-remove, get-put_self, survivor, IsMap-keep,
}
use flux_mesh.Traffic.Sessions.{
  Session, Sessions, is_live, close_conn, find_session, add_session, add_unless, use_or_close,
  create_session, get_or_create_udp_session,
}
use flux_mesh.Traffic.Sessions.Reaped.{mem-left, mem-append}

-- What becomes of a connection that was dialled.
abbrev pub IsHeld : Str → ℕ → Sessions × Session → Type 0
IsHeld key conn (s, session) =
    (Dict.get s.open_sessions key ≡ some session) × ((session.conn ≡ conn) ⊎ Memᴰ conn s.closed)

add_unless-IsHeld :
    (key : Str) (fresh : Session) (s : Sessions) (o : Option Session)
    → Dict.get s.open_sessions key ≡ o
    → IsHeld key fresh.conn (add_unless key fresh s o)
unfolding add_unless close_conn
add_unless-IsHeld key fresh s none h = (get-put_self s.open_sessions key fresh, inl refl)
add_unless-IsHeld key fresh s (some existing) h =
    (h, inr (mem-append s.closed (fresh.conn ∷ []) (Memᴰ.head refl)))

-- A connection of a session, or one that was closed.
abbrev pub IsKnown : ℕ → Sessions → Type 0
IsKnown c s =
    ((k : Str) × (x : Session) × (Dict.get s.open_sessions k ≡ some x) × (x.conn ≡ c))
    ⊎ Memᴰ c s.closed

add_unless-IsKnown :
    (key : Str) (fresh : Session) (s : Sessions) (o : Option Session) (c : ℕ)
    → Dict.get s.open_sessions key ≡ o
    → IsKnown c s
    → IsKnown c (add_unless key fresh s o).0
unfolding add_unless close_conn
add_unless-IsKnown key fresh s (some existing) c h (inl k) = inl k
add_unless-IsKnown key fresh s (some existing) c h (inr m) =
    inr (mem-left s.closed (fresh.conn ∷ []) m)
add_unless-IsKnown key fresh s none c h (inr m) = inr m
add_unless-IsKnown key fresh s none c h (inl (k, x, at, q)) = elim (Bool-cases (key == k)) [
  | inl y ↦
      let e : key ≡ k = (str_beq_iff key k).0 y in
      let no : Dict.get s.open_sessions k ≡ none = rw e at h in ground (arith, no, at)
  | inr n ↦ inl (k, x, get-put s.open_sessions key k fresh ∙ rw n at, q)
]

-- A session that is replaced by one of the same connection, or that is removed and closed.
renewed-IsKnown :
    (key : Str) (x fresh : Session) (s : Sessions) (c : ℕ)
    → Dict.get s.open_sessions key ≡ some x
    → fresh.conn ≡ x.conn
    → IsKnown c s
    → IsKnown c (record s { open_sessions = Dict.put s.open_sessions key fresh })
renewed-IsKnown key x fresh s c h same (inr m) = inr m
renewed-IsKnown key x fresh s c h same (inl (k, y, at, q)) = elim (Bool-cases (key == k)) [
  | inr n ↦ inl (k, y, get-put s.open_sessions key k fresh ∙ rw n at, q)
  | inl e ↦
      let here : key ≡ k = (str_beq_iff key k).0 e in
      let at_k : Dict.get s.open_sessions k ≡ some x = rw here at h in
      let z : x ≡ y = ground (arith, at_k, at) in
      inl (
        k,
        fresh,
        get-put s.open_sessions key k fresh ∙ rw e refl,
        same ∙ ap (λ (w : Session). w.conn) z ∙ q,
      )
]

closed-IsKnown :
    (key : Str) (x : Session) (s : Sessions) (c : ℕ)
    → Dict.get s.open_sessions key ≡ some x
    → IsKnown c s
    → IsKnown c (record {
      open_sessions = Dict.remove s.open_sessions key;
      closed = s.closed ++ x.conn ∷ [];
    })
closed-IsKnown key x s c h (inr m) = inr (mem-left s.closed (x.conn ∷ []) m)
closed-IsKnown key x s c h (inl (k, y, at, q)) = elim (Bool-cases (key == k)) [
  | inr n ↦ inl (k, y, get-remove s.open_sessions key k ∙ rw n at, q)
  | inl e ↦
      let here : key ≡ k = (str_beq_iff key k).0 e in
      let at_k : Dict.get s.open_sessions k ≡ some x = rw here at h in
      let z : y ≡ x = ground (arith, at_k, at) in
      inr (mem-append s.closed (x.conn ∷ []) (Memᴰ.head (sym q ∙ ap (λ (w : Session). w.conn) z)))
]

use_or_close-IsKnown :
    (key : Str) (now : ℕ) (ttl : ℤ) (s : Sessions) (o : Option Session) (c : ℕ)
    → Dict.get s.open_sessions key ≡ o
    → IsKnown c s
    → IsKnown c (use_or_close key now ttl s o).0
unfolding use_or_close close_conn
use_or_close-IsKnown key now ttl s none c h known = known
use_or_close-IsKnown key now ttl s (some x) c h known = elim (Bool-cases (is_live now ttl x)) [
  | inl live ↦ rw live (renewed-IsKnown key x (record x { last_used = now }) s c h refl known)
  | inr old ↦ rw old (closed-IsKnown key x s c h known)
]

-- What a packet that has dialled a connection leaves of the sessions as other packets have left
-- them while it dialled.
pub record IsSafe (key : Str) (conn : ℕ) (meanwhile after : Sessions) (session : Session)
    : Type 0 where
  pub held : IsHeld key conn (after, session)
  pub kept : (c : ℕ) → IsKnown c meanwhile → IsKnown c after
  pub found :
      (k : Str) (x : Session)
      → Dict.get meanwhile.open_sessions k ≡ some x
      → Dict.get after.open_sessions k ≡ some x

add_session_found :
    (key : Str) (fresh : Session) (s : Sessions) (o : Option Session) (k : Str) (x : Session)
    → Dict.get s.open_sessions key ≡ o
    → Dict.get s.open_sessions k ≡ some x
    → Dict.get (add_unless key fresh s o).0.open_sessions k ≡ some x
unfolding add_unless close_conn
add_session_found key fresh s (some existing) k x h at = at
add_session_found key fresh s none k x h at = elim (Bool-cases (key == k)) [
  | inl y ↦
      let e : key ≡ k = (str_beq_iff key k).0 y in
      let no : Dict.get s.open_sessions k ≡ none = rw e at h in ground (arith, no, at)
  | inr n ↦ get-put s.open_sessions key k fresh ∙ rw n at
]

create_session-IsSafe :
    (others : Sessions → Sessions) (key : Str) (now conn : ℕ) (s' : Sessions) (session : Session)
    (out : Sessions × Option Session)
    → out.1 ≡ none
    → create_session others key now (some conn) out ≡ (s', some session)
    → IsSafe key conn (others out.0) s' session
unfolding create_session add_session
create_session-IsSafe others key now conn s' session (t, some x) none_live h = ground arith
create_session-IsSafe others key now conn s' session (t, none) none_live h =
    let fresh : Session = record { conn = conn; last_used = now } in
    let made = add_session key conn now (others t) in
    let q : made.1 ≡ session = ground arith in
    let e : made.0 ≡ s' = ap (λ p. p.0) h in
    let o = Dict.get (others t).open_sessions key in
    let held = add_unless-IsHeld key fresh (others t) o refl in
    record {
      held =
          subst (λ x. IsHeld key conn (x, session)) e
            (subst (λ y. IsHeld key conn (made.0, y)) q held);
      kept = λ c k. subst (IsKnown c) e (add_unless-IsKnown key fresh (others t) o c refl k);
      found = λ k x at.
          subst (λ (z : Sessions). Dict.get z.open_sessions k ≡ some x) e
            (add_session_found key fresh (others t) o k x refl at);
    }

-- A packet for which no live session was found and which has dialled a new connection, whatever
-- other packets did meanwhile: the session that is returned stands under its key, and has the new
-- connection, or that one is closed. No connection is lost: what was open or closed before the
-- first section is so after it, and what was open or closed when the second begins is so at the
-- end; and each session that is open then stays as it is.
pub get_or_create_udp_session-IsSafe :
    (others : Sessions → Sessions) (key : Str) (now conn : ℕ) (ttl : ℤ) (s s' : Sessions)
    (session : Session)
    → (find_session key now ttl s).1 ≡ none
    → get_or_create_udp_session others key now ttl (some conn) s ≡ (s', some session)
    → IsSafe key conn (others (find_session key now ttl s).0) s' session
      × ((c : ℕ) → IsKnown c s → IsKnown c (find_session key now ttl s).0)
unfolding get_or_create_udp_session find_session
get_or_create_udp_session-IsSafe others key now conn ttl s s' session none_live h = (
  create_session-IsSafe others key now conn s' session (find_session key now ttl s) none_live h,
  λ c known. use_or_close-IsKnown key now ttl s (Dict.get s.open_sessions key) c refl known,
)
