-- ===== src/Traffic/Sessions/Reaped.antt =====
-- What a run of the reaper of internal/traffic/server.go leaves of the UDP sessions.
use mathlib.Core.List.{Memᴰ}
use flux_mesh.Base.{
  Bool, true, any, nat_beq, before_byte, codes, pos, trim_space, ◌∙◌, ℕ, false, not, Option, none,
  some, List, [], ◌∷◌, ◌++◌, map, ◌==◌, ℤ, Str, str_eq, ◌≡◌, ◌⊎◌, inl, inr, refl, ap, ◌∙◌, arith,
  Bool-cases, str_beq_iff, mem-keep, keep-mem, keep,
}
use flux_mesh.Base.Dict
use flux_mesh.Base.Dict.{
  Dict, IsMap, get-keep, get-put, get-remove, get-put_self, survivor, IsMap-keep,
}
use flux_mesh.Traffic.Floats.{Floats}
use flux_mesh.Model.Service.{ServiceTrafficPolicy}
use flux_mesh.Traffic.Match.{ListenerKey}
use flux_mesh.Traffic.Plan.{Plan, UdpBinding, listener_map_key}
use flux_mesh.Traffic.Plan.Query.{service_policy}
use flux_mesh.Traffic.Sessions.{
  Session, Sessions, is_live, session_ttl, ttl_of_binding, ttl_of_policy, udp_session_key, survives,
  reap_udp_sessions,
}

module _ {A B : Type 0} where
  mem-map : (g : A → B) (l : List A) {a : A} → Memᴰ a l → Memᴰ (g a) (map g l)
  mem-map g [] m = elim m [ ]
  mem-map g (x ∷ l) (Memᴰ.head q) = Memᴰ.head (ap g q)
  mem-map g (x ∷ l) (Memᴰ.tail m) = Memᴰ.tail (mem-map g l m)

module _ {A : Type 0} where
  pub mem-append : (xs ys : List A) {a : A} → Memᴰ a ys → Memᴰ a (xs ++ ys)
  mem-append [] ys m = m
  mem-append (x ∷ xs) ys m = Memᴰ.tail (mem-append xs ys m)

pub mem-left : {A : Type 0} (xs ys : List A) {a : A} → Memᴰ a xs → Memᴰ a (xs ++ ys)
mem-left [] ys m = elim m [ ]
mem-left (x ∷ xs) ys (Memᴰ.head q) = Memᴰ.head q
mem-left (x ∷ xs) ys (Memᴰ.tail m) = Memᴰ.tail (mem-left xs ys m)

append-mem : {A : Type 0} (xs ys : List A) {a : A} → Memᴰ a (xs ++ ys) → Memᴰ a xs ⊎ Memᴰ a ys
append-mem [] ys m = inr m
append-mem (x ∷ xs) ys (Memᴰ.head q) = inl (Memᴰ.head q)
append-mem (x ∷ xs) ys (Memᴰ.tail m) = elim (append-mem xs ys m) [
  | inl l ↦ inl (Memᴰ.tail l)
  | inr r ↦ inr r
]

map-mem :
    {A B : Type 0} (g : A → B) (l : List A) {b : B}
    → Memᴰ b (map g l)
    → (a : A) × Memᴰ a l × (b ≡ g a)
map-mem g [] m = elim m [ ]
map-mem g (x ∷ l) (Memᴰ.head q) = (x, Memᴰ.head refl, q)
map-mem g (x ∷ l) (Memᴰ.tail m) = let (a, k, q) = map-mem g l m in (a, Memᴰ.tail k, q)

mem-get : (m : Dict Str Session) (k : Str) (v : Session) → Dict.get m k ≡ some v → Memᴰ (k, v) m
unfolding Dict.get
mem-get [] k v h = ground arith
mem-get ((j, w) ∷ m) k v h = elim (Bool-cases (j == k)) [
  | inr n ↦ Memᴰ.tail (mem-get m k v (rw n at h))
  | inl y ↦
      let e : j ≡ k = (str_beq_iff j k).0 y in
      let q : w ≡ v = ground arith in Memᴰ.head (rw (e, q) refl)
]

-- The bar after the listener in a key.
abbrev pub is_bar : ℕ → Bool
is_bar c = nat_beq c 124

any_bar-append : (p r : Str) → any is_bar p ≡ true → any is_bar (p ++ r) ≡ true
any_bar-append [] r h = ground arith
any_bar-append (c ∷ p) r h = elim (Bool-cases (is_bar c)) [
  | inl y ↦ rw y refl
  | inr n ↦ rw n (any_bar-append p r (rw n at h))
]

before_byte-append :
    (p r : Str) → any is_bar p ≡ true → before_byte 124 (p ++ r) ≡ before_byte 124 p
unfolding before_byte
before_byte-append [] r h = ground arith
before_byte-append (c ∷ p) r h = elim (Bool-cases (is_bar c)) [
  | inl y ↦ rw y refl
  | inr n ↦ rw n (ap (◌∷◌ c) (before_byte-append p r (rw n at h)))
]

before_byte-bar : (p : Str) → any is_bar p ≡ false → before_byte 124 (p ++ codes "|") ≡ p
unfolding before_byte
before_byte-bar [] h = refl
before_byte-bar (c ∷ p) h = elim (Bool-cases (is_bar c)) [
  | inl y ↦ ground (arith, y, h)
  | inr n ↦ rw n (ap (◌∷◌ c) (before_byte-bar p (rw n at h)))
]

any_bar-bar : (p : Str) → any is_bar (p ++ codes "|") ≡ true
any_bar-bar [] = refl
any_bar-bar (c ∷ p) = ground (arith, any_bar-bar p)

module _ (f : Floats) (plan : Plan f) where
  -- The time to live that the policy of a listener's service sets, in milliseconds; 30 seconds
  -- where the plan has no binding or no policy for it.
  abbrev pub listener_ttl : ListenerKey → ℤ
  listener_ttl l = elim (Dict.get plan.udp_bindings (listener_map_key l.addr l.port)) [
    | none ↦ pos 30000
    | some b ↦ elim (service_policy f plan b.service_name) [
      | none ↦ pos 30000
      | some p ↦ p.udp.session_ttl_ms
    ]
  ]

  ttl_of_binding_lem :
      (o : Option UdpBinding)
      → ttl_of_binding f plan o ≡ elim o [
        | none ↦ pos 30000
        | some b ↦ elim (service_policy f plan b.service_name) [
          | none ↦ pos 30000
          | some p ↦ p.udp.session_ttl_ms
        ]
      ]
  unfolding ttl_of_binding ttl_of_policy
  ttl_of_binding_lem none = refl
  ttl_of_binding_lem (some b) = of_policy (service_policy f plan b.service_name)
    where
      of_policy :
          (o : Option (ServiceTrafficPolicy f.Float))
          → ttl_of_policy f plan o ≡ elim o [ none ↦ pos 30000 | some p ↦ p.udp.session_ttl_ms ]
      of_policy none = refl
      of_policy (some p) = refl

  session_ttl-udp_session_key :
      (l : ListenerKey) (client upstream : Str)
      → any is_bar (listener_map_key l.addr l.port) ≡ false
      → session_ttl f plan (udp_session_key l client upstream) ≡ listener_ttl l
  unfolding session_ttl udp_session_key
  session_ttl-udp_session_key l client upstream h =
      let lk = listener_map_key l.addr l.port in
      let p1 = lk ++ codes "|" in
      let p2 = p1 ++ client in
      let p3 = p2 ++ codes "|" in
      let a1 = any_bar-bar lk in
      let a2 = any_bar-append p1 client a1 in
      let a3 = any_bar-append p2 (codes "|") a2 in
      let a4 = any_bar-append p3 (trim_space upstream) a3 in
      let b4 =
        before_byte-append p3 (trim_space upstream) a3
        ∙ before_byte-append p2 (codes "|") a2
        ∙ before_byte-append p1 client a1
        ∙ before_byte-bar lk h in
      rw a4 (
        ap (λ k. ttl_of_binding f plan (Dict.get plan.udp_bindings k)) b4
        ∙ ttl_of_binding_lem (Dict.get plan.udp_bindings lk))

  -- What a run of the reaper leaves of the sessions, by the time to live of each key.
  pub record IsReaped (now : ℕ) (s s' : Sessions) : Type 0 where
    pub kept :
        (key : Str)
        → Dict.get s'.open_sessions key
          ≡ survivor
              (λ p. is_live now (session_ttl f plan p.0) p.1)
              key
              (Dict.get s.open_sessions key)
    pub still_closed : (c : ℕ) → Memᴰ c s.closed → Memᴰ c s'.closed
    pub expired_closed :
        (key : Str) (session : Session)
        → Dict.get s.open_sessions key ≡ some session
        → is_live now (session_ttl f plan key) session ≡ false
        → Memᴰ session.conn s'.closed
    pub only_expired :
        (c : ℕ)
        → Memᴰ c s'.closed
        → Memᴰ c s.closed
          ⊎ ((key : Str) × (session : Session) × Memᴰ (key, session) s.open_sessions
              × (is_live now (session_ttl f plan key) session ≡ false)
              × (c ≡ session.conn))
    pub by_listener :
        (l : ListenerKey) (client upstream : Str)
        → any is_bar (listener_map_key l.addr l.port) ≡ false
        → session_ttl f plan (udp_session_key l client upstream) ≡ listener_ttl l

  -- A run of the reaper, where each key has one session, keeps, as they are, exactly the sessions
  -- that are live by the time to live of their key. It has closed what was closed before and the
  -- connection of each session that is not live, and no other connection. The time to live of a
  -- session of a listener whose address has no bar is the one of its service, or 30 seconds where
  -- the plan has no binding or no policy for it.
  pub reap_udp_sessions-IsReaped :
      (now : ℕ) (s : Sessions)
      → IsMap s.open_sessions
      → IsReaped now s (reap_udp_sessions f plan now s)
  unfolding reap_udp_sessions
  reap_udp_sessions-IsReaped now s m =
      let expired = keep (λ p. not (survives f plan now p)) s.open_sessions in
      record {
        kept = λ key. get-keep s.open_sessions (survives f plan now) key m;
        still_closed = λ c k. mem-left s.closed _ k;
        expired_closed = λ key session at old. mem-append s.closed _ (
            mem-map (λ (p : Str × Session). p.1.conn) _
              (mem-keep (λ p. not (survives f plan now p)) s.open_sessions (ap not old)
                (mem-get s.open_sessions key session at)));
        only_expired = λ c k. elim (append-mem s.closed (map (λ p. p.1.conn) expired) k) [
          | inl old ↦ inl old
          | inr new ↦
              let (p, at, q) = map-mem (λ (p : Str × Session). p.1.conn) expired new in
              let (listed, dead) = keep-mem (λ p. not (survives f plan now p)) s.open_sessions at in
              inr (p.0, p.1, listed, ground (arith, dead), q)
        ];
        by_listener = session_ttl-udp_session_key;
      }
