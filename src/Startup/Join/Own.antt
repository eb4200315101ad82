-- ===== src/Startup/Join/Own.antt =====
-- The list of members that a server starts with, in internal/etcd/join.go, is not empty.
use mathlib.Core.List.{Memᴰ}
use flux_mesh.Base.{
  false, List, [], ◌∷◌, ◌++◌, Str, codes, str_eq, str_beq_iff, is_empty, ◌≡◌, inl, inr, refl, sym,
  arith, All, Bool-cases,
}
use flux_mesh.Registry.Cluster.{Member}
use flux_mesh.Startup.Join.{
  contains_url, member_name, with_entry, initial_entries, joined, build_initial_cluster,
}

abbrev IsFilled : Str → Type 0
IsFilled e = is_empty e ≡ false

append-IsFilled : (s t : Str) → IsFilled s → IsFilled (s ++ t)
append-IsFilled [] t h = ground arith
append-IsFilled (c ∷ s) t h = refl

with_entry-IsFilled :
    (name : Str) (urls rest : List Str)
    → All IsFilled rest
    → All IsFilled (with_entry name urls rest)
unfolding with_entry
with_entry-IsFilled name [] rest h = h
with_entry-IsFilled name (u ∷ us) rest h = elim (Bool-cases (is_empty name)) [
  | inl y ↦ rw y h
  | inr n ↦ rw n (append-IsFilled (name ++ codes "=") u (append-IsFilled name (codes "=") n), h)
]

initial_entries-IsFilled :
    (ms : List Member) (node url : Str) → All IsFilled (initial_entries ms node url)
unfolding initial_entries
initial_entries-IsFilled [] node url = tt
initial_entries-IsFilled (m ∷ ms) node url =
    with_entry-IsFilled (member_name node url m) m.peer_urls (initial_entries ms node url)
      (initial_entries-IsFilled ms node url)

with_entry-is_empty :
    (name : Str) (urls rest : List Str)
    → is_empty rest ≡ false
    → is_empty (with_entry name urls rest) ≡ false
unfolding with_entry
with_entry-is_empty name [] rest h = h
with_entry-is_empty name (u ∷ us) rest h = elim (Bool-cases (is_empty name)) [
  | inl y ↦ rw y h
  | inr n ↦ rw n refl
]

own_entry :
    (node url : Str) (rest : List Str) (m : Member)
    → is_empty node ≡ false
    → m.name ≡ []
    → m.peer_urls ≡ url ∷ []
    → is_empty (with_entry (member_name node url m) m.peer_urls rest) ≡ false
unfolding with_entry member_name contains_url
own_entry node url rest m h unnamed own =
    let same = (str_beq_iff url url).1 refl in rw (own, unnamed, same, h) refl

initial_entries-is_empty :
    (ms : List Member) (node url : Str) (m : Member)
    → is_empty node ≡ false
    → Memᴰ m ms
    → m.name ≡ []
    → m.peer_urls ≡ url ∷ []
    → is_empty (initial_entries ms node url) ≡ false
unfolding initial_entries
initial_entries-is_empty [] node url m h k unnamed own = elim k [ ]
initial_entries-is_empty (x ∷ ms) node url m h (Memᴰ.head q) unnamed own =
    own_entry node url (initial_entries ms node url) x h (rw (sym q) unnamed) (rw (sym q) own)
initial_entries-is_empty (x ∷ ms) node url m h (Memᴰ.tail k) unnamed own =
    with_entry-is_empty (member_name node url x) x.peer_urls (initial_entries ms node url)
      (initial_entries-is_empty ms node url m h k unnamed own)

joined-is_empty :
    (es : List Str) → is_empty es ≡ false → All IsFilled es → is_empty (joined es) ≡ false
unfolding joined
joined-is_empty [] h f = ground arith
joined-is_empty (e ∷ []) h f = f.0
joined-is_empty (e ∷ x ∷ es) h f =
    append-IsFilled (e ++ codes ",") (joined (x ∷ es)) (append-IsFilled e (codes ",") f.0)

-- A list of members with one that has no name yet and the server's own address gives a text.
pub build_initial_cluster-is_empty :
    (ms : List Member) (node url : Str) (m : Member)
    → is_empty node ≡ false
    → Memᴰ m ms
    → m.name ≡ []
    → m.peer_urls ≡ url ∷ []
    → is_empty (build_initial_cluster ms node url) ≡ false
unfolding build_initial_cluster
build_initial_cluster-is_empty ms node url m h k unnamed own =
    joined-is_empty (initial_entries ms node url)
      (initial_entries-is_empty ms node url m h k unnamed own)
      (initial_entries-IsFilled ms node url)
