-- ===== src/Server/Listing.antt =====
-- The server of Server/Memory.antt meets the laws on listings.
use mathlib.Core.List.{Memᴰ}
use mgridfs.Base.{
  ℕ, ◌≡◌, refl, sym, ap, ◌∙◌, inl, inr, true, Option, none, some, List, [], ◌∷◌, arith, ◌==◌,
  if◌then◌else◌, Bool-cases, length, Name, name_eq, name_eq_refl,
}
use mgridfs.Server.{Meta, Changes, by_id, ok}
use mgridfs.Server.Laws.{ListingLaws, merge}
use mgridfs.Server.Memory.{Doc, update_docs, directory_docs, memory}

unfoldable find_id : ℕ → List Doc → Option Meta
find_id i [] = none
find_id i (d ∷ ds) = if d.id == i then some d.metadata else find_id i ds

find_id-update :
    (i : ℕ) (ch : Changes) (db : List Doc) (m : Meta)
    → find_id i db ≡ some m
    → find_id i (update_docs (by_id i) ch db).1 ≡ some (merge ch.metadata m)
unfolding find_id update_docs
find_id-update i ch [] m h = absurd (cc h)
find_id-update i ch (d ∷ ds) m h = elim (Bool-cases (d.id == i)) [
  | inl y ↦
      let same : d.metadata ≡ m = ground (arith, y) in
      rw y (rw y (ap (λ k. some (merge ch.metadata k)) same))
  | inr n ↦ rw n (rw n (find_id-update i ch ds m (ground (arith, n))))
]

listed_lem :
    (i : ℕ) (db : List Doc) (m : Meta) (d : Name)
    → find_id i db ≡ some m
    → m.directory ≡ some d
    → Memᴰ m.base (directory_docs d db)
unfolding find_id directory_docs
listed_lem i [] m d h q = absurd (cc h)
listed_lem i (x ∷ xs) m d h q = elim (Bool-cases (x.id == i)) [
  | inl y ↦
      let same : x.metadata ≡ m = ground (arith, y) in
      let dir : x.metadata.directory ≡ some d = ap (λ k. k.directory) same ∙ q in
      rw dir (rw (name_eq_refl d) (Memᴰ.head (ap (λ k. k.base) (sym same))))
  | inr n ↦ behind x.metadata.directory (listed_lem i xs m d (ground (arith, n)) q)
]
  where
    behind :
        (dir : Option Name)
        → Memᴰ m.base (directory_docs d xs)
        → Memᴰ m.base (elim dir [
          | none ↦ directory_docs d xs
          | some k ↦
              if name_eq k d then x.metadata.base ∷ directory_docs d xs else directory_docs d xs
        ])
    behind none t = t
    behind (some k) t = elim (Bool-cases (name_eq k d)) [
      | inl y ↦ rw y (Memᴰ.tail t)
      | inr f ↦ rw f t
    ]

pub memory_listing : ListingLaws memory
unfolding find_id
memory_listing = record {
  entry = λ db id. find_id id db;
  connect_keeps = λ db id. refl;
  grid_fs_keeps = λ db id. refl;
  stored = λ buf n db id h.
      let same : length db ≡ id = cc h in
      let own : (length db == id) ≡ true = ground (arith, same) in
      (mgridfs.Server.no_meta, rw own refl);
  updated = λ id ch db m k h q. find_id-update id ch db m h;
  listed = λ id db m d ns h q r.
      (let same : directory_docs d db ≡ ns = cc r in rw same at (listed_lem id db m d h q));
}
