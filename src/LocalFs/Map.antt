-- ===== src/LocalFs/Map.antt =====
-- The map of the files in memory, seen through the look-up of a name.
use mgridfs.Base.{
  ◌≡◌, refl, sym, inl, inr, ◌&&◌, Option, none, some, [], ◌∷◌, arith, if◌then◌else◌, Bool-cases,
  Option-cases, Name, name_eq, name_eq→eq, name_eq_refl,
}
use mgridfs.LocalFile.{LocalFile}
use mgridfs.Handle.{is_some}
use mgridfs.LocalFs.{Files, find_by_name, put, erase_file, insert_file}

pub find-erase_file :
    (n : Name) (fs : Files) (m : Name)
    → find_by_name m (erase_file n fs) ≡ (if name_eq n m then none else find_by_name m fs)
unfolding find_by_name erase_file
find-erase_file n [] m = ground arith
find-erase_file n ((k, f) ∷ fs) m = elim (Bool-cases (name_eq k n)) [
  | inl kn ↦ rw (name_eq→eq k n kn, name_eq_refl n) ground (arith, find-erase_file n fs m)
  | inr kn ↦ elim (Bool-cases (name_eq k m)) [
    | inl km ↦
        rw (sym (name_eq→eq k m km)) ground
          (arith, find-erase_file n fs m, name_eq_refl k, kn, name_eq→eq n k)
    | inr km ↦ ground (arith, find-erase_file n fs m)
  ]
]

pub find-put :
    (n : Name) (f : LocalFile) (fs : Files) (m : Name)
    → find_by_name m (put n f fs)
      ≡ (if name_eq n m && is_some (find_by_name n fs) then some f else find_by_name m fs)
unfolding find_by_name put
find-put n f [] m = ground arith
find-put n f ((k, g) ∷ fs) m = elim (Bool-cases (name_eq k n)) [
  | inl kn ↦ rw (name_eq→eq k n kn, name_eq_refl n) ground arith
  | inr kn ↦ elim (Bool-cases (name_eq k m)) [
    | inl km ↦
        rw (sym (name_eq→eq k m km)) ground
          (arith, find-put n f fs m, name_eq_refl k, kn, name_eq→eq n k)
    | inr km ↦ ground (arith, find-put n f fs m)
  ]
]

pub find-insert_file :
    (n : Name) (f : LocalFile) (fs : Files) (m : Name)
    → find_by_name n fs ≡ none
    → find_by_name m (insert_file n f fs) ≡ (if name_eq n m then some f else find_by_name m fs)
unfolding find_by_name insert_file
find-insert_file n f fs m h = rw h refl

abbrev pub or_new : LocalFile → Option LocalFile → LocalFile
or_new f none = f
or_new f (some g) = g

-- An insertion leaves a file of that name as it is.
pub find-insert_file_same :
    (n : Name) (f : LocalFile) (fs : Files)
    → find_by_name n (insert_file n f fs) ≡ some (or_new f (find_by_name n fs))
unfolding find_by_name insert_file
find-insert_file_same n f fs = elim (Option-cases (find_by_name n fs)) [
  | inl e ↦ ground (arith, e, name_eq_refl n)
  | inr (g, e) ↦ ground (arith, e)
]
