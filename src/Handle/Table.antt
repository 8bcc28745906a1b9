-- ===== src/Handle/Table.antt =====
-- The table's operations, seen through the look-up of a handle.
use mgridfs.Base.{
  ℕ, ◌≡◌, refl, Option, none, some, [], ◌∷◌, arith, ◌==◌, if◌then◌else◌, Name, name_eq,
}
use mgridfs.Handle.{Table, left_find, erase}

-- No handle is in the table twice.
abbrev pub Distinct : Table → Type 0
Distinct [] = Unit {0}
Distinct ((k, n) ∷ t) = (left_find k t ≡ none) × Distinct t

-- The look-up of `k`, with the name `n` taken out.
abbrev pub without : Name → Option Name → Option Name
without n none = none
without n (some m) = if name_eq m n then none else some m

erase_miss :
    (k : ℕ) (n : Name) (t : Table) (j : ℕ) → left_find j t ≡ none → left_find j (erase k n t) ≡ none
unfolding left_find erase
erase_miss k n [] j e = refl
erase_miss k n ((i, m) ∷ t) j e = ground (arith, erase_miss k n t j)

-- Erasing a pair takes away the handle if it has that name, and no other.
pub left_find-erase :
    (k : ℕ) (n : Name) (t : Table) (j : ℕ)
    → Distinct t
    → left_find j (erase k n t) ≡ (if j == k then without n (left_find j t) else left_find j t)
unfolding left_find erase
left_find-erase k n [] j d = ground arith
left_find-erase k n ((i, m) ∷ t) j d =
    ground (arith, left_find-erase k n t j d.1, erase_miss k n t j)

pub erase-Distinct : (k : ℕ) (n : Name) (t : Table) → Distinct t → Distinct (erase k n t)
unfolding erase
erase-Distinct k n [] d = tt
erase-Distinct k n ((i, m) ∷ t) d = ground (arith, erase-Distinct k n t d.1, erase_miss k n t i d.0)
