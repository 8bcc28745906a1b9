-- ===== src/Handle/Release.antt =====
-- `unassignAllHandles`, which goes through the view by names to its end.
use mgridfs.Base.{
  ℕ, ◌≡◌, refl, ap, ◌∙◌, ◌⊎◌, inl, inr, Option, none, some, List, [], ◌∷◌, map, arith, Bool-cases,
  Option-cases, Name, name_eq, name_eq→eq, name_eq_refl,
}
use mgridfs.Handle.{
  Table, Handles, left_find, erase, erase_all, insert_by_name, right_view, handles_from,
  unassign_all_handles, name_le,
}
use mgridfs.Handle.Table.{Distinct, without, left_find-erase, erase-Distinct}
use mgridfs.Handle.Assign.{IsValid}

-- A pair is in the table; a handle is in the list.
abbrev Has : ℕ × Name → Table → Type 0
Has e [] = ⊥
Has e (d ∷ t) = (d ≡ e) ⊎ Has e t

abbrev In : ℕ → List ℕ → Type 0
In k [] = ⊥
In k (j ∷ ks) = (j ≡ k) ⊎ In k ks

left_find-Has : (k : ℕ) (n : Name) (t : Table) → left_find k t ≡ some n → Has (k, n) t
unfolding left_find
left_find-Has k n [] e = ground arith
left_find-Has k n ((j, m) ∷ t) e = ground (arith, left_find-Has k n t)

insert_by_name-Has : (e d : ℕ × Name) (t : Table) → (d ≡ e) ⊎ Has e t → Has e (insert_by_name d t)
unfolding insert_by_name
insert_by_name-Has e d [] h = h
insert_by_name-Has e d (c ∷ t) h = elim (Bool-cases (name_le d.1 c.1)) [
  | inl le ↦ rw le h
  | inr gt ↦ rw gt (elim h [
    | inl p ↦ inr (insert_by_name-Has e d t (inl p))
    | inr (inl p) ↦ inl p
    | inr (inr p) ↦ inr (insert_by_name-Has e d t (inr p))
  ])
]

right_view-Has : (e : ℕ × Name) (t : Table) → Has e t → Has e (right_view t)
unfolding right_view
right_view-Has e [] h = h
right_view-Has e (d ∷ t) (inl p) = insert_by_name-Has e d (right_view t) (inl p)
right_view-Has e (d ∷ t) (inr h) =
    insert_by_name-Has e d (right_view t) (inr (right_view-Has e t h))

map-Has : (k : ℕ) (n : Name) (t : Table) → Has (k, n) t → In k (map (λ e. e.0) t)
map-Has k n [] h = h
map-Has k n (d ∷ t) (inl p) = inl (ap (λ e. e.0) p)
map-Has k n (d ∷ t) (inr h) = inr (map-Has k n t h)

-- From the first handle of the name on, the view has all of them.
handles_from-Has : (k : ℕ) (n : Name) (t : Table) → Has (k, n) t → In k (handles_from n t)
unfolding handles_from
handles_from-Has k n [] h = h
handles_from-Has k n ((j, m) ∷ t) h = elim (Bool-cases (name_eq m n)) [
  | inl hit ↦ rw hit (map-Has k n ((j, m) ∷ t) h)
  | inr miss ↦ rw miss (elim h [
    | inl p ↦ cc (miss, name_eq_refl n, ap (λ e. name_eq e.1 n) p)
    | inr later ↦ handles_from-Has k n t later
  ])
]

without-without : (n : Name) (o : Option Name) → without n (without n o) ≡ without n o
without-without n none = refl
without-without n (some m) = ground arith

-- Erasing a list of handles leaves the others, and takes away at most those of the name.
erase_all_keeps :
    (ks : List ℕ) (n : Name) (t : Table) (j : ℕ)
    → Distinct t
    → (left_find j (erase_all ks n t) ≡ left_find j t)
      ⊎ (left_find j (erase_all ks n t) ≡ without n (left_find j t))
unfolding erase_all
erase_all_keeps [] n t j d = inl refl
erase_all_keeps (k ∷ ks) n t j d = ground (
  arith,
  erase_all_keeps ks n (erase k n t) j (erase-Distinct k n t d),
  left_find-erase k n t j d,
  without-without n (left_find j t),
)

erase_all_takes :
    (ks : List ℕ) (n : Name) (t : Table) (j : ℕ)
    → Distinct t
    → In j ks
    → left_find j (erase_all ks n t) ≡ without n (left_find j t)
unfolding erase_all
erase_all_takes [] n t j d h = absurd h
erase_all_takes (k ∷ ks) n t j d (inl p) = ground (
  arith,
  erase_all_keeps ks n (erase k n t) j (erase-Distinct k n t d),
  left_find-erase k n t j d,
  without-without n (left_find j t),
)
erase_all_takes (k ∷ ks) n t j d (inr h) = ground (
  arith,
  erase_all_takes ks n (erase k n t) j (erase-Distinct k n t d) h,
  left_find-erase k n t j d,
  without-without n (left_find j t),
)

-- After the call no handle stands for the file; every other handle is as it was.
pub unassign_all_handles_lem :
    (n : Name) (st : Handles) (j : ℕ)
    → IsValid st
    → left_find j (unassign_all_handles n st).1.table ≡ without n (left_find j st.table)
unfolding unassign_all_handles
unassign_all_handles_lem n st j v =
    let t = st.table in
    let ks = handles_from n (right_view t) in
    elim (Option-cases (left_find j t)) [
      | inl e ↦ ground (arith, e, erase_all_keeps ks n t j v.distinct)
      | inr (m, e) ↦ elim (Bool-cases (name_eq m n)) [
        | inl hit ↦
            let is_n : left_find j t ≡ some n = e ∙ ap some (name_eq→eq m n hit) in
            erase_all_takes ks n t j v.distinct (
              handles_from-Has j n (right_view t)
                (right_view-Has (j, n) t (left_find-Has j n t is_n)))
        | inr miss ↦ ground (arith, e, miss, erase_all_keeps ks n t j v.distinct)
      ]
    ]
