-- ===== src/Handle/Wrap.antt =====
-- `generateNextHandle` and `assignHandle` wherever the counter stands, its wrap included.
use mgridfs.Base.{
  ℕ, zero, suc, ◌+◌, ◌≤◌, ◌≡◌, refl, ◌⊎◌, inl, inr, false, Option, none, some, ◌∷◌, arith, ◌==◌,
  Bool-cases, Option-cases, length, add64, is_empty,
}
use mgridfs.Handle.{
  Table, Handles, FileHandle, left_find, skip_low, scan, generated, generate_next_handle, insert,
  assigned, assign_handle, unassign_handle,
}
use mgridfs.Handle.Assign.{IsValid, unassign_handle_lem}

-- The loop gives back the handle that it began with, or one that is free and not low.
scan_any :
    (fuel orig : ℕ) (t : Table) (c : ℕ) {h : ℕ}
    → scan fuel orig t c ≡ some h
    → (h ≡ orig) ⊎ ((10 ≤ h) × (left_find h t ≡ none))
unfolding scan
scan_any zero orig t c e = absurd (ground arith)
scan_any (suc fuel) orig t c {h} e = elim (Bool-cases (c == orig)) [
  | inl y ↦ inl (ground arith)
  | inr n ↦ elim (Option-cases (left_find (skip_low c) t)) [
    | inl free ↦
        let same : skip_low c ≡ h = ground (arith, n, free) in
        inr (rw (← same) (let low : 10 ≤ skip_low c = ground arith in (low, free)))
    | inr (m, taken) ↦ scan_any fuel orig t (add64 (skip_low c) 1) (ground (arith, n, taken))
  ]
]

-- A generated handle is 0 or free, and the counter does not fall below the first handle.
generated-IsValid :
    (orig : ℕ) (st : Handles) (found : Option ℕ) (h : FileHandle) {k : ℕ} {h' : FileHandle}
    {st' : Handles}
    → IsValid st
    → is_empty h.filename ≡ false
    → 10 ≤ orig
    → ((c : ℕ) → found ≡ some c → (c ≡ orig) ⊎ ((10 ≤ c) × (left_find c st.table ≡ none)))
    → assigned h (generated orig st found) ≡ some (k, h', st')
    → IsValid st'
unfolding insert
generated-IsValid orig st none h v named low free e = absurd (ground arith)
generated-IsValid orig st (some c) h {st' = st'} v named low free e =
    elim (Bool-cases (orig == c)) [
      | inl y ↦
          let same : orig ≡ c = ground arith in
          let after : record st { next = c } ≡ st' = ground (arith, y) in
          rw (← after)
            (record { distinct = v.distinct; proper = v.proper; started = rw (← same) low })
      | inr n ↦
          let new : (10 ≤ c) × (left_find c st.table ≡ none) = fresh (free c refl) n in
          let nonzero : (c == 0) ≡ false = ground arith in
          let after : record st { table = (c, h.filename) ∷ st.table; next = c } ≡ st' =
            ground (arith, n, nonzero, new.1) in
          rw (← after) (record {
            distinct = (new.1, v.distinct);
            proper = ((omega (arith, new.0), named), v.proper);
            started = new.0;
          })
    ]
  where
    fresh : {P : Type 0} → (c ≡ orig) ⊎ P → (orig == c) ≡ false → P
    fresh (inl q) n = absurd (ground arith)
    fresh (inr p) n = p

-- `assignHandle` keeps the invariant of the table, whatever it returns.
pub assign_handle-IsValid :
    (h : FileHandle) (st : Handles) {k : ℕ} {h' : FileHandle} {st' : Handles}
    → IsValid st
    → assign_handle h st ≡ some (k, h', st')
    → IsValid st'
unfolding assign_handle generate_next_handle
assign_handle-IsValid h st {k = k} {h' = h'} {st' = st'} v e =
    elim (Bool-cases (is_empty h.filename)) [
      | inl y ↦ let same : st ≡ st' = ground (arith, y) in rw (← same) v
      | inr n ↦
          generated-IsValid st.next st
            (scan (length st.table + 2) st.next st.table (add64 st.next 1)) h {k = k} {h' = h'}
            {st' = st'} v n v.started
            (λ c q. scan_any (length st.table + 2) st.next st.table (add64 st.next 1) q)
            (ground (arith, n))
    ]

pub unassign_handle-IsValid :
    (h : FileHandle) (st : Handles) → IsValid st → IsValid (unassign_handle h st).1
unfolding unassign_handle
unassign_handle-IsValid h st v = elim (Bool-cases (h.fh == 0)) [
  | inl y ↦ rw y v
  | inr n ↦ (unassign_handle_lem h st 0 v (ground arith)).1
]
