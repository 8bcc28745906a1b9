-- ===== src/Handle/Assign.antt =====
-- The calls on a handle: what they do to the table, and the invariant of the table.
use mgridfs.Base.{
  ℕ, ◌+◌, ◌^◌, ◌≤◌, ◌<◌, ◌≡◌, refl, false, Option, none, some, [], ◌∷◌, arith, ◌==◌, if◌then◌else◌,
  length, All, Name, is_empty,
}
use mgridfs.Handle.{
  Table, Handles, FileHandle, left_find, insert, assign_handle, unassign_handle, erase, no_handles,
}
use mgridfs.Handle.Table.{Distinct, without, left_find-erase, erase-Distinct}
use mgridfs.Handle.Scan.{generate_finds}

-- No handle is given twice, none is zero, and each has a file name.
abbrev pub Proper : ℕ × Name → Type 0
Proper e = (0 < e.0) × (is_empty e.1 ≡ false)

pub record IsValid (st : Handles) : Type 0 where
  pub distinct : Distinct st.table
  pub proper : All Proper st.table
  pub started : 10 ≤ st.next

pub no_handles-IsValid : IsValid no_handles
no_handles-IsValid = record { distinct = tt; proper = tt; started = omega arith }

-- A new handle.
pub record Assigned (h : FileHandle) (st : Handles) (out : Option (ℕ × FileHandle × Handles))
    : Type 0 where
  pub fh : ℕ
  pub after : Handles
  pub returned : out ≡ some (fh, record h { fh = fh }, after)
  pub nonzero : 0 < fh
  pub fresh : left_find fh st.table ≡ none
  pub table : after.table ≡ (fh, h.filename) ∷ st.table
  pub next : after.next ≡ fh
  pub near : fh ≤ st.next + length st.table + 1
  pub valid : IsValid after

-- With the counter away from its wrap, a handle for a named file is new, not zero, stands for that
-- file, leaves all others alone, and keeps the invariant of the table.
pub assign_handle-Assigned :
    (h : FileHandle) (st : Handles)
    → IsValid st
    → is_empty h.filename ≡ false
    → st.next + length st.table + 1 < 2 ^ 64
    → Assigned h st (assign_handle h st)
unfolding assign_handle insert
assign_handle-Assigned h st v named no_wrap =
    let (k, e, lo, hi, free) = generate_finds st v.started no_wrap in
    let nonzero : (k == 0) ≡ false = ground (arith, lo) in
    record {
      fh = k;
      after = record { table = (k, h.filename) ∷ st.table; next = k };
      returned = rw (named, e, nonzero, free);
      nonzero = omega (arith, lo);
      fresh = free;
      table = refl;
      next = refl;
      near = hi;
      valid = record {
        distinct = (free, v.distinct);
        proper = ((omega (arith, lo), named), v.proper);
        started = omega (arith, lo, v.started);
      };
    }

All-erase : (k : ℕ) (n : Name) (t : Table) → All Proper t → All Proper (erase k n t)
unfolding erase
All-erase k n [] a = tt
All-erase k n ((j, m) ∷ t) a = ground (arith, All-erase k n t a.1)

-- `unassignHandle` takes away the handle if it is that of the object's file, and no other handle.
pub unassign_handle_lem :
    (h : FileHandle) (st : Handles) (j : ℕ)
    → IsValid st
    → 0 < h.fh
    → (left_find j (unassign_handle h st).1.table
        ≡ (if j == h.fh then without h.filename (left_find j st.table) else left_find j st.table))
      × IsValid (unassign_handle h st).1
unfolding unassign_handle
unassign_handle_lem h st j v nonzero =
    let e : (h.fh == 0) ≡ false = ground arith in
    simp e (
      left_find-erase h.fh h.filename st.table j v.distinct,
      record {
        distinct = erase-Distinct h.fh h.filename st.table v.distinct;
        proper = All-erase h.fh h.filename st.table v.proper;
        started = v.started;
      },
    )

left_find-zero : (t : Table) → All Proper t → left_find 0 t ≡ none
unfolding left_find
left_find-zero [] a = refl
left_find-zero ((j, m) ∷ t) a = ground (arith, left_find-zero t a.1)
