-- ===== src/Handle/Scan.antt =====
-- The loop of `generateNextHandle`.
use mgridfs.Base.{
  ℕ, zero, suc, ◌+◌, ◌^◌, ◌≤◌, ◌<◌, ◌≡◌, ap, ◌∙◌, inl, inr, true, false, none, some, [], ◌∷◌, arith,
  leb, ◌==◌, if◌then◌else◌, Option-cases, length, add64,
}
use mgridfs.Handle.{
  Table, Handles, left_find, is_some, skip_low, scan, generated, generate_next_handle,
}

-- The entries whose handle is at least `c`: those that the loop may still meet.
abbrev above : ℕ → Table → ℕ
above c [] = 0
above c ((k, n) ∷ t) = (if leb c k then 1 else 0) + above c t

above-length : (c : ℕ) (t : Table) → above c t ≤ length t
above-length c [] = omega arith
above-length c ((k, n) ∷ t) = ground (arith, above-length c t)

above_mono : (c : ℕ) (t : Table) → above (c + 1) t ≤ above c t
above_mono c [] = omega arith
above_mono c ((k, n) ∷ t) = ground (arith, above_mono c t)

-- A handle that is taken is met once.
above_taken : (c : ℕ) (t : Table) → is_some (left_find c t) ≡ true → above (c + 1) t + 1 ≤ above c t
unfolding left_find
above_taken c [] e = ground arith
above_taken c ((k, n) ∷ t) e = ground (arith, above_taken c t, above_mono c t)

scan_taken :
    (fuel orig : ℕ) (t : Table) (c : ℕ)
    → orig < c
    → 10 < c
    → c + 1 < 2 ^ 64
    → is_some (left_find c t) ≡ true
    → scan (suc fuel) orig t c ≡ scan fuel orig t (c + 1)
unfolding scan
scan_taken fuel orig t c later low no_wrap taken =
    let s : skip_low c ≡ c = ground arith in
    let differs : (c == orig) ≡ false = ground arith in
    let next : add64 c 1 ≡ c + 1 = omega arith in rw (differs, s, taken, next)

-- With more fuel than taken handles ahead, and no wrap in sight, the loop finds a free handle.
scan_finds :
    (fuel orig : ℕ) (t : Table) (c : ℕ)
    → orig < c
    → 10 < c
    → above c t < fuel
    → c + above c t < 2 ^ 64
    → (h : ℕ) × (scan fuel orig t c ≡ some h)
      × (c ≤ h)
      × (h ≤ c + above c t)
      × (left_find h t ≡ none)
unfolding scan
scan_finds zero orig t c later low enough no_wrap = absurd (omega arith)
scan_finds (suc fuel) orig t c later low enough no_wrap =
    let s : skip_low c ≡ c = ground arith in
    let differs : (c == orig) ≡ false = ground arith in
    elim (Option-cases (left_find c t)) [
      | inl free ↦ (c, rw (differs, s, free), omega arith, omega arith, free)
      | inr (n, taken) ↦
          let fewer = above_taken c t (rw taken) in
          let step = scan_taken fuel orig t c later low (omega (arith, fewer)) (rw taken) in
          let (h, e, lo, hi, free) =
            scan_finds fuel orig t (c + 1) (omega arith) (omega arith) (omega (arith, fewer))
              (omega (arith, fewer)) in
          (h, step ∙ e, omega (arith, lo), omega (arith, hi, fewer), free)
    ]

generated_new :
    (orig : ℕ) (st : Handles) (h : ℕ)
    → orig < h
    → generated orig st (some h) ≡ some (h, record st { next = h })
generated_new orig st h lt = let differs : (orig == h) ≡ false = ground arith in simp differs

-- Away from the end of the 64-bit range the generator ends, with a handle above the last one that is
-- not zero and that nobody has; the generator goes on from there.
pub generate_finds :
    (st : Handles)
    → 10 ≤ st.next
    → st.next + length st.table + 1 < 2 ^ 64
    → (h : ℕ) × (generate_next_handle st ≡ some (h, record st { next = h }))
      × (st.next < h)
      × (h ≤ st.next + length st.table + 1)
      × (left_find h st.table ≡ none)
unfolding generate_next_handle
generate_finds st low no_wrap =
    let le = above-length (st.next + 1) st.table in
    let next : add64 st.next 1 ≡ st.next + 1 = omega arith in
    let (h, e, lo, hi, free) =
      scan_finds (length st.table + 2) st.next st.table (st.next + 1) (omega arith) (omega arith)
        (omega (arith, le)) (omega (arith, le)) in
    let first : scan (length st.table + 2) st.next st.table (add64 st.next 1) ≡ some h =
      ap (scan (length st.table + 2) st.next st.table) next ∙ e in
    (
      h,
      ap (generated st.next st) first ∙ generated_new st.next st h (omega (arith, lo)),
      omega (arith, lo),
      omega (arith, hi, le),
      free,
    )
