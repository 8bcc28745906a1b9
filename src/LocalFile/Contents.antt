-- ===== src/LocalFile/Contents.antt =====
-- The bytes of a file, and what a write does to a list of bytes.
use mgridfs.Base.{
  ℕ, zero, suc, ◌+◌, ◌-◌, ◌≤◌, min, max, ◌≡◌, refl, sym, ap, ◌∙◌, List, [], ◌∷◌, ◌++◌, append-nil,
  arith, dec_le, length, take, drop, splice, length-append, length-take, length-splice, take-nil,
  take-append, take-take, take-drop-splice, take-splice, drop-splice,
}
use mgridfs.LocalFile.{LocalFile}
use mgridfs.LocalFile.Grow.{flat}

-- The bytes of the file: those of its chunks up to its size.
abbrev pub contents : LocalFile → List ℕ
contents f = take f.size (flat f)

pub drop-take : {A : Type 0} (o n : ℕ) (xs : List A) → drop o (take n xs) ≡ take (n - o) (drop o xs)
drop-take zero n xs = ap (λ k. take k xs) {x = n} (omega arith)
drop-take (suc o) zero xs = ap (λ k. take k (drop (suc o) xs)) {x = 0} (omega arith)
drop-take (suc o) (suc n) [] = sym (take-nil (suc n - suc o))
drop-take (suc o) (suc n) (x ∷ xs) =
    let e : n - o ≡ suc n - suc o = omega arith in rw (← e) (drop-take o n xs)

pub take_before : (k : ℕ) (xs ys : List ℕ) → k ≤ length xs → take k (xs ++ ys) ≡ take k xs
take_before k xs ys h =
    let e : k - length xs ≡ 0 = omega arith in rw (take-append k xs ys, e) (append-nil (take k xs))

take-splice_le :
    (k : ℕ) (xs : List ℕ) (offset : ℕ) (buf : List ℕ)
    → k ≤ offset
    → take k (splice xs offset buf) ≡ take k xs
take-splice_le k xs offset buf h =
    let e : min k offset ≡ k = omega arith in
    rw (← e) (
      sym (take-take k offset (splice xs offset buf))
      ∙ ap (take k) (take-splice xs offset buf)
      ∙ take-take k offset xs)

-- The effect of a write of `buf` at `offset` on the bytes of a file: what was written is there, and
-- the bytes of the old file before and behind it are as they were.
pub record Overwrites (before : List ℕ) (offset : ℕ) (buf after : List ℕ) : Type 0 where
  pub there : take (length buf) (drop offset after) ≡ buf
  pub below : take (min offset (length before)) after ≡ take offset before
  pub above : drop (offset + length buf) after ≡ drop (offset + length buf) before
  pub size : length after ≡ max (length before) (offset + length buf)

splice_above :
    (xs ys : List ℕ) (n offset : ℕ) (buf : List ℕ)
    → n ≤ length xs
    → drop (offset + length buf) (take (max n (offset + length buf)) (splice (xs ++ ys) offset buf))
      ≡ drop (offset + length buf) (take n xs)
splice_above xs ys n offset buf fits =
    let k = offset + length buf in
    let out = splice (xs ++ ys) offset buf in
    elim (dec_le n k) [
      | yes p ↦
          let e : max n k - k ≡ 0 = omega arith in
          let e' : n - k ≡ 0 = omega arith in
          rw (drop-take k (max n k) out, drop-take k n xs, e, e')
      | no p ↦
          let e : max n k ≡ n = omega arith in
          rw (
            e,
            drop-take k n out,
            drop-splice (xs ++ ys) offset k buf refl,
            ← drop-take k n (xs ++ ys),
            take_before n xs ys fits,
          )
    ]

-- Cut to the new size, the bytes of a splice have that effect on the bytes cut to the old size.
pub splice-Overwrites :
    (xs ys : List ℕ) (n offset : ℕ) (buf : List ℕ)
    → n ≤ length xs
    → max n (offset + length buf) ≤ length xs + length ys
    → Overwrites
        (take n xs)
        offset
        buf
        (take (max n (offset + length buf)) (splice (xs ++ ys) offset buf))
splice-Overwrites xs ys n offset buf fits all =
    let whole = xs ++ ys in
    let len : length (take n xs) ≡ n = omega (arith, length-take n xs) in
    let total : length whole ≡ length xs + length ys = length-append xs ys in
    let s = max n (offset + length buf) in
    let out = splice whole offset buf in
    record {
      there =
          let e : min (length buf) (s - offset) ≡ length buf = omega arith in
          rw (drop-take offset s out, take-take (length buf) (s - offset) (drop offset out), e)
            (take-drop-splice whole offset buf (omega (arith, total)));
      below =
          let e : min (min offset n) s ≡ min offset n = omega arith in
          rw
            (
              len,
              take-take (min offset n) s out,
              e,
              take-take offset n xs,
              take-splice_le (min offset n) whole offset buf (omega arith),
            )
            (take_before (min offset n) xs ys (omega arith));
      above = splice_above xs ys n offset buf fits;
      size = rw (len, length-take s out, length-splice whole offset buf, total) (omega arith);
    }
