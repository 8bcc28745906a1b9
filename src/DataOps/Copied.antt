-- ===== src/DataOps/Copied.antt =====
-- One round of the loop that reads a file from the server.
use mgridfs.Base.{
  ℕ, zero, suc, ◌+◌, ◌-◌, ◌*◌, ◌/◌, ◌%◌, ◌^◌, ◌≤◌, ◌<◌, min, ◌≡◌, refl, sym, ap, ap₂, ◌∙◌, true,
  false, some, List, [], ◌∷◌, ◌++◌, arith, dec_le, leb, ◌==◌, if◌then◌else◌, le→leb, length, take,
  drop, length-take, length-drop, take_of_le, take-nil, take-take, drop-drop, sub64, int_size,
  int_size_small,
}
use native.Mathlib.Nat.{mod-lt, div-add-mod'}
use mgridfs.LocalFile.Contents.{drop-take}
use mgridfs.DataOps.{copied}

pub take_same :
    (a b : ℕ) (xs : List ℕ) → min a (length xs) ≡ min b (length xs) → take a xs ≡ take b xs
take_same a b xs h = cut a ∙ ap (λ k. take k xs) h ∙ sym (cut b)
  where
    cut : (k : ℕ) → take k xs ≡ take (min k (length xs)) xs
    cut k = elim (dec_le k (length xs)) [
      | yes p ↦ ap (λ j. take j xs) (omega arith)
      | no p ↦ take_of_le k xs (omega arith) ∙ sym (take_of_le (min k (length xs)) xs (omega arith))
    ]

take_more : (p k : ℕ) (xs : List ℕ) → take p xs ++ take k (drop p xs) ≡ take (p + k) xs
take_more zero k xs = ap (λ j. take j xs) {x = k} (omega arith)
take_more (suc p) k [] = take-nil k ∙ sym (take-nil (suc p + k))
take_more (suc p) k (x ∷ xs) =
    let e : suc (p + k) ≡ suc p + k = omega arith in rw (← e) (ap (◌∷◌ x) (take_more p k xs))

-- A chunk's bytes behind what is read, put behind that.
copied_lem :
    (buf : List ℕ) (cs len offset i start p : ℕ)
    → cs < 2 ^ 31
    → len < 2 ^ 31
    → start < cs
    → i * cs + start ≡ offset + p
    → offset + p < length buf
    → p < len
    → let x = drop offset buf in
      copied len start (take cs (drop (i * cs) buf)) (take p x)
      ≡ some (take (min len (suc i * cs - offset)) x)
copied_lem buf cs len offset i start p small l s at inside more =
    let x = drop offset buf in
    let chunk = take cs (drop (i * cs) buf) in
    let got : length (take p x) ≡ p = omega (arith, length-take p x, length-drop offset buf) in
    let size : length chunk ≡ min cs (length buf - i * cs) =
      omega (arith, length-take cs (drop (i * cs) buf), length-drop (i * cs) buf) in
    let count = min (min cs (length buf - i * cs) - start) (len - p) in
    let e1 : sub64 (length chunk) start ≡ min cs (length buf - i * cs) - start =
      rw size (omega arith) in
    let e2 : sub64 len (length (take p x)) ≡ len - p = rw got (omega arith) in
    let e : int_size (min (sub64 (length chunk) start) (sub64 len (length (take p x)))) ≡ count =
      rw (e1, e2) (int_size_small count (omega arith)) in
    let fits : leb (start + count) (length chunk) ≡ true = rw size (le→leb _ _ (omega arith)) in
    let next : suc i * cs ≡ i * cs + cs = grind arith in
    rw (e, fits)
      (ap some (
        let tail : drop start chunk ≡ take (cs - start) (drop p x) =
          drop-take start cs (drop (i * cs) buf)
          ∙ ap (take (cs - start))
              (drop-drop _ _ buf ∙ ap (λ k. drop k buf) at ∙ sym (drop-drop _ _ buf)) in
        let all : take count (drop start chunk) ≡ take (min count (cs - start)) (drop p x) =
          ap (take count) tail ∙ take-take count (cs - start) (drop p x) in
        ap (◌++◌ (take p x)) all
        ∙ take_more p (min count (cs - start)) x
        ∙ take_same (p + min count (cs - start)) (min len (suc i * cs - offset)) x
            (omega (arith, length-drop offset buf, at, inside, more, s, next))))

start_lem :
    (cs i offset p : ℕ)
    → 0 < cs
    → offset / cs ≤ i
    → p ≡ i * cs - offset
    → let start = if p == 0 then offset % cs else 0 in (start < cs) × (i * cs + start ≡ offset + p)
start_lem cs i offset p h le e = elim (dec_le (i * cs) offset) [
  | yes y ↦
      let z : (p == 0) ≡ true = ground arith in
      let same : i ≡ offset / cs = grind arith in
      rw z (mod-lt offset h, rw same (grind (arith, div-add-mod' offset cs, e, y, same)))
  | no n ↦ let z : (p == 0) ≡ false = ground arith in rw z (h, omega arith)
]

-- One round of the loop.
pub step_lem :
    (buf : List ℕ) (cs len offset i : ℕ) (got : List ℕ)
    → 0 < cs
    → cs < 2 ^ 31
    → len < 2 ^ 31
    → offset < length buf
    → offset / cs ≤ i
    → i * cs < length buf
    → got ≡ take (min len (i * cs - offset)) (drop offset buf)
    → leb len (length got) ≡ false
    → copied len (if length got == 0 then offset % cs else 0) (take cs (drop (i * cs) buf)) got
      ≡ some (take (min len (suc i * cs - offset)) (drop offset buf))
step_lem buf cs len offset i got some_bytes small l inside le tight eq more =
    let x = drop offset buf in
    let p = i * cs - offset in
    let size : length x ≡ length buf - offset = length-drop offset buf in
    let less : length got < len = ground arith in
    let has : length got ≡ min (min len p) (length x) = ap length eq ∙ length-take (min len p) x in
    let short : p < len = omega (arith, size, less, has, tight, inside) in
    let got_p : got ≡ take p x = eq ∙ ap (λ k. take k x) {x = min len p} (omega (arith, short)) in
    let len_p : length (take p x) ≡ p = omega (arith, length-take p x, size, tight, inside) in
    let s = start_lem cs i offset p some_bytes le refl in
    let chunk = take cs (drop (i * cs) buf) in
    ap₂ (λ k xs. copied len (if k == 0 then offset % cs else 0) chunk xs) (ap length got_p ∙ len_p)
      got_p
    ∙ copied_lem buf cs len offset i _ p small l s.0 s.1 (omega (arith, tight, inside)) short
