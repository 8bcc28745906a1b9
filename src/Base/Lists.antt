-- ===== src/Base/Lists.antt =====
-- Lists measured and indexed by native numbers, and the overlay of one list on another: what a
-- `memcpy` into a buffer leaves there.
use Prim.Native.Nat.{ℕ, zero, suc, ◌+◌, ◌-◌, ◌*◌, ◌≤◌, min}
use mathlib.Core.Path.{◌≡◌, refl, ap}
use mathlib.Core.List.{List, [], ◌∷◌, ◌++◌, append_assoc}
use mathlib.Core.Option.{Option, none, some}
use native.Mathlib.Omega.{arith}

module _ {ℓ} {A : Type ℓ} where
  abbrev pub length : List A → ℕ
  length [] = 0
  length (x ∷ xs) = suc (length xs)

  abbrev pub get_elem? : List A → ℕ → Option A
  get_elem? [] i = none
  get_elem? (x ∷ xs) zero = some x
  get_elem? (x ∷ xs) (suc i) = get_elem? xs i

  abbrev pub take : ℕ → List A → List A
  take zero xs = []
  take (suc n) [] = []
  take (suc n) (x ∷ xs) = x ∷ take n xs

  abbrev pub drop : ℕ → List A → List A
  drop zero xs = xs
  drop (suc n) [] = []
  drop (suc n) (x ∷ xs) = drop n xs

  -- The first `n` values of `f` from `i` on.
  abbrev pub tabulate : (ℕ → A) → ℕ → ℕ → List A
  tabulate f i zero = []
  tabulate f i (suc n) = f i ∷ tabulate f (suc i) n

  abbrev pub concat : List (List A) → List A
  concat [] = []
  concat (x ∷ xs) = x ++ concat xs

  abbrev pub All {κ} : (A → Type κ) → List A → Type κ
  All P [] = Unit
  All P (x ∷ xs) = P x × All P xs

  -- `data` written over the head of a buffer; what does not fit is left out.
  abbrev pub overlay : List A → List A → List A
  overlay [] xs = xs
  overlay (d ∷ ds) [] = []
  overlay (d ∷ ds) (x ∷ xs) = d ∷ overlay ds xs

  -- `data` written into a buffer from index `o` on.
  abbrev pub splice : List A → ℕ → List A → List A
  splice xs zero ds = overlay ds xs
  splice [] (suc o) ds = []
  splice (x ∷ xs) (suc o) ds = x ∷ splice xs o ds

module _ {ℓ} {A : Type ℓ} where
  pub length-append : (xs ys : List A) → length (xs ++ ys) ≡ length xs + length ys
  length-append [] ys = omega arith
  length-append (x ∷ xs) ys = omega (arith, length-append xs ys)

  pub length-take : (n : ℕ) (xs : List A) → length (take n xs) ≡ min n (length xs)
  length-take zero xs = omega arith
  length-take (suc n) [] = omega arith
  length-take (suc n) (x ∷ xs) = omega (arith, length-take n xs)

  pub length-drop : (n : ℕ) (xs : List A) → length (drop n xs) ≡ length xs - n
  length-drop zero xs = omega arith
  length-drop (suc n) [] = omega arith
  length-drop (suc n) (x ∷ xs) = omega (arith, length-drop n xs)

  pub length-tabulate : (f : ℕ → A) (i n : ℕ) → length (tabulate f i n) ≡ n
  length-tabulate f i zero = refl
  length-tabulate f i (suc n) = ap suc (length-tabulate f (suc i) n)

  pub length-overlay : (ds xs : List A) → length (overlay ds xs) ≡ length xs
  length-overlay [] xs = refl
  length-overlay (d ∷ ds) [] = refl
  length-overlay (d ∷ ds) (x ∷ xs) = ap suc (length-overlay ds xs)

  pub length-splice : (xs : List A) (o : ℕ) (ds : List A) → length (splice xs o ds) ≡ length xs
  length-splice xs zero ds = length-overlay ds xs
  length-splice [] (suc o) ds = refl
  length-splice (x ∷ xs) (suc o) ds = ap suc (length-splice xs o ds)

module _ {ℓ} {A : Type ℓ} where
  pub take-append-drop : (n : ℕ) (xs : List A) → take n xs ++ drop n xs ≡ xs
  take-append-drop zero xs = refl
  take-append-drop (suc n) [] = refl
  take-append-drop (suc n) (x ∷ xs) = ap (◌∷◌ x) (take-append-drop n xs)

  pub take_of_le : (n : ℕ) (xs : List A) → length xs ≤ n → take n xs ≡ xs
  take_of_le zero [] h = refl
  take_of_le zero (x ∷ xs) h = absurd (omega arith)
  take_of_le (suc n) [] h = refl
  take_of_le (suc n) (x ∷ xs) h = ap (◌∷◌ x) (take_of_le n xs (omega arith))

  pub drop_of_le : (n : ℕ) (xs : List A) → length xs ≤ n → drop n xs ≡ []
  drop_of_le zero [] h = refl
  drop_of_le zero (x ∷ xs) h = absurd (omega arith)
  drop_of_le (suc n) [] h = refl
  drop_of_le (suc n) (x ∷ xs) h = drop_of_le n xs (omega arith)

  pub take-nil : (n : ℕ) → take {A = A} n [] ≡ []
  take-nil zero = refl
  take-nil (suc n) = refl

  pub drop-nil : (n : ℕ) → drop {A = A} n [] ≡ []
  drop-nil zero = refl
  drop-nil (suc n) = refl

  pub take-append :
      (n : ℕ) (xs ys : List A) → take n (xs ++ ys) ≡ take n xs ++ take (n - length xs) ys
  take-append zero xs ys = ap (λ k. take k ys) {x = 0} (omega arith)
  take-append (suc n) [] ys = ap (λ k. take k ys) {x = suc n} (omega arith)
  take-append (suc n) (x ∷ xs) ys = ap (◌∷◌ x) (
      rw (take-append n xs ys)
        (let e : n - length xs ≡ suc n - suc (length xs) = omega arith in rw e))

  pub drop-append :
      (n : ℕ) (xs ys : List A) → drop n (xs ++ ys) ≡ drop n xs ++ drop (n - length xs) ys
  drop-append zero xs ys = ap (λ k. xs ++ drop k ys) {x = 0} (omega arith)
  drop-append (suc n) [] ys = ap (λ k. drop k ys) {x = suc n} (omega arith)
  drop-append (suc n) (x ∷ xs) ys =
      let e : n - length xs ≡ suc n - suc (length xs) = omega arith in rw (drop-append n xs ys, e)

  pub take-take : (m n : ℕ) (xs : List A) → take m (take n xs) ≡ take (min m n) xs
  take-take zero n xs = ap (λ k. take k xs) {x = 0} (omega arith)
  take-take (suc m) zero xs = ap (λ k. take k xs) {x = 0} (omega arith)
  take-take (suc m) (suc n) [] = sym_nil (min (suc m) (suc n))
    where
      sym_nil : (k : ℕ) → [] ≡ take {A = A} k []
      sym_nil zero = refl
      sym_nil (suc k) = refl
  take-take (suc m) (suc n) (x ∷ xs) = step (take-take m n xs) (omega arith)
    where
      step :
          take m (take n xs) ≡ take (min m n) xs
          → suc (min m n) ≡ min (suc m) (suc n)
          → x ∷ take m (take n xs) ≡ take (min (suc m) (suc n)) (x ∷ xs)
      step e k = rw (e, ← k)

  pub drop-drop : (m n : ℕ) (xs : List A) → drop m (drop n xs) ≡ drop (n + m) xs
  drop-drop m zero xs = ap (λ k. drop k xs) (omega arith)
  drop-drop m (suc n) [] = drop_both m (suc n + m)
    where
      drop_both : (i j : ℕ) → drop {A = A} i [] ≡ drop j []
      drop_both zero zero = refl
      drop_both zero (suc j) = refl
      drop_both (suc i) zero = refl
      drop_both (suc i) (suc j) = refl
  drop-drop m (suc n) (x ∷ xs) =
      let e : suc (n + m) ≡ suc n + m = omega arith in rw (← e) (drop-drop m n xs)

  pub overlay-append :
      (ds xs ys : List A)
      → overlay ds (xs ++ ys) ≡ overlay (take (length xs) ds) xs ++ overlay (drop (length xs) ds) ys
  overlay-append [] [] ys = refl
  overlay-append [] (x ∷ xs) ys = refl
  overlay-append (d ∷ ds) [] ys = refl
  overlay-append (d ∷ ds) (x ∷ xs) ys = ap (◌∷◌ d) (overlay-append ds xs ys)

  pub splice-append :
      (xs ys : List A) (o : ℕ) (ds : List A)
      → o ≤ length xs
      → splice (xs ++ ys) o ds
        ≡ splice xs o (take (length xs - o) ds) ++ overlay (drop (length xs - o) ds) ys
  splice-append xs ys zero ds h =
      let e : length xs ≡ length xs - 0 = omega arith in rw (← e) (overlay-append ds xs ys)
  splice-append [] ys (suc o) ds h = absurd (omega arith)
  splice-append (x ∷ xs) ys (suc o) ds h =
      let e : length xs - o ≡ suc (length xs) - suc o = omega arith in
      rw (← e) (ap (◌∷◌ x) (splice-append xs ys o ds (omega arith)))

  pub splice-skip :
      (xs ys : List A) (k o : ℕ) (ds : List A)
      → k ≡ length xs + o
      → splice (xs ++ ys) k ds ≡ xs ++ splice ys o ds
  splice-skip [] ys k o ds e = let e' : k ≡ o = omega arith in rw e'
  splice-skip (x ∷ xs) ys zero o ds e = absurd (omega arith)
  splice-skip (x ∷ xs) ys (suc k) o ds e = ap (◌∷◌ x) (splice-skip xs ys k o ds (omega arith))

  -- What was written is what is there.
  pub take-overlay :
      (ds xs : List A) → length ds ≤ length xs → take (length ds) (overlay ds xs) ≡ ds
  take-overlay [] xs h = refl
  take-overlay (d ∷ ds) [] h = absurd (omega arith)
  take-overlay (d ∷ ds) (x ∷ xs) h = ap (◌∷◌ d) (take-overlay ds xs (omega arith))

  pub take-drop-splice :
      (xs : List A) (o : ℕ) (ds : List A)
      → o + length ds ≤ length xs
      → take (length ds) (drop o (splice xs o ds)) ≡ ds
  take-drop-splice xs zero ds h = take-overlay ds xs (omega arith)
  take-drop-splice [] (suc o) [] h = refl
  take-drop-splice [] (suc o) (d ∷ ds) h = absurd (omega arith)
  take-drop-splice (x ∷ xs) (suc o) ds h = take-drop-splice xs o ds (omega arith)

  -- Below the place of the write nothing changes.
  pub take-splice : (xs : List A) (o : ℕ) (ds : List A) → take o (splice xs o ds) ≡ take o xs
  take-splice xs zero ds = refl
  take-splice [] (suc o) ds = refl
  take-splice (x ∷ xs) (suc o) ds = ap (◌∷◌ x) (take-splice xs o ds)

  -- Nor above it.
  pub drop-overlay :
      (ds xs : List A)
      → length ds ≤ length xs
      → drop (length ds) (overlay ds xs) ≡ drop (length ds) xs
  drop-overlay [] xs h = refl
  drop-overlay (d ∷ ds) [] h = refl
  drop-overlay (d ∷ ds) (x ∷ xs) h = drop-overlay ds xs (omega arith)

  pub drop-splice :
      (xs : List A) (o k : ℕ) (ds : List A)
      → k ≡ o + length ds
      → drop k (splice xs o ds) ≡ drop k xs
  drop-splice xs zero k ds e = let e' : k ≡ length ds = omega arith in rw e' (drop_overlay ds xs)
    where
      drop_overlay : (ds xs : List A) → drop (length ds) (overlay ds xs) ≡ drop (length ds) xs
      drop_overlay [] xs = refl
      drop_overlay (d ∷ ds) [] = refl
      drop_overlay (d ∷ ds) (x ∷ xs) = drop_overlay ds xs
  drop-splice [] (suc o) k ds e = refl
  drop-splice (x ∷ xs) (suc o) zero ds e = absurd (omega arith)
  drop-splice (x ∷ xs) (suc o) (suc k) ds e = drop-splice xs o k ds (omega arith)

-- Lists of blocks that all have one length.
module _ {ℓ} {A : Type ℓ} where
  abbrev pub Blocks : ℕ → List (List A) → Type 0
  Blocks n = All (λ b. length b ≡ n)

  pub length-concat :
      (n : ℕ) (bs : List (List A)) → Blocks n bs → length (concat bs) ≡ length bs * n
  length-concat n [] h = omega arith
  length-concat n (b ∷ bs) h =
      omega (arith, length-append b (concat bs), length-concat n bs h.1, h.0)

  pub concat-append : (bs cs : List (List A)) → concat (bs ++ cs) ≡ concat bs ++ concat cs
  concat-append [] cs = refl
  concat-append (b ∷ bs) cs = rw (concat-append bs cs, append_assoc b (concat bs) (concat cs)) refl

  pub All-append {κ} : (P : A → Type κ) (xs ys : List A) → All P xs → All P ys → All P (xs ++ ys)
  All-append P [] ys h k = k
  All-append P (x ∷ xs) ys h k = (h.0, All-append P xs ys h.1 k)

  pub All-take {κ} : (P : A → Type κ) (n : ℕ) (xs : List A) → All P xs → All P (take n xs)
  All-take P zero xs h = tt
  All-take P (suc n) [] h = tt
  All-take P (suc n) (x ∷ xs) h = (h.0, All-take P n xs h.1)

  pub All-drop {κ} : (P : A → Type κ) (n : ℕ) (xs : List A) → All P xs → All P (drop n xs)
  All-drop P zero xs h = h
  All-drop P (suc n) [] h = tt
  All-drop P (suc n) (x ∷ xs) h = All-drop P n xs h.1
