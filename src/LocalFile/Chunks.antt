-- ===== src/LocalFile/Chunks.antt =====
-- What the loops of `_write`, `read` and `createFlushBuffer` do, said of the chunks put end to end.

use mgridfs.Base.{
  ℕ, zero, suc, ◌+◌, ◌-◌, ◌*◌, ◌≤◌, ◌<◌, ◌≡◌, refl, sym, ap, ◌∙◌, inl, inr, Option, none, some,
  List, [], ◌∷◌, ◌++◌, arith, ltb, Bool-cases, length, take, drop, concat, splice, Blocks,
  length-drop, length-splice, splice-append, take_of_le, drop_of_le, take-append, drop-append,
}
use mgridfs.LocalFile.{round, write_chunks}

module _ {ℓ} {A : Type ℓ} where
  splice-nil : (xs : List A) (o : ℕ) → splice xs o [] ≡ xs
  splice-nil xs zero = refl
  splice-nil [] (suc o) = refl
  splice-nil (x ∷ xs) (suc o) = ap (◌∷◌ x) (splice-nil xs o)

  take-round : (room : ℕ) (ds : List A) → take (round room (length ds)) ds ≡ take room ds
  take-round room ds = elim (Bool-cases (ltb room (length ds))) [
    | inl e ↦ rw e
    | inr e ↦
        rw e (take_of_le (length ds) ds (omega arith) ∙ sym (take_of_le room ds (ground arith)))
  ]

  drop-round : (room : ℕ) (ds : List A) → drop (round room (length ds)) ds ≡ drop room ds
  drop-round room ds = elim (Bool-cases (ltb room (length ds))) [
    | inl e ↦ rw e
    | inr e ↦
        rw e (drop_of_le (length ds) ds (omega arith) ∙ sym (drop_of_le room ds (ground arith)))
  ]

  -- Blocks put end to end are cut where a number of whole blocks ends.
  pub concat-take :
      (n k : ℕ) (bs : List (List A)) → Blocks n bs → concat (take k bs) ≡ take (k * n) (concat bs)
  concat-take n zero bs h = ap (λ m. take m (concat bs)) {x = 0} (omega arith)
  concat-take n (suc k) [] h = sym (take_of_le (suc k * n) [] (omega arith))
  concat-take n (suc k) (b ∷ bs) h =
      let e : suc k * n - length b ≡ k * n = omega (arith, h.0) in
      let le : length b ≤ suc k * n = omega (arith, h.0) in
      rw (take-append (suc k * n) b (concat bs), e, take_of_le (suc k * n) b le)
        (ap (◌++◌ b) (concat-take n k bs h.1))

  pub concat-drop :
      (n k : ℕ) (bs : List (List A)) → Blocks n bs → concat (drop k bs) ≡ drop (k * n) (concat bs)
  concat-drop n zero bs h = ap (λ m. drop m (concat bs)) {x = 0} (omega arith)
  concat-drop n (suc k) [] h = sym (drop_of_le (suc k * n) [] (omega arith))
  concat-drop n (suc k) (b ∷ bs) h =
      let e : suc k * n - length b ≡ k * n = omega (arith, h.0) in
      let le : length b ≤ suc k * n = omega (arith, h.0) in
      rw (drop-append (suc k * n) b (concat bs), e, drop_of_le (suc k * n) b le)
        (concat-drop n k bs h.1)

-- A write that fits puts its bytes at `start`, and keeps the chunks' number and size.
pub record Written (cs start : ℕ) (ds : List ℕ) (chunks : List (List ℕ))
    (out : Option (List (List ℕ))) : Type 0 where
  pub result : List (List ℕ)
  pub returned : out ≡ some result
  pub content : concat result ≡ splice (concat chunks) start ds
  pub blocks : Blocks cs result
  pub count : length result ≡ length chunks

pub write_chunks-Written :
    (cs start : ℕ) (ds : List ℕ) (chunks : List (List ℕ))
    → 0 < cs
    → start < cs
    → Blocks cs chunks
    → start + length ds ≤ length chunks * cs
    → Written cs start ds chunks (write_chunks cs start ds chunks)
unfolding write_chunks
write_chunks-Written cs start [] chunks pos_cs lt h fits = record {
  result = chunks;
  returned = refl;
  content = sym (splice-nil (concat chunks) start);
  blocks = h;
  count = refl;
}
write_chunks-Written cs start (d ∷ ds) [] pos_cs lt h fits = absurd (omega arith)
write_chunks-Written cs start (d ∷ ds) (b ∷ bs) pos_cs lt h fits =
    let all = d ∷ ds in
    let rest = drop (round (cs - start) (length all)) all in
    let e : rest ≡ drop (cs - start) all = drop-round (cs - start) all in
    let w =
      write_chunks-Written cs 0 rest bs pos_cs pos_cs h.1
        (rw e (omega (arith, length-drop (cs - start) all))) in
    record {
      result = splice b start (take (round (cs - start) (length all)) all) ∷ w.result;
      returned = rw w.returned;
      content = rw (
        w.content,
        take-round (cs - start) all,
        e,
        splice-append b (concat bs) start all (omega (arith, h.0)),
        h.0,
      );
      blocks = (length-splice b start (take (round (cs - start) (length all)) all) ∙ h.0, w.blocks);
      count = ap suc w.count;
    }

-- A write that does not fit runs off the end of the vector.
pub write_chunks-none :
    (cs start : ℕ) (ds : List ℕ) (chunks : List (List ℕ))
    → 0 < cs
    → start < cs
    → 0 < length ds
    → length chunks * cs < start + length ds
    → write_chunks cs start ds chunks ≡ none
unfolding write_chunks
write_chunks-none cs start [] chunks pos_cs lt some_bytes over = absurd (omega arith)
write_chunks-none cs start (d ∷ ds) [] pos_cs lt some_bytes over = refl
write_chunks-none cs start (d ∷ ds) (b ∷ bs) pos_cs lt some_bytes over =
    let all = d ∷ ds in
    let e = drop-round (cs - start) all in
    let len = length-drop (cs - start) all in
    rw (
      e,
      write_chunks-none cs 0 (drop (cs - start) all) bs pos_cs pos_cs (omega arith) (omega arith),
    )
