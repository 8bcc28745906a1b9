-- ===== src/AttrOps/Links.antt =====
-- The buffer that `mgridfs_readlink` fills, and the times of `mgridfs_utimens`.
use mgridfs.Base.{
  ℕ, ◌-◌, ◌<◌, min, ◌≡◌, refl, ap, ap₂, ◌∙◌, ◌≢◌, false, List, [], ◌∷◌, ◌++◌, append_assoc, arith,
  ◌==◌, length, take, drop, tabulate, length-append, length-take, length-tabulate, take_of_le,
  drop_of_le, drop-append, Name,
}
use mgridfs.LocalFile.Contents.{take_before}
use mgridfs.World.{Env}
use mgridfs.AttrOps.{link_buffer, mgridfs_utimens}

-- For a buffer of `len` bytes, `mgridfs_readlink` writes exactly `len`: the target as far as it fits,
-- and a null at the end.
pub link_buffer_lem :
    (len : ℕ) (target : Name)
    → 0 < len
    → (length (link_buffer len target) ≡ len)
      × (take (min (len - 1) (length target)) (link_buffer len target) ≡ take (len - 1) target)
      × (drop (len - 1) (link_buffer len target) ≡ 0 ∷ [])
unfolding link_buffer
link_buffer_lem len target h =
    let shown = take (len - 1) target in
    let size : length shown ≡ min (len - 1) (length target) = length-take (len - 1) target in
    let pad : List ℕ = tabulate (λ i. 0) 0 (len - 1 - length shown) in
    let last : List ℕ = 0 ∷ [] in
    let padding : length pad ≡ len - 1 - length shown =
      length-tabulate (λ i. 0) 0 (len - 1 - length shown) in
    let all : length (shown ++ pad) ≡ len - 1 =
      omega (arith, length-append shown pad, size, padding) in
    let k : len - 1 - length (shown ++ pad) ≡ 0 = omega (arith, all) in
    (
      omega (arith, length-append (shown ++ pad) last, all),
      ap (take (min (len - 1) (length target))) (append_assoc shown pad last)
          ∙ take_before (min (len - 1) (length target)) shown (pad ++ last) (omega (arith, size))
          ∙ take_of_le (min (len - 1) (length target)) shown (omega (arith, size)),
      drop-append (len - 1) (shown ++ pad) last
          ∙ ap₂ ◌++◌ (drop_of_le (len - 1) (shown ++ pad) (omega (arith, all)))
              (ap (λ n. drop n last) k),
    )

-- Any two times that are not zero have the same effect: the present time is set, whatever was asked.
pub mgridfs_utimens-nonzero :
    (e : Env) (file : Name) (access access' modification modification' : ℕ)
    → modification ≢ 0
    → modification' ≢ 0
    → mgridfs_utimens e file access modification ≡ mgridfs_utimens e file access' modification'
unfolding mgridfs_utimens
mgridfs_utimens-nonzero e file access access' modification modification' h h' =
    let z : (modification == 0) ≡ false = ground arith in
    let z' : (modification' == 0) ≡ false = ground arith in rw (z, z') refl
