-- ===== src/Utils/Paths.antt =====
-- The parts of a path, and the block count.
use mathlib.Core.List.{reverse, reverse-append, reverse-cons, reverse-reverse}
use mgridfs.Base.{
  ℕ, ◌+◌, ◌*◌, ◌^◌, ◌≤◌, ◌<◌, ◌≡◌, refl, ap, ap₂, ◌∙◌, false, Option, none, some, [], ◌∷◌, ◌++◌,
  map, append_assoc, arith, ◌==◌, All, All-append, Name, bytes, is_empty,
}
use mgridfs.Utils.{
  slash, drop_slashes, before_slash, from_slash, or_else, basename, dirname, cut_root,
  get_path_basename, get_path_dirname, get512_block_count, upper, to_upper,
}

-- No byte is a slash.
abbrev pub NoSlash : Name → Type 0
NoSlash = All (λ c. (c == slash) ≡ false)

-- Nothing, or a path that does not end in a slash.
abbrev pub Trimmed : Name → Type 0
Trimmed d = drop_slashes (reverse d) ≡ reverse d

before_slash-append : (n r : Name) → NoSlash n → before_slash (n ++ slash ∷ r) ≡ n
unfolding before_slash
before_slash-append [] r h = refl
before_slash-append (c ∷ n) r h = rw h.0 (ap (◌∷◌ c) (before_slash-append n r h.1))

from_slash-append : (n r : Name) → NoSlash n → from_slash (n ++ slash ∷ r) ≡ slash ∷ r
unfolding from_slash
from_slash-append [] r h = refl
from_slash-append (c ∷ n) r h = rw h.0 (from_slash-append n r h.1)

-- A name with no slash in front of more text is not stripped.
drop_slashes-append : (n r : Name) → NoSlash n → is_empty n ≡ false → drop_slashes (n ++ r) ≡ n ++ r
unfolding drop_slashes
drop_slashes-append [] r h e = cc
drop_slashes-append (c ∷ n) r h e = rw h.0

reverse-NoSlash : (n : Name) → NoSlash n → NoSlash (reverse n)
reverse-NoSlash [] h = tt
reverse-NoSlash (c ∷ n) h =
    rw reverse-cons (
      All-append (λ b. (b == slash) ≡ false) (reverse n) (c ∷ []) (reverse-NoSlash n h.1) (h.0, tt))

is_empty-append : (d n : Name) (c : ℕ) → is_empty (d ++ c ∷ n) ≡ false
is_empty-append [] n c = refl
is_empty-append (b ∷ d) n c = refl

is_empty-reverse : (n : Name) → is_empty n ≡ false → is_empty (reverse n) ≡ false
is_empty-reverse [] e = cc
is_empty-reverse (c ∷ n) e = rw reverse-cons (is_empty-append (reverse n) [] c)

or_else-cut : (n d : Name) → NoSlash n → is_empty n ≡ false → cut_root (or_else n d) ≡ n
or_else-cut [] d h e = cc
or_else-cut (c ∷ n) d h e = rw h.0

reverse_path : (d n : Name) → reverse (d ++ slash ∷ n) ≡ reverse n ++ slash ∷ reverse d
reverse_path d n =
    reverse-append d (slash ∷ n)
    ∙ ap (λ r. r ++ reverse d) (reverse-cons slash n)
    ∙ append_assoc (reverse n) (slash ∷ []) (reverse d)

drop_slashes-slash : (r : Name) → drop_slashes (slash ∷ r) ≡ drop_slashes r
unfolding drop_slashes
drop_slashes-slash r = refl

-- A path that is a directory, a slash and a name has that name and that directory; below the root
-- the directory is the slash.
pub path_parts :
    (d n : Name)
    → NoSlash n
    → is_empty n ≡ false
    → Trimmed d
    → (get_path_basename (d ++ slash ∷ n) ≡ n)
      × (get_path_dirname (d ++ slash ∷ n) ≡ or_else d (bytes "/"))
unfolding get_path_basename get_path_dirname basename dirname
path_parts d n h e t =
    let r = reverse n in
    let flipped = reverse_path d n in
    let slashless = reverse-NoSlash n h in
    let some_name = is_empty-reverse n e in
    let whole : drop_slashes (reverse (d ++ slash ∷ n)) ≡ r ++ slash ∷ reverse d =
      ap drop_slashes flipped ∙ drop_slashes-append r (slash ∷ reverse d) slashless some_name in
    let name : before_slash (drop_slashes (reverse (d ++ slash ∷ n))) ≡ r =
      ap before_slash whole ∙ before_slash-append r (reverse d) slashless in
    let parent : from_slash (drop_slashes (reverse (d ++ slash ∷ n))) ≡ slash ∷ reverse d =
      ap from_slash whole ∙ from_slash-append r (reverse d) slashless in
    (
      rw (is_empty-append d n slash, name, reverse-reverse n) (or_else-cut n (bytes "/") h e),
      rw (
        is_empty-append d n slash,
        parent,
        whole,
        is_empty-append r (reverse d) slash,
        drop_slashes-slash (reverse d),
        t,
        reverse-reverse d,
      ),
    )

-- The root has no base name and is its own directory.
pub root_parts : (get_path_basename (bytes "/") ≡ []) × (get_path_dirname (bytes "/") ≡ bytes "/")
unfolding get_path_basename get_path_dirname basename dirname drop_slashes before_slash from_slash
root_parts = (refl, refl)

-- As many blocks of 512 bytes as the size needs, and no more.
pub get512_block_count_bounds :
    (size : ℕ)
    → size + 511 < 2 ^ 64
    → (size ≤ 512 * get512_block_count size) × (512 * get512_block_count size < size + 512)
unfolding get512_block_count
get512_block_count_bounds size h = omega arith

upper_idem : (c : ℕ) → upper (upper c) ≡ upper c
unfolding upper
upper_idem c = ground arith

-- Upper case text stays as it is.
pub to_upper_idem : (s : Option Name) → to_upper (to_upper s) ≡ to_upper s
unfolding to_upper
to_upper_idem none = refl
to_upper_idem (some s) = ap some (map_twice s)
  where
    map_twice : (s : Name) → map upper (map upper s) ≡ map upper s
    map_twice [] = refl
    map_twice (c ∷ s) = ap₂ ◌∷◌ (upper_idem c) (map_twice s)
