-- ===== src/Utils.antt =====
-- utils.h and utils.cpp: path names, upper case, and counts of disk blocks. A path is the bytes of
-- a C string. `basename` and `dirname` are those of POSIX (libgen.h).
pub mod Paths
use mathlib.Core.List.{reverse}
use mgridfs.Base.{
  ℕ, ◌-◌, ◌/◌, ◌&&◌, Option, none, some, List, [], ◌∷◌, map, leb, ◌==◌, if◌then◌else◌, add64, Name,
  bytes, is_empty,
}

abbrev pub slash : ℕ
slash = b'/'

unfoldable pub drop_slashes : Name → Name
drop_slashes [] = []
drop_slashes (c ∷ cs) = if c == slash then drop_slashes cs else c ∷ cs

unfoldable pub before_slash : Name → Name
before_slash [] = []
before_slash (c ∷ cs) = if c == slash then [] else c ∷ before_slash cs

unfoldable pub from_slash : Name → Name
from_slash [] = []
from_slash (c ∷ cs) = if c == slash then c ∷ cs else from_slash cs

abbrev pub or_else : Name → Name → Name
or_else [] d = d
or_else (c ∷ cs) d = c ∷ cs

-- Both work from the end of the path: trailing slashes, then the last component.
unfoldable pub basename : Name → Name
basename path =
    if is_empty path
    then bytes "."
    else or_else (reverse (before_slash (drop_slashes (reverse path)))) (bytes "/")

unfoldable pub dirname : Name → Name
dirname path =
    let stripped = drop_slashes (reverse path) in
    let parent = from_slash stripped in
    if is_empty path
    then bytes "."
    else if is_empty stripped
    then bytes "/"
    else if is_empty parent
    then bytes "."
    else or_else (reverse (drop_slashes parent)) (bytes "/")

-- A base name that begins with a slash is cut to nothing.
abbrev pub cut_root : Name → Name
cut_root [] = []
cut_root (c ∷ cs) = if c == slash then [] else c ∷ cs

unfoldable pub get_path_basename : Name → Name
get_path_basename path = cut_root (basename path)

unfoldable pub get_path_dirname : Name → Name
get_path_dirname path = dirname path

-- `toupper` of the C locale, and the loop over a string; the null pointer is `none`.
unfoldable pub upper : ℕ → ℕ
upper c = if leb b'a' c && leb c b'z' then c - 32 else c

unfoldable pub to_upper : Option Name → Option Name
to_upper none = none
to_upper (some s) = some (map upper s)

unfoldable pub get512_block_count : ℕ → ℕ
get512_block_count size = add64 size 511 / 512
