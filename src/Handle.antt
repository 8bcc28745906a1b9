-- ===== src/Handle.antt =====
-- file_handle.h and file_handle.cpp: the table of open handles, and the generator of new ones.
-- `_fileHandles` is a list of pairs of handle and file name; `_FILE_HANDLE` is `next`. The statics
-- of the class are one state, passed along; the object `FileHandle` is a record of its two fields.
pub mod Table
pub mod Scan
pub mod Assign
pub mod Wrap
pub mod Release
use mgridfs.Base.{
  ℕ, zero, suc, ◌+◌, Bool, true, false, ◌&&◌, Option, none, some, List, [], ◌∷◌, map, ltb, leb,
  ◌==◌, if◌then◌else◌, length, add64, Name, name_eq, is_empty,
}

abbrev pub Table : Type 0
Table = List (ℕ × Name)

pub record Handles : Type 0 where
  pub table : Table
  pub next : ℕ

pub record FileHandle : Type 0 where
  pub filename : Name
  pub fh : ℕ

abbrev pub min_file_handle : ℕ
min_file_handle = 10

abbrev pub no_handles : Handles
no_handles = record { table = []; next = 10 }

-- `_fileHandles.left.find(fh)`.
unfoldable pub left_find : ℕ → Table → Option Name
left_find k [] = none
left_find k ((j, n) ∷ t) = if j == k then some n else left_find k t

abbrev pub is_some {ℓ} : {A : Type ℓ} → Option A → Bool
is_some none = false
is_some (some a) = true

abbrev pub name_or_empty : Option Name → Name
name_or_empty none = []
name_or_empty (some n) = n

-- The constructor: the name is that of the handle, if there is one.
unfoldable pub file_handle : Handles → Name → ℕ → FileHandle
file_handle st path fh = record {
  filename = if fh == 0 then path else name_or_empty (left_find fh st.table);
  fh = fh;
}

unfoldable pub is_valid : Handles → FileHandle → Bool
is_valid st h = is_some (left_find h.fh st.table)

-- One round's handle: the low values are skipped.
abbrev pub skip_low : ℕ → ℕ
skip_low c = if leb c min_file_handle then min_file_handle else c

-- The loop of `generateNextHandle`; `none` means that the fuel ran out.
unfoldable pub scan : ℕ → ℕ → Table → ℕ → Option ℕ
scan zero orig t c = none
scan (suc fuel) orig t c =
    let rest = scan fuel orig t (add64 (skip_low c) 1) in
    let found = if is_some (left_find (skip_low c) t) then rest else some (skip_low c) in
    if c == orig then some c else found

abbrev pub generated : ℕ → Handles → Option ℕ → Option (ℕ × Handles)
generated orig st none = none
generated orig st (some h) = some ((if orig == h then 0 else h), record st { next = h })

-- The fuel is a round for each open handle and two more.
unfoldable pub generate_next_handle : Handles → Option (ℕ × Handles)
generate_next_handle st =
    generated st.next st (scan (length st.table + 2) st.next st.table (add64 st.next 1))

-- `_fileHandles.insert`: a handle that is there stays as it is.
unfoldable pub insert : ℕ → Name → Handles → Handles
insert k n st =
    if is_some (left_find k st.table) then st else record st { table = (k, n) ∷ st.table }

abbrev pub assigned : FileHandle → Option (ℕ × Handles) → Option (ℕ × FileHandle × Handles)
assigned h none = none
assigned h (some (k, st)) =
    some (k, record h { fh = k }, (if k == 0 then st else insert k h.filename st))

unfoldable pub assign_handle : FileHandle → Handles → Option (ℕ × FileHandle × Handles)
assign_handle h st =
    if is_empty h.filename then some (0, h, st) else assigned h (generate_next_handle st)

-- `_fileHandles.erase` of a pair.
unfoldable pub erase : ℕ → Name → Table → Table
erase k n [] = []
erase k n ((j, m) ∷ t) = if j == k && name_eq m n then erase k n t else (j, m) ∷ erase k n t

unfoldable pub unassign_handle : FileHandle → Handles → Bool × Handles
unassign_handle h st =
    (true, (if h.fh == 0 then st else record st { table = erase h.fh h.filename st.table }))

-- The order of `std::string`.
unfoldable pub name_le : Name → Name → Bool
name_le [] n = true
name_le (x ∷ xs) [] = false
name_le (x ∷ xs) (y ∷ ys) = if x == y then name_le xs ys else ltb x y

unfoldable pub insert_by_name : ℕ × Name → Table → Table
insert_by_name e [] = e ∷ []
insert_by_name e (d ∷ t) = if name_le e.1 d.1 then e ∷ d ∷ t else d ∷ insert_by_name e t

-- The right view of the table: the pairs in the order of their names.
unfoldable pub right_view : Table → Table
right_view [] = []
right_view (e ∷ t) = insert_by_name e (right_view t)

-- The handles from `right.find(filename)` to the end of that view.
unfoldable pub handles_from : Name → Table → List ℕ
handles_from n [] = []
handles_from n ((j, m) ∷ t) = if name_eq m n then map (λ e. e.0) ((j, m) ∷ t) else handles_from n t

unfoldable pub erase_all : List ℕ → Name → Table → Table
erase_all [] n t = t
erase_all (k ∷ ks) n t = erase_all ks n (erase k n t)

unfoldable pub unassign_all_handles : Name → Handles → Bool × Handles
unassign_all_handles n st =
    (true, record st { table = erase_all (handles_from n (right_view st.table)) n st.table })
