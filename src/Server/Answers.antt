-- ===== src/Server/Answers.antt =====
-- The server of Server/Memory.antt answers everything, and meets the laws on documents.
use mgridfs.Base.{
  ℕ, ◌≡◌, refl, ap, ◌∙◌, inl, inr, Bool, true, false, Option, none, some, List, [], ◌∷◌, arith,
  if◌then◌else◌, Bool-cases, length, Name, name_eq, name_eq_refl,
}
use mgridfs.Server.{GridFile, Changes, Selector, by_name, ok}
use mgridfs.Server.Laws.{or_old, changed, DocumentLaws, Calm}
use mgridfs.Server.Memory.{
  Doc, change, meets, update_docs, find_doc, content_of, grid_file_of, chunk_of, query_name, memory,
  file_of,
}

updated_ok :
    (sel : Selector ℕ) (ch : Changes) (db : List Doc) → (n : ℕ) × ((update_docs sel ch db).0 ≡ ok n)
unfolding update_docs
updated_ok sel ch [] = (0, refl)
updated_ok sel ch (d ∷ ds) = elim (Bool-cases (meets sel d)) [
  | inl y ↦ (1, rw y refl)
  | inr n ↦ (let (k, e) = updated_ok sel ch ds in (k, rw n e))
]

pub memory_calm : Calm memory
memory_calm = record {
  connect = λ db. refl;
  grid_fs = λ db. refl;
  find_file = λ q db. (grid_file_of (find_doc (query_name q) db), refl);
  store_file = λ buf n db. (length db, refl);
  remove_file = λ n db. refl;
  update = λ sel ch db. updated_ok sel ch db;
  get_chunk = λ g i db lt. (chunk_of i (content_of (find_doc g.filename db)), refl);
}

pub if_true : {A : Type 0} (b : Bool) (x y : A) → b ≡ true → (if b then x else y) ≡ x
if_true true x y h = refl
if_true false x y h = absurd (ground arith)

if_false : {A : Type 0} (b : Bool) (x y : A) → b ≡ false → (if b then x else y) ≡ y
if_false true x y h = absurd (ground arith)
if_false false x y h = refl

pub updated_document :
    (n : Name) (ch : Changes) (db : List Doc) (d : Doc)
    → find_doc n db ≡ some d
    → ((update_docs (by_name n) ch db).0 ≡ ok 1)
      × (ch.filename ≡ none → find_doc n (update_docs (by_name n) ch db).1 ≡ some (change ch d))
      × ((to : Name)
          → ch.filename ≡ some to
          → find_doc to db ≡ none
          → find_doc to (update_docs (by_name n) ch db).1 ≡ some (change ch d))
unfolding find_doc update_docs
updated_document n ch [] d h = absurd (cc h)
updated_document n ch (x ∷ xs) d h = elim (Bool-cases (name_eq x.name n)) [
  | inl y ↦
      let same : x ≡ d = ground (arith, y) in
      let here : some (change ch x) ≡ some (change ch d) = ap (λ t. some (change ch t)) same in
      rw y (
        refl,
        λ q. if_true (name_eq (or_old ch.filename x.name) n) _ (find_doc n xs) (rw q y) ∙ here,
        λ to q absent.
            if_true (name_eq (or_old ch.filename x.name) to) _ (find_doc to xs)
              (rw q (name_eq_refl to))
            ∙ here,
      )
  | inr k ↦
      let rest : find_doc n xs ≡ some d = ground (arith, k) in
      let ih = updated_document n ch xs d rest in
      rw k (
        ih.0,
        λ q. if_false (name_eq x.name n) _ _ k ∙ ih.1 q,
        λ to q absent. elim (Bool-cases (name_eq x.name to)) [
          | inl t ↦ absurd (ground (arith, t))
          | inr f ↦ if_false (name_eq x.name to) _ _ f ∙ ih.2 to q (ground (arith, f))
        ],
      )
]

pub missed_document :
    (n : Name) (ch : Changes) (db : List Doc)
    → find_doc n db ≡ none
    → (update_docs (by_name n) ch db).0 ≡ ok 0
unfolding find_doc update_docs
missed_document n ch [] h = refl
missed_document n ch (x ∷ xs) h = elim (Bool-cases (name_eq x.name n)) [
  | inl y ↦ absurd (ground (arith, y))
  | inr k ↦ rw k (missed_document n ch xs (ground (arith, k)))
]

pub grid_file_of-eq-some :
    (o : Option Doc) (g : GridFile)
    → grid_file_of o ≡ some g
    → (d : Doc) × (o ≡ some d) × (file_of d ≡ g)
grid_file_of-eq-some none g h = absurd (cc h)
grid_file_of-eq-some (some d) g h = (d, refl, cc h)

pub grid_file_of-eq-none : (o : Option Doc) → grid_file_of o ≡ none → o ≡ none
grid_file_of-eq-none none h = refl
grid_file_of-eq-none (some d) h = absurd (cc h)

unfoldable pub memory_documents : DocumentLaws memory
unfolding find_doc
memory_documents = record {
  document = λ db n. grid_file_of (find_doc n db);
  found = λ n db o h. cc h;
  connect_keeps = λ db n. refl;
  grid_fs_keeps = λ db n. refl;
  meets = λ n ch db g k h q.
      let (d, e, same) = grid_file_of-eq-some (find_doc n db) g h in
      let one : 1 ≡ k = cc ((updated_document n ch db d e).0, q) in omega arith;
  misses = λ n ch db k h q.
      let absent = grid_file_of-eq-none (find_doc n db) h in
      let zero_met : 0 ≡ k = cc (missed_document n ch db absent, q) in omega arith;
  updates = λ n ch db g k h q name.
      let (d, e, same) = grid_file_of-eq-some (find_doc n db) g h in
      ap grid_file_of ((updated_document n ch db d e).1 name) ∙ ap (λ x. some (changed ch x)) same;
  renames = λ n to ch db g k h absent q name.
      let (d, e, same) = grid_file_of-eq-some (find_doc n db) g h in
      ap grid_file_of
        ((updated_document n ch db d e).2 to name (grid_file_of-eq-none (find_doc to db) absent))
      ∙ ap (λ x. some (changed ch x)) same;
}
