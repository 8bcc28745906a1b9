-- ===== src/Server/Memory.antt =====
-- A concrete database in memory that meets the laws of Server/Laws.antt: the documents with their
-- bytes, the latest first, cut into chunks of four bytes. No operation throws.
use mgridfs.Base.{
  ℕ, ◌+◌, ◌*◌, ◌/◌, ◌≡◌, refl, sym, ap, ◌∙◌, inl, inr, Bool, true, false, Option, none, some, List,
  [], ◌∷◌, arith, ◌==◌, if◌then◌else◌, Bool-cases, length, take, drop, Name, name_eq, name_eq→eq,
  name_eq_refl,
}
use mgridfs.Server.{
  Server, GridFile, Meta, no_meta, Query, named, directory_named, Changes, Selector, by_name, by_id,
  Reply, ok,
}
use mgridfs.Server.Laws.{or_old, merge, StoreLaws, ReadLaws, Document}

pub record Doc : Type 0 where
  pub id : ℕ
  pub name : Name
  pub content : List ℕ
  pub upload_date : ℕ
  pub metadata : Meta

abbrev pub change : Changes → Doc → Doc
change ch d = record d {
  name = or_old ch.filename d.name;
  upload_date = or_old ch.upload_date d.upload_date;
  metadata = merge ch.metadata d.metadata;
}

abbrev pub meets : Selector ℕ → Doc → Bool
meets (by_name n) d = name_eq d.name n
meets (by_id i) d = d.id == i

unfoldable pub update_docs : Selector ℕ → Changes → List Doc → Reply ℕ × List Doc
update_docs sel ch [] = (ok 0, [])
update_docs sel ch (d ∷ ds) =
    let rest = update_docs sel ch ds in
    if meets sel d then (ok 1, change ch d ∷ ds) else (rest.0, d ∷ rest.1)

unfoldable pub find_doc : Name → List Doc → Option Doc
find_doc n [] = none
find_doc n (d ∷ ds) = if name_eq d.name n then some d else find_doc n ds

unfoldable pub remove_docs : Name → List Doc → List Doc
remove_docs n [] = []
remove_docs n (d ∷ ds) = if name_eq d.name n then remove_docs n ds else d ∷ remove_docs n ds

abbrev pub content_of : Option Doc → Option (List ℕ)
content_of none = none
content_of (some d) = some d.content

abbrev pub grid_file_of : Option Doc → Option GridFile
grid_file_of none = none
grid_file_of (some d) = some (record {
  filename = d.name;
  content_length = length d.content;
  chunk_size = 4;
  upload_date = d.upload_date;
  metadata = d.metadata;
})

abbrev pub chunk_of : ℕ → Option (List ℕ) → Option (List ℕ)
chunk_of i none = none
chunk_of i (some buf) = some (take 4 (drop (i * 4) buf))

abbrev pub query_name : Query → Name
query_name (named n) = n
query_name (directory_named n) = n

unfoldable pub directory_docs : Name → List Doc → List (Option Name)
directory_docs n [] = []
directory_docs n (d ∷ ds) =
    let rest = directory_docs n ds in
    elim d.metadata.directory [
      | none ↦ rest
      | some m ↦ if name_eq m n then d.metadata.base ∷ rest else rest
    ]

abbrev pub memory : Server
memory = record {
  Db = List Doc;
  Oid = ℕ;
  connect = λ db. (ok tt, db);
  grid_fs = λ db. (ok tt, db);
  find_file = λ q db. ok (grid_file_of (find_doc (query_name q) db));
  store_file = λ buf n db. (
    ok (some (length db)),
    record { id = length db; name = n; content = buf; upload_date = 0; metadata = no_meta } ∷ db,
  );
  remove_file = λ n db. (ok tt, remove_docs n db);
  update = λ sel ch db. update_docs sel ch db;
  num_chunks = λ g. (g.content_length + 3) / 4;
  get_chunk = λ g i db. ok (chunk_of i (content_of (find_doc g.filename db)));
  list_directory = λ n db. ok (directory_docs n db);
  db_stats = λ db. ok none;
  absent_int = 0;
  obj_size = λ m. 0;
}

same_content :
    (b : Bool) (d d' : Doc) (rest : Option Doc)
    → d.content ≡ d'.content
    → content_of (if b then some d else rest) ≡ content_of (if b then some d' else rest)
same_content true d d' rest h = ap some h
same_content false d d' rest h = refl

pub update_keeps_lem :
    (sel : Selector ℕ) (ch : Changes) (db : List Doc) (n : Name)
    → ch.filename ≡ none
    → content_of (find_doc n (update_docs sel ch db).1) ≡ content_of (find_doc n db)
unfolding find_doc update_docs
update_keeps_lem sel ch [] n h = refl
update_keeps_lem sel ch (d ∷ ds) n h = elim (Bool-cases (meets sel d)) [
  | inl y ↦
      let same : or_old ch.filename d.name ≡ d.name = ap (λ k. or_old k d.name) h in
      rw (y, same) (same_content (name_eq d.name n) _ d (find_doc n ds) refl)
  | inr ne ↦ ground (arith, update_keeps_lem sel ch ds n h)
]

unfoldable pub memory_store : StoreLaws memory
unfolding find_doc
memory_store = record {
  stored = λ db n. content_of (find_doc n db);
  connect_keeps = λ db n. refl;
  grid_fs_keeps = λ db n. refl;
  store_saves = λ buf n db id h. rw (name_eq_refl n) refl;
  update_keeps = update_keeps_lem;
}

pub find_doc-name : (n : Name) (db : List Doc) (d : Doc) → find_doc n db ≡ some d → d.name ≡ n
unfolding find_doc
find_doc-name n [] d h = absurd (cc h)
find_doc-name n (x ∷ xs) d h = elim (Bool-cases (name_eq x.name n)) [
  | inl y ↦
      (let same : some x ≡ some d = rw y at h in
        let eq : x ≡ d = cc same in ap (λ k. k.name) (sym eq) ∙ name_eq→eq x.name n y)
  | inr ne ↦ find_doc-name n xs d (rw ne at h)
]

abbrev pub file_of : Doc → GridFile
file_of d = record {
  filename = d.name;
  content_length = length d.content;
  chunk_size = 4;
  upload_date = d.upload_date;
  metadata = d.metadata;
}

pub memory-Document :
    (n : Name) (db : List Doc) (d : Doc)
    → find_doc n db ≡ some d
    → Document memory (file_of d) d.content db
memory-Document n db d h =
    let same : content_of (find_doc d.name db) ≡ some d.content =
      ap (λ k. content_of (find_doc k db)) (find_doc-name n db d h) ∙ ap content_of h in
    record {
      size = refl;
      some_bytes = omega arith;
      small = omega arith;
      all = omega arith;
      tight = λ i lt. omega arith;
      chunk = λ i c lt q.
          (let eq : chunk_of i (content_of (find_doc d.name db)) ≡ c = cc q in
            sym eq ∙ ap (chunk_of i) same);
    }

unfoldable pub memory_read : ReadLaws memory
unfolding memory_store find_doc
memory_read = record {
  store = memory_store;
  found = λ n db g h. found_lem n db (find_doc n db) g refl h;
  missing = λ n db h. missing_lem n db (find_doc n db) h;
}
  where
    found_lem :
        (n : Name) (db : List Doc) (found : Option Doc) (g : GridFile)
        → find_doc n db ≡ found
        → ◌≡◌ {A = Reply (Option GridFile)} (ok (grid_file_of found)) (ok (some g))
        → (buf : List ℕ) × (content_of (find_doc n db) ≡ some buf) × Document memory g buf db
    found_lem n db none g e h = absurd (cc h)
    found_lem n db (some d) g e h =
        let same : file_of d ≡ g = cc h in
        (d.content, ap content_of e, (rw same at (memory-Document n db d e)))

    missing_lem :
        (n : Name) (db : List Doc) (found : Option Doc)
        → ◌≡◌ {A = Reply (Option GridFile)} (ok (grid_file_of found)) (ok none)
        → content_of found ≡ none
    missing_lem n db none h = refl
    missing_lem n db (some d) h = absurd (cc h)
