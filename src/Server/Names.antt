-- ===== src/Server/Names.antt =====
-- The server of Server/Memory.antt meets the laws on the documents that are found under a name.
use mgridfs.Base.{
  ℕ, ◌≡◌, refl, sym, ap, ◌∙◌, inl, inr, true, Option, none, some, List, [], ◌∷◌, arith, ◌==◌,
  if◌then◌else◌, Bool-cases, length, Name, name_eq, name_eq_refl,
}
use mgridfs.Server.{GridFile, Meta, Changes, by_id, ok}
use mgridfs.Server.Laws.{NameLaws, merge, or_old}
use mgridfs.Server.Answers.{if_true}
use mgridfs.Server.Memory.{
  Doc, change, update_docs, find_doc, find_doc-name, grid_file_of, file_of, memory,
}

unfoldable find_by_id : ℕ → List Doc → Option Doc
find_by_id i [] = none
find_by_id i (d ∷ ds) = if d.id == i then some d else find_by_id i ds

find_by_id-id : (i : ℕ) (db : List Doc) (d : Doc) → find_by_id i db ≡ some d → d.id ≡ i
unfolding find_by_id
find_by_id-id i [] d h = absurd (cc h)
find_by_id-id i (x ∷ xs) d h = elim (Bool-cases (x.id == i)) [
  | inl y ↦ let same : x ≡ d = ground (arith, y) in ap (λ k. k.id) (sym same) ∙ ground (arith, y)
  | inr n ↦ find_by_id-id i xs d (rw n at h)
]

-- The document that has both the id and the name is the one that the update meets.
find_doc-update :
    (i : ℕ) (ch : Changes) (n : Name) (db : List Doc) (d : Doc)
    → find_doc n db ≡ some d
    → find_by_id i db ≡ some d
    → ch.filename ≡ none
    → find_doc n (update_docs (by_id i) ch db).1 ≡ some (change ch d)
unfolding find_doc find_by_id update_docs
find_doc-update i ch n [] d h q f = absurd (cc h)
find_doc-update i ch n (x ∷ xs) d h q f = elim (Bool-cases (x.id == i)) [
  | inl y ↦
      let same : some x ≡ some d = rw y at q in
      let eq : x ≡ d = cc same in
      let named : d.name ≡ n = find_doc-name n (x ∷ xs) d h in
      let own : x.name ≡ n = ap (λ k. k.name) eq ∙ named in
      rw y (
        if_true (name_eq (or_old ch.filename x.name) n) _ _ (rw (f, own) (name_eq_refl n))
        ∙ ap (λ k. some (change ch k)) eq)
  | inr other ↦ elim (Bool-cases (name_eq x.name n)) [
    | inl y ↦
        let same : some x ≡ some d = rw y at h in
        let eq : x ≡ d = cc same in
        let mine : d.id ≡ i = find_by_id-id i (x ∷ xs) d q in
        let own : x.id ≡ i = ap (λ k. k.id) eq ∙ mine in absurd (ground (arith, other, own))
    | inr k ↦ rw (other, k) (find_doc-update i ch n xs d (rw k at h) (rw other at q) f)
  ]
]

abbrev metadata_of : Option Doc → Option Meta
metadata_of none = none
metadata_of (some d) = some d.metadata

metadata_of-eq-some :
    (o : Option Doc) (m : Meta)
    → metadata_of o ≡ some m
    → (d : Doc) × (o ≡ some d) × (d.metadata ≡ m)
metadata_of-eq-some none m h = absurd (cc h)
metadata_of-eq-some (some d) m h = (d, refl, cc h)

found_lem :
    (o : Option Doc) (g : GridFile) → grid_file_of o ≡ some g → metadata_of o ≡ some g.metadata
found_lem none g h = absurd (cc h)
found_lem (some d) g h = let same : file_of d ≡ g = cc h in ap (λ k. some k.metadata) same

missing_lem : (o : Option Doc) → grid_file_of o ≡ none → metadata_of o ≡ none
missing_lem none h = refl
missing_lem (some d) h = absurd (cc h)

pub memory_names : NameLaws memory
unfolding find_doc find_by_id
memory_names = record {
  metadata = λ db n. metadata_of (find_doc n db);
  Owns = λ db n id. find_by_id id db ≡ find_doc n db;
  found = λ n db g h. found_lem (find_doc n db) g (cc h);
  missing = λ n db h. missing_lem (find_doc n db) (cc h);
  connect_keeps = λ db n. refl;
  grid_fs_keeps = λ db n. refl;
  stored = λ buf n db id h.
      let same : length db ≡ id = cc h in
      let own : (length db == id) ≡ true = ground (arith, same) in
      (rw (own, name_eq_refl n) refl, (mgridfs.Server.no_meta, rw (name_eq_refl n) refl));
  updated = λ id ch db n m k owns h name q.
      let (d, e, same) = metadata_of-eq-some (find_doc n db) m h in
      ap metadata_of (find_doc-update id ch n db d e (owns ∙ e) name)
      ∙ ap (λ x. some (merge ch.metadata x)) same;
}
