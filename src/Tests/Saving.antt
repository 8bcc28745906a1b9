-- ===== src/Tests/Saving.antt =====
-- The theorems on loading, saving and documents, on the concrete server.
use mgridfs.Base.{
  ℕ, ◌+◌, ◌*◌, ◌%◌, ◌≡◌, refl, ap, ◌≢◌, ◌⊎◌, none, some, List, [], ◌∷◌, arith, pos, neg, Name,
  bytes, name_eq,
}
use mgridfs.LocalFile.{new_file, eio}
use mgridfs.World.{Env}
use mgridfs.Sync.Largest.{open_remote_largest}
use mgridfs.LocalFile.Valid.{IsValid, Limits, new_file-IsValid}
use mgridfs.Handle
use mgridfs.Handle.Assign.{no_handles-IsValid}
use mgridfs.Handle.{left_find}
use mgridfs.Server.{GridFile, ok, named, no_meta}
use mgridfs.Server.Memory.{Doc, memory, memory_store, memory_read, find_doc}
use mgridfs.Server.Answers.{memory_documents, grid_file_of-eq-some}
use mgridfs.World.Ends.{Ends}
use mgridfs.World.Quiet.{Same, Never}
use mgridfs.LocalFs.{find_by_name}
use mgridfs.Sync.{open_remote}
use mgridfs.Sync.Opening.{Opens, open_remote-Opens}
use mgridfs.FileOps.{mgridfs_open}
use mgridfs.FileOps.Writable.{Writable, mgridfs_open-Writable}
use mgridfs.AttrOps.{mgridfs_chmod, mgridfs_rename, mgridfs_getattr}
use mgridfs.AttrOps.Shown.{Answered}
use mgridfs.AttrOps.Documents.{mgridfs_getattr-mgridfs_chmod, mgridfs_rename_directory}
use mgridfs.Main.Reach.{fresh}
use mgridfs.Utils.{get_path_basename}
use mgridfs.Tests.{name_a, sized, sized-IsValid, options, env, docs, at_work}

abbrev five : List ℕ
five = 1 ∷ 2 ∷ 3 ∷ 4 ∷ 5 ∷ []

-- The chunks of the server and those in memory have four bytes.
aligned :
    (name : Name) (g : GridFile) (db : List Doc) (i : ℕ)
    → memory.find_file (named name) db ≡ ok (some g)
    → (i * g.chunk_size + 1) % 4 ≢ 0
aligned name g db i h =
    let (d, e, same) = grid_file_of-eq-some (find_doc name db) g (cc h) in
    let four : 4 ≡ g.chunk_size = ap (λ x. x.chunk_size) same in rw (← four) (λ q. omega (arith, q))

limits : Limits 100 4
limits = (sized-IsValid 6 (omega arith)).limits

open_remote-Opens_example :
    Ends
      (λ r u. Same (fresh docs) u × Opens 100 five (new_file 4 name_a) r)
      Never
      (open_remote env (new_file 4 name_a) (fresh docs))
unfolding memory_read memory_store find_doc new_file name_eq
open_remote-Opens_example =
    open_remote-Opens env memory_read five (new_file 4 name_a) (new_file-IsValid name_a limits) refl
      (aligned name_a) (fresh docs) refl

-- A limit of as many bytes as the stored file has.
abbrev tight : Env
tight = record env { options = record options { max_mem_file_size = 5 } }

open_remote_largest_example :
    Ends
      (λ r u. r ≡ (neg eio, new_file 4 name_a))
      Never
      (open_remote tight (new_file 4 name_a) (fresh docs))
unfolding memory_read memory_store find_doc new_file name_eq
open_remote_largest_example =
    open_remote_largest tight memory_read five (new_file 4 name_a) refl (omega arith) (omega arith)
      (fresh docs) refl

mgridfs_open-Writable_example :
    Ends (Writable 100 name_a five Handle.no_handles) Never (mgridfs_open env name_a 2 (fresh docs))
unfolding memory_read memory_store find_doc find_by_name name_eq
mgridfs_open-Writable_example =
    mgridfs_open-Writable env memory_read name_a five limits (aligned name_a) 2 refl (fresh docs)
      no_handles-IsValid refl (omega arith) refl refl refl

six : IsValid 100 (sized 6)
six = sized-IsValid 6 (omega arith)

-- The document of the stored file.
abbrev doc_a : GridFile
doc_a = record {
  filename = name_a;
  content_length = 5;
  chunk_size = 4;
  upload_date = 0;
  metadata = no_meta;
}

mgridfs_getattr-mgridfs_chmod_example :
    Ends
      (λ code v.
        Same (at_work 6) v
        × (((code ≡ pos 0)
              × (memory_documents.document v.db name_a
                  ≡ some (record doc_a { metadata = record no_meta { mode = some 33188 } }))
              × Ends
                  (λ r u.
                    Answered (record doc_a { metadata = record no_meta { mode = some 33188 } }) r)
                  Never
                  (mgridfs_getattr env name_a v))
            ⊎ (code ≡ neg 5)))
      Never
      (mgridfs_chmod env name_a 33188 (at_work 6))
unfolding memory_documents find_doc name_eq
mgridfs_getattr-mgridfs_chmod_example =
    mgridfs_getattr-mgridfs_chmod env memory_documents name_a 33188 doc_a (at_work 6) refl

mgridfs_rename_directory_example :
    Ends
      (λ code v.
        ((code ≡ pos 0)
          × ((g' : GridFile) × (memory_documents.document v.db (bytes "/d/b") ≡ some g')
              × (g'.metadata.base ≡ some (get_path_basename (bytes "/d/b")))
              × (g'.metadata.directory ≡ none)))
        ⊎ (code ≡ neg 5))
      Never
      (mgridfs_rename env name_a (bytes "/d/b") (at_work 6))
unfolding memory_documents find_doc name_eq
mgridfs_rename_directory_example =
    mgridfs_rename_directory env memory_documents name_a (bytes "/d/b") doc_a (at_work 6) refl refl
