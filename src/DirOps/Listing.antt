-- ===== src/DirOps/Listing.antt =====
-- A directory after an entry was made in it: `mgridfs_readdir` shows the entry, and `mgridfs_rmdir`
-- refuses to remove the directory.
use mathlib.Core.List.{Memᴰ}
use mgridfs.Base.{
  ℕ, ◌≡◌, refl, ap, ◌∙◌, ◌⊎◌, inl, inr, false, Option, none, some, List, [], ◌∷◌, ◌++◌, Bool-cases,
  ℤ, pos, neg, Name, is_empty,
}
use mgridfs.LocalFile.{eio}
use mgridfs.Handle.{left_find}
use mgridfs.Utils.{get_path_basename, get_path_dirname}
use mgridfs.Server.{ok}
use mgridfs.Server.Laws.{ListingLaws}
use mgridfs.World.{Env, World, command, return, ◌>>◌}
use mgridfs.World.Ends.{Ends, Ends-weaken}
use mgridfs.World.Quiet.{
  Same, Quiet, Always, Never, Quiet-return, Quiet-ask, Quiet-command, Quiet-bind, Quiet-catching,
}
use mgridfs.Ops.{enotempty}
use mgridfs.DataOps.Write.{Open, this_handle-open, is_valid-open}
use mgridfs.DirOps.{entries, dots, mgridfs_mkdir, mgridfs_rmdir, mgridfs_readdir}
use mgridfs.DirOps.Made.{Entry, mkdir-Made}

-- A name that is not empty and that the listing has is given to the filler.
entries-Mem :
    (n : Name) (es : List (Option Name))
    → is_empty n ≡ false
    → Memᴰ (some n) es
    → Memᴰ n (entries es)
unfolding entries
entries-Mem n [] h m = elim m [ ]
entries-Mem n (none ∷ es) h (Memᴰ.head q) = absurd (cc q)
entries-Mem n (none ∷ es) h (Memᴰ.tail m) = entries-Mem n es h m
entries-Mem n (some k ∷ es) h (Memᴰ.head q) =
    let same : n ≡ k = cc q in
    let full : is_empty k ≡ false = rw same at h in rw full (Memᴰ.head same)
entries-Mem n (some k ∷ es) h (Memᴰ.tail m) = elim (Bool-cases (is_empty k)) [
  | inl y ↦ rw y (entries-Mem n es h m)
  | inr f ↦ rw f (Memᴰ.tail (entries-Mem n es h m))
]

module _ (e : Env) (laws : ListingLaws e.server) where
  open e.server use {Db, Oid, connect, grid_fs, store_file, update, list_directory}

  -- A listing of the parent directory has the entry.
  lists :
      (path : Name) (db : Db) (ns : List (Option Name))
      → Entry e laws path db
      → list_directory (get_path_dirname path) db ≡ ok ns
      → Memᴰ (some (get_path_basename path)) ns
  lists path db ns k h =
      rw k.base at (laws.listed k.id db k.meta (get_path_dirname path) ns k.there k.directory h)

  -- The result of `mgridfs_readdir` where that name is in the directory: it is given to the filler, or
  -- the call fails.
  abbrev pub Lists : Name → ℤ × List Name → Type 0
  Lists n r = ((r.0 ≡ pos 0) × Memᴰ n r.1) ⊎ (r ≡ (neg eio, dots))

  Entry-connect : (path : Name) (db : Db) → Entry e laws path db → Entry e laws path (connect db).1
  Entry-connect path db k = record {
    id = k.id;
    meta = k.meta;
    there = laws.connect_keeps db k.id ∙ k.there;
    base = k.base;
    directory = k.directory;
  }

  Entry-grid_fs : (path : Name) (db : Db) → Entry e laws path db → Entry e laws path (grid_fs db).1
  Entry-grid_fs path db k = record {
    id = k.id;
    meta = k.meta;
    there = laws.grid_fs_keeps db k.id ∙ k.there;
    base = k.base;
    directory = k.directory;
  }

  readdir-Lists :
      (path : Name) (fh : ℕ) (w : World Db)
      → is_empty (get_path_basename path) ≡ false
      → Open w fh (get_path_dirname path)
      → Entry e laws path w.db
      → Ends
          (λ r v. Lists (get_path_basename path) r)
          Never
          (mgridfs_readdir e (get_path_dirname path) fh w)
  unfolding mgridfs_readdir
  readdir-Lists path fh w named o k =
      let dir = get_path_dirname path in
      rw (this_handle-open w dir dir fh o, is_valid-open w dir fh o)
        (Ends-weaken _
          ((Quiet-catching {S = Always}
              (Quiet-bind {P = λ a. Entry e laws path}
                (Quiet-command connect (λ db a p h. Entry-connect path db p) (λ db p. tt))
                (λ a.
                  Quiet-bind {P = λ b. Entry e laws path}
                    (Quiet-command grid_fs (λ db b p h. Entry-grid_fs path db p) (λ db p. tt))
                    (λ b.
                      Quiet-bind {P = λ ns db. Memᴰ (some (get_path_basename path)) ns}
                        (Quiet-ask (list_directory dir) (λ db ns p h. lists path db ns p h)
                          (λ db p. tt))
                        (λ ns.
                          Quiet-return (pos 0, dots ++ entries ns)
                            (λ db m. inl (
                              refl,
                              Memᴰ.tail
                                  (Memᴰ.tail (entries-Mem (get_path_basename path) ns named m)),
                            ))))))
              (Quiet-return (neg eio, dots) (λ db p. inr refl))).run
            w k)
          (λ r v t. t.1) (λ v t. absurd t.1))

  rmdir-refused :
      (path : Name)
      → Quiet
          (Entry e laws path)
          (λ code db. (code ≡ neg enotempty) ⊎ (code ≡ neg eio))
          Never
          (mgridfs_rmdir e (get_path_dirname path))
  unfolding mgridfs_rmdir
  rmdir-refused path =
      Quiet-catching {S = Always}
        (Quiet-bind {P = λ a. Entry e laws path}
          (Quiet-command connect (λ db a p h. Entry-connect path db p) (λ db p. tt))
          (λ a.
            Quiet-bind {P = λ ns db. Memᴰ (some (get_path_basename path)) ns}
              (Quiet-ask (list_directory (get_path_dirname path))
                (λ db ns p h. lists path db ns p h) (λ db p. tt))
              (λ ns. refuse ns)))
        (Quiet-return (neg eio) (λ db p. inr refl))
    where
      refuse :
          (ns : List (Option Name))
          → Quiet {Db = Db} {A = ℤ}
              (λ db. Memᴰ (some (get_path_basename path)) ns)
              (λ code db. (code ≡ neg enotempty) ⊎ (code ≡ neg eio))
              Always
              (elim ns [
                | [] ↦
                    command grid_fs
                    >> (command (e.server.remove_file (get_path_dirname path)) >> return (pos 0))
                | n ∷ rest ↦ return (neg enotempty)
              ])
      refuse [] = record { run = λ w m. elim m [ ] }
      refuse (n ∷ rest) = Quiet-return (neg enotempty) (λ db m. inl refl)

  -- `mgridfs_mkdir` always returns and leaves the handles and the files in memory as they are; after
  -- a 0 `mgridfs_readdir` of the parent directory, through a handle of it, gives the name of the new
  -- directory, or fails with `-EIO`. That name is not empty, and the server keeps to its laws.
  pub mgridfs_readdir-mgridfs_mkdir :
      (path : Name) (mode fh : ℕ) (w : World Db)
      → is_empty (get_path_basename path) ≡ false
      → Open w fh (get_path_dirname path)
      → Ends
          (λ code v.
            Same w v
            × (code ≡ pos 0
                → Ends
                    (λ r u. Lists (get_path_basename path) r)
                    Never
                    (mgridfs_readdir e (get_path_dirname path) fh v)))
          Never
          (mgridfs_mkdir e path mode w)
  mgridfs_readdir-mgridfs_mkdir path mode fh w named o =
      Ends-weaken _ ((mkdir-Made e laws path mode).run w tt)
        (λ code v t. (
          t.0,
          λ z.
              readdir-Lists path fh v named
                (record {
                  nonzero = o.nonzero;
                  handle = ap (λ h. left_find fh h.table) t.0.handles ∙ o.handle;
                })
                (t.1 z),
        ))
        (λ v t. absurd t.1)

  -- After `mgridfs_mkdir` has returned 0, `mgridfs_rmdir` refuses the parent directory with
  -- `-ENOTEMPTY`, or fails with `-EIO`; the server keeps to its laws.
  pub mgridfs_rmdir-mgridfs_mkdir :
      (path : Name) (mode : ℕ) (w : World Db)
      → Ends
          (λ code v.
            code ≡ pos 0
            → Ends
                (λ r u. (r ≡ neg enotempty) ⊎ (r ≡ neg eio))
                Never
                (mgridfs_rmdir e (get_path_dirname path) v))
          Never
          (mgridfs_mkdir e path mode w)
  mgridfs_rmdir-mgridfs_mkdir path mode w =
      Ends-weaken _ ((mkdir-Made e laws path mode).run w tt)
        (λ code v t z.
          Ends-weaken _ ((rmdir-refused path).run v (t.1 z)) (λ r u s. s.1) (λ u s. absurd s.1))
        (λ v t. absurd t.1)
