-- ===== src/Main/Runs.antt =====
-- A run of the program, from its command line to its end. What it relies on of the FUSE library is
-- stated here: `fuse_main` makes calls of the operations of the table only, and `fuse_opt_parse`
-- fails where the callback does.
use mgridfs.Base.{
  ℕ, ◌+◌, ◌^◌, ◌≤◌, ◌<◌, ◌≡◌, refl, Bool, true, false, Option, none, some, List, [], ◌∷◌,
  if◌then◌else◌, ℤ, neg, Name, bytes, name_eq,
}
use mgridfs.Logger.{Manager, new_manager}
use mgridfs.LocalFile.Valid.{Limits}
use mgridfs.Options.{
  ParsedOptions, FsOptions, Key, FuseOpt, opt_field, opt_key, mgridfs_options,
  key_enable_dyn_mem_chunk, Handled, returned, fuse_option_callback,
}
use mgridfs.Options.Limits.{resolve-Limits}
use mgridfs.World.{Env, World, Action, Outcome, done, raised, fault, return}
use mgridfs.World.Ends.{Ends-outcome, bind-done, bind-fault}
use mgridfs.World.Quiet.{Same}
use mgridfs.LocalFs.Consistent.{Consistent, Same-Consistent}
use mgridfs.Mount.{
  FuseOptParse, Parse, parse_exit, parse_failed, parsed, Started, exited, refused, started,
  from_command_line,
}
use mgridfs.Mount.Mounted.{Mounted, Refused, Tells, from_command_line-Tells}
use mgridfs.Main.{Call, Answer, mgridfs_ops, main, run_started}
use mgridfs.Main.Reach.{fresh, fresh-Consistent, Reach, Reach-Consistent, Reach-no_throw}

-- The key of an option that is spelled in full.
abbrev pub key_of : Name → List FuseOpt → Option Key
key_of a [] = none
key_of a (opt_field template f ∷ os) = key_of a os
key_of a (opt_key template k ∷ os) = if name_eq template a then some k else key_of a os

-- `fuse_opt_parse` passes over the name of the program, hands an option that starts with two dashes and
-- has a key to the callback, and fails if the callback returns -1, as fuse_opt.h says; here of the
-- first argument.
pub record ParseLaws (parse : FuseOptParse) : Type 0 where
  pub fails :
      (options : List FuseOpt) (callback : Key → Bool → Handled) (program : Name) (b : ℕ)
      (more : Name) (rest : List Name) (k : Key) (dyn : Bool)
      → key_of (b'-' ∷ b'-' ∷ b ∷ more) options ≡ some k
      → callback k false ≡ returned (neg 1) dyn
      → parse options callback (program ∷ (b'-' ∷ b'-' ∷ b ∷ more) ∷ rest) ≡ parse_failed

-- How a main loop ends that only makes calls of the operations: it returns, or a call throws or is at
-- fault, and the loop ends in the same way.
pub data Served (e : Env) (scaled : ℕ → ℕ → ℕ → ℕ) (w : World e.server.Db)
    (out : Outcome (World e.server.Db) ℤ) : Type 0 where
  returns :
      (n : ℤ) (v : World e.server.Db) → out ≡ done n v → Reach e scaled w v → Served e scaled w out
  throws :
      (c : Call) (m : Action (World e.server.Db) (Answer c)) (v u : World e.server.Db)
      → out ≡ raised u
      → Reach e scaled w v
      → mgridfs_ops e scaled c ≡ some m
      → m v ≡ raised u
      → Served e scaled w out
  faults :
      (c : Call) (m : Action (World e.server.Db) (Answer c)) (v : World e.server.Db)
      → out ≡ fault
      → Reach e scaled w v
      → mgridfs_ops e scaled c ≡ some m
      → m v ≡ fault
      → Served e scaled w out

-- `fuse_main` is such a loop, with the options in force; that its calls do not throw is not assumed.
abbrev pub Serves :
    (e : Env) → (ℕ → ℕ → ℕ → ℕ) → (FsOptions → Action (World e.server.Db) ℤ) → Type 0
Serves e scaled fuse_main =
    (o : FsOptions) (w : World e.server.Db)
    → Served (record e { options = o }) scaled w (fuse_main o w)

-- The chunk options that keep the arithmetic of the files in range.
abbrev pub Modest : Parse → Type 0
Modest parse =
    (p : ParsedOptions) (dyn : Bool)
    → parse ≡ parsed p dyn
    → (p.mem_chunk_size < 2 ^ 21) × (p.max_mem_file_chunks + 2 ≤ 2 ^ 32)

-- How the program ends, from the state `w`: `u` is the state that `fromCommandLine` leaves.
pub data Ended (e : Env) (scaled : ℕ → ℕ → ℕ → ℕ)
    (fuse_main : FsOptions → Action (World e.server.Db) ℤ) (euid egid : ℕ) (parse : Parse)
    (w : World e.server.Db) (out : Outcome (World e.server.Db) ℕ) : Type 0 where
  -- the callback has ended it
  left :
      (u : World e.server.Db)
      → Same w u
      → parse ≡ parse_exit
      → out ≡ done 0 u
      → Ended e scaled fuse_main euid egid parse w out
  -- the command line was not parsed, the port is out of range, or the root directory was not loaded
  not_mounted :
      (u : World e.server.Db)
      → Same w u
      → Refused e euid egid parse w u
      → out ≡ done 1 u
      → Ended e scaled fuse_main euid egid parse w out
  -- the main loop has run in that state, and left a consistent one, with which the program ends
  unmounted :
      (p : ParsedOptions) (dyn : Bool) (o : FsOptions) (m : Manager) (u v : World e.server.Db)
      (n : ℤ)
      → Same w u
      → parse ≡ parsed p dyn
      → Mounted e p dyn new_manager o m u.db
      → fuse_main o u ≡ done n v
      → Consistent (record e { options = o }) v
      → out ≡ done 0 v
      → Ended e scaled fuse_main euid egid parse w out
  -- the main loop has run in that state, and a call was at fault in a consistent one
  crashed :
      (p : ParsedOptions) (dyn : Bool) (o : FsOptions) (m : Manager) (u v : World e.server.Db)
      (c : Call) (a : Action (World e.server.Db) (Answer c))
      → Same w u
      → parse ≡ parsed p dyn
      → Mounted e p dyn new_manager o m u.db
      → fuse_main o u ≡ fault
      → Consistent (record e { options = o }) v
      → mgridfs_ops (record e { options = o }) scaled c ≡ some a
      → a v ≡ fault
      → out ≡ fault
      → Ended e scaled fuse_main euid egid parse w out

module _ (e : Env) (scaled : ℕ → ℕ → ℕ → ℕ) (fuse_main : FsOptions → Action (World e.server.Db) ℤ)
    (parse : FuseOptParse) where
  -- With `--enableDynMemChunk` as its first argument the program ends with 1 and mounts nothing, since
  -- the callback fails; `fuse_opt_parse` does what its documentation says.
  pub main_enable_dyn :
      (laws : ParseLaws parse) (euid egid : ℕ) (program : Name) (rest : List Name)
      (w : World e.server.Db)
      → main e parse fuse_main euid egid (program ∷ bytes "--enableDynMemChunk" ∷ rest) w ≡ done 1 w
  unfolding main fuse_option_callback from_command_line name_eq
  main_enable_dyn laws euid egid program rest w =
      rw
        (laws.fails mgridfs_options fuse_option_callback program b'e' (bytes "nableDynMemChunk")
          rest key_enable_dyn_mem_chunk true refl refl)
        refl

  module _ (serves : Serves e scaled fuse_main) (euid egid : ℕ) (p : Parse) (w : World e.server.Db)
      (start : (o : FsOptions) → Consistent (record e { options = o }) w) (modest : Modest p) where
    served_lem :
        (q : ParsedOptions) (dyn : Bool) (o : FsOptions) (m : Manager) (u : World e.server.Db)
        → Same w u
        → p ≡ parsed q dyn
        → Mounted e q dyn new_manager o m u.db
        → Served (record e { options = o }) scaled u (fuse_main o u)
        → Ended e scaled fuse_main euid egid p w (run_started e fuse_main (started o m) u)
    unfolding run_started
    served_lem q dyn o m u s given mounted served =
        let e' : Env = record e { options = o } in
        let small = modest q dyn given in
        let l : Limits o.max_mem_file_size o.mem_chunk_size =
          rw mounted.options (resolve-Limits q dyn mounted.base mounted.accepted small.0 small.1) in
        let c0 : Consistent e' u = Same-Consistent e' s (start o) in
        elim served [
          | returns n v h r ↦
              unmounted q dyn o m u v n s given mounted h (Reach-Consistent e' l scaled c0 r)
                (bind-done (fuse_main o) (λ a. return 0) u v n h)
          | throws c a v x h r op thrown ↦ absurd (Reach-no_throw e' l scaled c c0 r op thrown)
          | faults c a v h r op at_fault ↦
              crashed q dyn o m u v c a s given mounted h (Reach-Consistent e' l scaled c0 r) op
                at_fault (bind-fault (fuse_main o) (λ a. return 0) u h)
        ]

    run_lem :
        (r : Started) (u : World e.server.Db)
        → Same w u
        → Tells e euid egid new_manager p w r u
        → Ended e scaled fuse_main euid egid p w (run_started e fuse_main r u)
    unfolding run_started
    run_lem exited u s t = left u s t refl
    run_lem refused u s t = not_mounted u s t refl
    run_lem (started o m) u s (q, dyn, given, mounted) =
        served_lem q dyn o m u s given mounted (serves o u)

  -- How the program ends, if the main loop of the FUSE library makes calls of the operations only, and
  -- a file in memory has less than two gigabytes in a chunk and a number of chunks that leaves room for
  -- two more. With 0, if the callback has ended it; with 1, the main loop not run, if the command line
  -- was not parsed, the port is out of range or the root directory was not loaded; or else the options
  -- were accepted, the root directory was found, the main loop has run in the state that was left, and
  -- the program ends as that did: with 0 and the loop's state, which is consistent, or with the fault
  -- of a call in a consistent state. It never ends with an exception. It starts with no open handles
  -- and no file in memory.
  pub main-Ended :
      (serves : Serves e scaled fuse_main) (euid egid : ℕ) (arguments : List Name)
      (db : e.server.Db)
      → Modest (parse mgridfs_options fuse_option_callback arguments)
      → Ended e scaled fuse_main euid egid
          (parse mgridfs_options fuse_option_callback arguments)
          (fresh db)
          (main e parse fuse_main euid egid arguments (fresh db))
  unfolding main
  main-Ended serves euid egid arguments db modest =
      let p = parse mgridfs_options fuse_option_callback arguments in
      let begin = from_command_line e euid egid new_manager p in
      let (r, u, h, st) =
        Ends-outcome (begin (fresh db))
          (from_command_line-Tells e euid egid new_manager p (fresh db)) in
      rw (bind-done begin (run_started e fuse_main) (fresh db) u r h) (
        run_lem serves euid egid p (fresh db) (λ o. fresh-Consistent (record e { options = o }) db)
          modest r u st.0 st.1)
