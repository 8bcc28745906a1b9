-- ===== src/Mount/Mounted.antt =====
-- What `fromCommandLine` has done when it returns, true or false.
use mgridfs.Base.{
  ℕ, zero, suc, ◌≡◌, refl, ap, ◌≢◌, Bool, false, Option, none, some, [], arith, ◌==◌, ℤ, pos,
  negsuc, Name, bytes,
}
use mgridfs.Handle.{name_or_empty}
use mgridfs.Logger.{Manager, set_log_level}
use mgridfs.Options.{ParsedOptions, FsOptions, port_in_range, resolve, options_of}
use mgridfs.Server.{GridFile, directory_named, ok}
use mgridfs.World.{Env, World, done, return}
use mgridfs.World.Ends.{Ends, Ends-done, Ends-outcome, bind-done}
use mgridfs.World.Quiet.{Same, Never}
use mgridfs.DirOps.{mgridfs_load_or_create_root}
use mgridfs.DirOps.Root.{Rooted, mgridfs_load_or_create_root-Rooted}
use mgridfs.Mount.{
  Parse, parse_exit, parse_failed, parsed, Started, exited, refused, started, metadata_keys,
  with_log_file, rooted, mount_with, from_command_line,
}

abbrev pub or_else : Option Name → Option Name → Option Name
or_else none d = d
or_else (some f) d = some f

log_file-resolve :
    (p : ParsedOptions) (dyn : Bool) {o : FsOptions} → resolve p dyn ≡ some o → o.log_file ≡ []
unfolding resolve options_of
log_file-resolve p dyn h = ground arith

port-resolve :
    (p : ParsedOptions) (dyn : Bool) → resolve p dyn ≡ none → port_in_range p.port ≡ false
unfolding resolve
port-resolve p dyn h = ground arith

module _ (e : Env) where
  -- The options are those of the command line, with the log file and the keys of the attributes; the
  -- log has the level of the options and goes to the log file, if there is one; and the server finds
  -- the root directory.
  pub record Mounted (p : ParsedOptions) (dyn : Bool) (m : Manager) (o : FsOptions) (m' : Manager)
      (db : e.server.Db) : Type 0 where
    pub base : FsOptions
    pub accepted : resolve p dyn ≡ some base
    pub options :
        o ≡ record base { log_file = name_or_empty p.log_file; metadata_key_map = metadata_keys }
    pub level : m'.ll ≡ base.log_level
    pub destination : m'.log_destination ≡ or_else p.log_file m.log_destination
    pub root : (g : GridFile) × (e.server.find_file (directory_named (bytes "/")) db ≡ ok (some g))

  module _ (euid egid : ℕ) where
    -- Why `fromCommandLine` returns false, from the state `w`, which it leaves as `v`: the command line
    -- was not parsed, or the port is out of range, or the root directory was not loaded.
    pub data Refused (parse : Parse) (w v : World e.server.Db) : Type 0 where
      unparsed : parse ≡ parse_failed → Refused parse w v
      bad_port :
          (p : ParsedOptions) (dyn : Bool)
          → parse ≡ parsed p dyn
          → port_in_range p.port ≡ false
          → Refused parse w v
      no_root :
          (p : ParsedOptions) (dyn : Bool) (o : FsOptions) (code : ℤ)
          → parse ≡ parsed p dyn
          → resolve p dyn ≡ some o
          → mgridfs_load_or_create_root (record e { options = o }) euid egid w ≡ done code v
          → code ≢ pos 0
          → Refused parse w v

    -- What the result of `fromCommandLine` says.
    abbrev pub Tells : Manager → Parse → World e.server.Db → Started → World e.server.Db → Type 0
    Tells m parse w exited v = parse ≡ parse_exit
    Tells m parse w refused v = Refused parse w v
    Tells m parse w (started o m') v =
        (p : ParsedOptions) × (dyn : Bool) × (parse ≡ parsed p dyn) × Mounted p dyn m o m' v.db

    module _ (m : Manager) where
      with_log_file-Mounted :
          (p : ParsedOptions) (dyn : Bool) (o : FsOptions) (w v : World e.server.Db)
          → resolve p dyn ≡ some o
          → (g : GridFile) × (e.server.find_file (directory_named (bytes "/")) v.db ≡ ok (some g))
          → (f : Option Name) → p.log_file ≡ f
          → Tells m (parsed p dyn) w (with_log_file f o (set_log_level o.log_level m)) v
      unfolding with_log_file set_log_level
      with_log_file-Mounted p dyn o w v h g none q = (
        p,
        dyn,
        refl,
        record {
          base = o;
          accepted = h;
          options = rw q (
              ap (λ f. record o { log_file = f; metadata_key_map = metadata_keys })
                (log_file-resolve p dyn h));
          level = refl;
          destination = rw q refl;
          root = g;
        },
      )
      with_log_file-Mounted p dyn o w v h g (some f) q = (
        p,
        dyn,
        refl,
        record {
          base = o;
          accepted = h;
          options = rw q refl;
          level = refl;
          destination = rw q refl;
          root = g;
        },
      )

      rooted-Tells :
          (p : ParsedOptions) (dyn : Bool) (o : FsOptions) (w v : World e.server.Db) (code : ℤ)
          → resolve p dyn ≡ some o
          → mgridfs_load_or_create_root (record e { options = o }) euid egid w ≡ done code v
          → Rooted e code v.db
          → Tells m (parsed p dyn) w (rooted p.log_file o (set_log_level o.log_level m) code) v
      unfolding rooted
      rooted-Tells p dyn o w v (pos zero) h l r =
          with_log_file-Mounted p dyn o w v h (r refl) p.log_file refl
      rooted-Tells p dyn o w v (pos (suc n)) h l r =
          let z : (suc n == 0) ≡ false = ground arith in
          rw z (no_root p dyn o (pos (suc n)) refl h l (λ q. ground arith))
      rooted-Tells p dyn o w v (negsuc n) h l r =
          no_root p dyn o (negsuc n) refl h l (λ q. ground arith)

      mount_with-Tells :
          (p : ParsedOptions) (dyn : Bool) (o : Option FsOptions) (w : World e.server.Db)
          → resolve p dyn ≡ o
          → Ends
              (λ r v. Same w v × Tells m (parsed p dyn) w r v)
              Never
              (mount_with e euid egid p.log_file m o w)
      unfolding mount_with
      mount_with-Tells p dyn none w h =
          Ends-done refused w
            (record { handles = refl; files = refl }, bad_port p dyn refl (port-resolve p dyn h))
      mount_with-Tells p dyn (some o) w h =
          let e' : Env = record e { options = o } in
          let load = mgridfs_load_or_create_root e' euid egid in
          let (code, v, q, st) =
            Ends-outcome (load w) (mgridfs_load_or_create_root-Rooted e' euid egid w) in
          rw
            (bind-done load (λ c. return (rooted p.log_file o (set_log_level o.log_level m) c)) w v
              code q)
            (Ends-done _ v (st.0, rooted-Tells p dyn o w v code h q st.1))

      -- `fromCommandLine` always returns, and changes neither the open handles nor the files in memory,
      -- on any server. If it returns true, the command line was parsed and accepted, the options and the
      -- log are set up as it says, and the server finds the root directory. If it returns false, the
      -- command line was not parsed, or the port is out of range, or the load of the root directory has
      -- failed. It ends the program only if the callback does.
      pub from_command_line-Tells :
          (parse : Parse) (w : World e.server.Db)
          → Ends
              (λ r v. Same w v × Tells m parse w r v)
              Never
              (from_command_line e euid egid m parse w)
      unfolding from_command_line
      from_command_line-Tells parse_exit w =
          Ends-done exited w (record { handles = refl; files = refl }, refl)
      from_command_line-Tells parse_failed w =
          Ends-done refused w (record { handles = refl; files = refl }, unparsed refl)
      from_command_line-Tells (parsed p dyn) w = mount_with-Tells p dyn (resolve p dyn) w refl
