-- ===== src/LocalFs/Consistent.antt =====
-- The invariant of the state that the handlers share, and the rules by which an action keeps it. The
-- database and the clock are free; a fault ends the process, so that nothing is asked of it.
use mgridfs.Base.{
  ◌≡◌, refl, Bool, true, false, Option, none, some, [], ◌∷◌, arith, if◌then◌else◌, All, Name,
}
use mgridfs.LocalFile.{LocalFile}
use mgridfs.LocalFile.Valid
use mgridfs.Handle.{Handles}
use mgridfs.Handle.Assign
use mgridfs.Server.{Reply, ok, thrown}
use mgridfs.LocalFs.{Files, find_by_name}
use mgridfs.World.{
  attempt, total, World, Outcome, Action, done, raised, fault, ◌>>=◌, ◌>>◌, catching, ask, command,
  Env, draw, return, world, answered, set_handles, set_files,
}
use mgridfs.World.Ends.{Ends}
use mgridfs.World.Quiet.{Same, Never}

-- No name stands twice in the map.
abbrev pub Distinct : Files → Type 0
Distinct [] = Unit {0}
Distinct ((n, f) ∷ fs) = (find_by_name n fs ≡ none) × Distinct fs

module _ (e : Env) where
  -- A file that was made under that name, with the chunk size of the options.
  pub record Held (n : Name) (f : LocalFile) : Type 0 where
    pub name : f.filename ≡ n
    pub chunk_size : f.chunk_size ≡ e.options.mem_chunk_size
    pub valid : Valid.IsValid e.options.max_mem_file_size f

  pub record Consistent (w : World e.server.Db) : Type 0 where
    pub handles : Assign.IsValid w.handles
    pub files : All (λ p. Held p.0 p.1) w.files
    pub distinct : Distinct w.files

  abbrev Holds :
      {A : Type 0}
      → (A → Type 0)
      → (World e.server.Db → Type 0)
      → Outcome (World e.server.Db) A
      → Type 0
  Holds Q R (done a w) = Consistent w × Q a
  Holds Q R (raised w) = R w
  Holds Q R fault = Unit {0}

  -- What a run leaves: a consistent state and a good result, or, if it throws, what `R` says.
  pub record Leaves {A : Type 0} (Q : A → Type 0) (R : World e.server.Db → Type 0)
      (o : Outcome (World e.server.Db) A) : Type 0 where
    pub holds : Holds Q R o

  pub record Keeps {A : Type 0} (Q : A → Type 0) (R : World e.server.Db → Type 0)
      (m : Action (World e.server.Db) A) : Type 0 where
    pub run : (w : World e.server.Db) → Consistent w → Leaves Q R (m w)

module _ {e : Env} {A : Type 0} {Q : A → Type 0} where
  Leaves-reply :
      (w : World e.server.Db) (r : Reply A)
      → Consistent e w
      → ((a : A) → Q a)
      → Leaves e Q (Consistent e) (elim r [ ok a ↦ done a w | thrown ↦ raised w ])
  Leaves-reply w (ok a) c q = record { holds = (c, q a) }
  Leaves-reply w thrown c q = record { holds = c }

  pub Keeps-ask : (q : e.server.Db → Reply A) → ((a : A) → Q a) → Keeps e Q (Consistent e) (ask q)
  Keeps-ask q h = record { run = λ w c. Leaves-reply w (q w.db) c h }

  Leaves-answered :
      (w : World e.server.Db) (r : Reply A × e.server.Db)
      → Consistent e w
      → ((a : A) → Q a)
      → Leaves e Q (Consistent e) (answered w r)
  Leaves-answered w (ok a, db) c q = record {
    holds = (record { handles = c.handles; files = c.files; distinct = c.distinct }, q a);
  }
  Leaves-answered w (thrown, db) c q = record {
    holds = record { handles = c.handles; files = c.files; distinct = c.distinct };
  }

  pub Keeps-command :
      (q : e.server.Db → Reply A × e.server.Db)
      → ((a : A) → Q a)
      → Keeps e Q (Consistent e) (command q)
  Keeps-command q h = record { run = λ w c. Leaves-answered w (q w.db) c h }

pub Same-Consistent :
    (e : Env) {w v : World e.server.Db} → Same w v → Consistent e w → Consistent e v
Same-Consistent e s c = record {
  handles = rw s.handles c.handles;
  files = rw s.files c.files;
  distinct = rw s.files c.distinct;
}

module _ {e : Env} {A : Type 0} {Q : A → Type 0} {R : World e.server.Db → Type 0} where
  pub Keeps-return : (a : A) → Q a → Keeps e Q R (return a)
  Keeps-return a q = record { run = λ w c. record { holds = (c, q) } }

  pub Keeps-total : (o : Option A) → ((a : A) → o ≡ some a → Q a) → Keeps e Q R (total o)
  Keeps-total none h = record { run = λ w c. record { holds = tt } }
  Keeps-total (some a) h = record { run = λ w c. record { holds = (c, h a refl) } }

  pub Keeps-if :
      (b : Bool) {m k : Action (World e.server.Db) A}
      → (b ≡ true → Keeps e Q R m)
      → (b ≡ false → Keeps e Q R k)
      → Keeps e Q R (if b then m else k)
  Keeps-if true h g = h refl
  Keeps-if false h g = g refl

  Leaves-handler :
      (o : Outcome (World e.server.Db) A) (k : Action (World e.server.Db) A)
      → Leaves e Q (Consistent e) o
      → Keeps e Q R k
      → Leaves e Q R (elim o [ done a w' ↦ done a w' | raised w' ↦ k w' | fault ↦ fault ])
  Leaves-handler (done a w) k h g = record { holds = h.holds }
  Leaves-handler (raised w) k h g = g.run w h.holds
  Leaves-handler fault k h g = record { holds = tt }

  pub Keeps-catching :
      {m k : Action (World e.server.Db) A}
      → Keeps e Q (Consistent e) m
      → Keeps e Q R k
      → Keeps e Q R (catching m k)
  Keeps-catching {m} {k} h g = record { run = λ w c. Leaves-handler (m w) k (h.run w c) g }

  Leaves-reply_of :
      (o : Outcome (World e.server.Db) A)
      → Leaves e Q (Consistent e) o
      → Leaves e
          (λ r. (a : A) → r ≡ ok a → Q a)
          R
          (elim o [ done a w' ↦ done (ok a) w' | raised w' ↦ done thrown w' | fault ↦ fault ])
  Leaves-reply_of (done a w) h = record {
    holds = (h.holds.0, λ b q. let same : a ≡ b = cc q in rw (← same) h.holds.1);
  }
  Leaves-reply_of (raised w) h = record { holds = (h.holds, λ b q. absurd (ground arith)) }
  Leaves-reply_of fault h = record { holds = tt }

  pub Keeps-attempt :
      {m : Action (World e.server.Db) A}
      → Keeps e Q (Consistent e) m
      → Keeps e (λ r. (a : A) → r ≡ ok a → Q a) R (attempt m)
  Keeps-attempt {m} h = record { run = λ w c. Leaves-reply_of (m w) (h.run w c) }

  Leaves-Ends :
      (w : World e.server.Db) (o : Outcome (World e.server.Db) A)
      → Consistent e w
      → Ends (λ a v. Same w v × Q a) Never o
      → Leaves e Q R o
  Leaves-Ends w (done a v) c h = record { holds = (Same-Consistent e h.holds.0 c, h.holds.1) }
  Leaves-Ends w (raised v) c h = absurd h.holds
  Leaves-Ends w fault c h = absurd h.holds

  -- What changes neither the handles nor the files, and does not throw.
  pub Keeps-Ends :
      {m : Action (World e.server.Db) A}
      → ((w : World e.server.Db) → Ends (λ a v. Same w v × Q a) Never (m w))
      → Keeps e Q R m
  Keeps-Ends {m} h = record { run = λ w c. Leaves-Ends w (m w) c (h w) }

module _ {e : Env} {A B : Type 0} {P : A → Type 0} {Q : B → Type 0}
    {R : World e.server.Db → Type 0} where
  Leaves-next :
      (o : Outcome (World e.server.Db) A) (f : A → Action (World e.server.Db) B)
      → Leaves e P R o
      → ((a : A) → P a → Keeps e Q R (f a))
      → Leaves e Q R (elim o [ done a w' ↦ f a w' | raised w' ↦ raised w' | fault ↦ fault ])
  Leaves-next (done a w) f h k = (k a h.holds.1).run w h.holds.0
  Leaves-next (raised w) f h k = record { holds = h.holds }
  Leaves-next fault f h k = record { holds = tt }

  pub Keeps-bind :
      {m : Action (World e.server.Db) A} {f : A → Action (World e.server.Db) B}
      → Keeps e P R m
      → ((a : A) → P a → Keeps e Q R (f a))
      → Keeps e Q R (m >>= f)
  Keeps-bind {m} {f} h k = record { run = λ w c. Leaves-next (m w) f (h.run w c) k }

module _ {e : Env} {R : World e.server.Db → Type 0} where
  pub Keeps-draw : Keeps e (λ m. Unit {0}) R (draw e)
  Keeps-draw = record {
    run = λ w c. record {
      holds = (record { handles = c.handles; files = c.files; distinct = c.distinct }, tt);
    };
  }

  pub Keeps-world : Keeps e (λ w. Consistent e w) R world
  Keeps-world = record { run = λ w c. record { holds = (c, c) } }

  pub Keeps-set_handles :
      (h : Handles) → Assign.IsValid h → Keeps e (λ t. Unit {0}) R (set_handles h)
  Keeps-set_handles h v = record {
    run = λ w c. record {
      holds = (record { handles = v; files = c.files; distinct = c.distinct }, tt);
    };
  }

  pub Keeps-set_files :
      (fs : Files)
      → All (λ p. Held e p.0 p.1) fs
      → Distinct fs
      → Keeps e (λ t. Unit {0}) R (set_files fs)
  Keeps-set_files fs a d = record {
    run = λ w c. record { holds = (record { handles = c.handles; files = a; distinct = d }, tt) };
  }

module _ {e : Env} {A : Type 0} {Q : A → Type 0} {R : World e.server.Db → Type 0} where
  pub Leaves-done : (a : A) (w : World e.server.Db) → Consistent e w → Q a → Leaves e Q R (done a w)
  Leaves-done a w c q = record { holds = (c, q) }

  pub Leaves-if :
      (b : Bool) {o o' : Outcome (World e.server.Db) A}
      → (b ≡ true → Leaves e Q R o)
      → (b ≡ false → Leaves e Q R o')
      → Leaves e Q R (if b then o else o')
  Leaves-if true h g = h refl
  Leaves-if false h g = g refl

module _ {e : Env} {A : Type 0} {Q : A → Type 0} where
  -- The start of a `try` block that uses the file store.
  pub Keeps-session :
      {k : Action (World e.server.Db) A}
      → Keeps e Q (Consistent e) k
      → Keeps e Q (Consistent e) (command e.server.connect >> (command e.server.grid_fs >> k))
  Keeps-session h =
      Keeps-bind (Keeps-command e.server.connect (λ a. tt))
        (λ a t. Keeps-bind (Keeps-command e.server.grid_fs (λ b. tt)) (λ b u. h))
