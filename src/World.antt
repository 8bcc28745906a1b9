-- ===== src/World.antt =====
-- The state that the handlers share, the surroundings that they ask, and their monad: a step ends, or
-- throws a `DBException`, or is a fault (a vector index out of range, or a loop without end).
pub mod Ends
pub mod Quiet
use mgridfs.Base.{ℕ, ◌+◌, Bool, Option, none, some, List, Name}
use mgridfs.LocalFile.{LocalFile, Alloc, Block}
use mgridfs.Handle.{Handles}
use mgridfs.Options.{FsOptions}
use mgridfs.Server.{Server, Reply, ok, thrown}

-- What the process gets from its surroundings at one point of a run: memory, and the time `jsTime()`
-- in milliseconds.
pub record Moment : Type 0 where
  pub chunks : Alloc
  pub buffer : Block
  pub object : Bool
  pub now : ℕ

-- The caller of a FUSE operation.
pub record Context : Type 0 where
  pub uid : ℕ
  pub gid : ℕ
  pub umask : ℕ

pub record Env : Type 1 where
  pub server : Server
  pub options : FsOptions
  pub context : Context
  pub moment : ℕ → Moment

-- The database, `_localGridFileMap`, the open handles, and the moments that have passed.
pub record World (Db : Type 0) : Type 0 where
  pub db : Db
  pub files : List (Name × LocalFile)
  pub handles : Handles
  pub time : ℕ

pub data Outcome (W A : Type 0) : Type 0 where
  done : A → W → Outcome W A
  raised : W → Outcome W A
  fault : Outcome W A

abbrev pub Action : Type 0 → Type 0 → Type 0
Action W A = W → Outcome W A

infixl 5 ◌>>=◌ ◌>>◌
abbrev pub ◌>>=◌ : {W A B : Type 0} → Action W A → (A → Action W B) → Action W B
◌>>=◌ m f w = elim (m w) [ done a w' ↦ f a w' | raised w' ↦ raised w' | fault ↦ fault ]

abbrev pub ◌>>◌ : {W A B : Type 0} → Action W A → Action W B → Action W B
m >> k = m >>= λ _. k

abbrev pub return : {W A : Type 0} → A → Action W A
return a w = done a w

-- `try { m } catch (DBException& e) { k }`.
abbrev pub catching : {W A : Type 0} → Action W A → Action W A → Action W A
catching m k w = elim (m w) [ done a w' ↦ done a w' | raised w' ↦ k w' | fault ↦ fault ]

-- An operation that may not end well.
abbrev pub total : {W A : Type 0} → Option A → Action W A
total none w = fault
total (some a) w = done a w

module _ {Db : Type 0} where
  -- A question to the server, and a command to it.
  abbrev pub ask : {A : Type 0} → (Db → Reply A) → Action (World Db) A
  ask q w = elim (q w.db) [ ok a ↦ done a w | thrown ↦ raised w ]

  abbrev pub answered : {A : Type 0} → World Db → Reply A × Db → Outcome (World Db) A
  answered w (ok a, db) = done a (record w { db = db })
  answered w (thrown, db) = raised (record w { db = db })

  abbrev pub command : {A : Type 0} → (Db → Reply A × Db) → Action (World Db) A
  command c w = answered w (c w.db)

  abbrev pub world : Action (World Db) (World Db)
  world w = done w w

  abbrev pub set_handles : Handles → Action (World Db) (Unit {0})
  set_handles h w = done tt (record w { handles = h })

  abbrev pub set_files : List (Name × LocalFile) → Action (World Db) (Unit {0})
  set_files fs w = done tt (record w { files = fs })

module _ (e : Env) where
  abbrev pub Db : Type 0
  Db = e.server.Db

  abbrev pub draw : Action (World e.server.Db) Moment
  draw w = done (e.moment w.time) (record w { time = w.time + 1 })

-- The replies of an action as values: what a `try` block with its own state does.
abbrev pub attempt : {W A : Type 0} → Action W A → Action W (Reply A)
attempt m w = elim (m w) [ done a w' ↦ done (ok a) w' | raised w' ↦ done thrown w' | fault ↦ fault ]
