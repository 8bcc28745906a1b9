-- ===== src/Main/Reach.antt =====
-- The runs of a mounted file system: the kernel asks for operations of the table, one at a time and in
-- any order. A step is a call that returns.
use mgridfs.Base.{ℕ, ◌≡◌, ◌≢◌, some, [], arith}
use mgridfs.LocalFile.Valid.{Limits}
use mgridfs.Handle.{no_handles}
use mgridfs.Handle.Assign.{no_handles-IsValid}
use mgridfs.World.{Env, World, Outcome, Action, done, raised, fault}
use mgridfs.World.Quiet.{Never}
use mgridfs.LocalFs.Consistent.{Consistent, Leaves}
use mgridfs.LocalFs.Keeps.{Anything}
use mgridfs.Main.{Call, Answer, mgridfs_ops}
use mgridfs.Main.Calls.{mgridfs_ops-Keeps}

module _ (e : Env) (scaled : ℕ → ℕ → ℕ → ℕ) where
  pub data Step : World e.server.Db → World e.server.Db → Type 0 where
    call :
        (c : Call) {m : Action (World e.server.Db) (Answer c)} {a : Answer c}
        {w w' : World e.server.Db}
        → mgridfs_ops e scaled c ≡ some m
        → m w ≡ done a w'
        → Step w w'

  pub data Reach (w : World e.server.Db) : World e.server.Db → Type 0 where
    here : Reach w w
    next : {u v : World e.server.Db} → Reach w u → Step u v → Reach w v

-- The state of a process that has just started: nothing is open, and no file is in memory.
abbrev pub fresh : {Db : Type 0} → Db → World Db
fresh db = record { db = db; files = []; handles = no_handles; time = 0 }

pub fresh-Consistent : (e : Env) (db : e.server.Db) → Consistent e (fresh db)
fresh-Consistent e db = record { handles = no_handles-IsValid; files = tt; distinct = tt }

done-Consistent :
    {e : Env} {A : Type 0} (o : Outcome (World e.server.Db) A) {a : A} {w : World e.server.Db}
    → Leaves e Anything Never o
    → o ≡ done a w
    → Consistent e w
done-Consistent (done b v) {w = w} h q = let same : v ≡ w = cc q in rw (← same) h.holds.0
done-Consistent (raised v) h q = absurd (ground arith)
done-Consistent fault h q = absurd (ground arith)

not_raised :
    {e : Env} {A : Type 0} (o : Outcome (World e.server.Db) A) {w : World e.server.Db}
    → Leaves e Anything Never o
    → o ≢ raised w
not_raised (done b v) h q = ground arith
not_raised (raised v) h q = h.holds
not_raised fault h q = ground arith

module _ (e : Env) (l : Limits e.options.max_mem_file_size e.options.mem_chunk_size)
    (scaled : ℕ → ℕ → ℕ → ℕ) where
  Step-Consistent : {w v : World e.server.Db} → Step e scaled w v → Consistent e w → Consistent e v
  Step-Consistent (call c {m} {a} {w} {w'} q d) h =
      done-Consistent (m w) ((mgridfs_ops-Keeps e l scaled c q).run w h) d

  -- In every state that calls of the operations, in any order, at any arguments and on any server,
  -- reach from a consistent one: no handle is open twice, each open handle is not zero and has a file
  -- name, no name is twice in memory, and every file in memory has the name under which it stands and
  -- the chunk size of the options, and its chunks are as its capacity and size say. The options are
  -- in range.
  pub Reach-Consistent :
      {w v : World e.server.Db} → Consistent e w → Reach e scaled w v → Consistent e v
  Reach-Consistent h here = h
  Reach-Consistent h (next r s) = Step-Consistent s (Reach-Consistent h r)

  -- In every state that calls of the operations reach from a consistent one, no operation throws an
  -- exception into the FUSE library. The options are in range.
  pub Reach-no_throw :
      {w v u : World e.server.Db} (c : Call) {m : Action (World e.server.Db) (Answer c)}
      → Consistent e w
      → Reach e scaled w v
      → mgridfs_ops e scaled c ≡ some m
      → m v ≢ raised u
  Reach-no_throw {v = v} c {m} h r q =
      not_raised (m v) ((mgridfs_ops-Keeps e l scaled c q).run v (Reach-Consistent h r))
