-- ===== src/World/Quiet.antt =====
-- The actions that change nothing but the database and the clock, with what they need of the
-- database, what they give, and what holds of it when they throw.
use mgridfs.Base.{◌+◌, ◌≡◌, refl, ◌∙◌}
use mgridfs.Server.{Reply, ok}
use mgridfs.World.{World, Action, ◌>>=◌, catching, ask, command, Env, draw, return}
use mgridfs.World.Ends.{
  Ends, Ends-done, Ends-bind, Ends-catching, Ends-ask, Ends-command, Ends-weaken, Ends-ask_ok,
  Ends-command_ok,
}

-- The open handles and the files in memory are those of before.
pub record Same {Db : Type 0} (w w' : World Db) : Type 0 where
  pub handles : w'.handles ≡ w.handles
  pub files : w'.files ≡ w.files

abbrev same :
    {Db : Type 0} → (w v : World Db) → v.handles ≡ w.handles → v.files ≡ w.files → Same w v
same w v h f = record { handles = h; files = f }

abbrev pub Always : {A : Type 0} → A → Type 0
Always a = Unit {0}

abbrev pub Never : {A : Type 0} → A → Type 0
Never a = ⊥

pub record Quiet {Db A : Type 0} (Pre : Db → Type 0) (Q : A → Db → Type 0) (R : Db → Type 0)
    (m : Action (World Db) A) : Type 0 where
  pub run :
      (w : World Db) → Pre w.db → Ends (λ a v. Same w v × Q a v.db) (λ v. Same w v × R v.db) (m w)

module _ {Db A : Type 0} {Pre : Db → Type 0} {Q : A → Db → Type 0} {R : Db → Type 0} where
  pub Quiet-return : (a : A) → ((db : Db) → Pre db → Q a db) → Quiet Pre Q R (return a)
  Quiet-return a h = record { run = λ w p. Ends-done a w (same w w refl refl, h w.db p) }

  pub Quiet-ask :
      (q : Db → Reply A)
      → ((db : Db) (a : A) → Pre db → q db ≡ ok a → Q a db)
      → ((db : Db) → Pre db → R db)
      → Quiet Pre Q R (ask q)
  Quiet-ask q h k = record {
    run = λ w p.
        Ends-ask q w (λ a e. (same w w refl refl, h w.db a p e)) (same w w refl refl, k w.db p);
  }

  pub Quiet-command :
      (c : Db → Reply A × Db)
      → ((db : Db) (a : A) → Pre db → (c db).0 ≡ ok a → Q a (c db).1)
      → ((db : Db) → Pre db → R (c db).1)
      → Quiet Pre Q R (command c)
  Quiet-command c h k = record {
    run = λ w p.
        Ends-command c w (λ a e. (same w (record w { db = (c w.db).1 }) refl refl, h w.db a p e))
          (same w (record w { db = (c w.db).1 }) refl refl, k w.db p);
  }

  -- A question, and a command, that the server is known to answer.
  pub Quiet-ask_ok :
      (q : Db → Reply A)
      → ((db : Db) → Pre db → (a : A) × (q db ≡ ok a) × Q a db)
      → Quiet Pre Q R (ask q)
  Quiet-ask_ok q h = record {
    run = λ w p. let (a, e, k) = h w.db p in Ends-ask_ok q w e (same w w refl refl, k);
  }

  pub Quiet-command_ok :
      (c : Db → Reply A × Db)
      → ((db : Db) → Pre db → (a : A) × ((c db).0 ≡ ok a) × Q a (c db).1)
      → Quiet Pre Q R (command c)
  Quiet-command_ok c h = record {
    run = λ w p.
        let (a, e, k) = h w.db p in
        Ends-command_ok c w e (same w (record w { db = (c w.db).1 }) refl refl, k);
  }

  pub Quiet-catching :
      {S : Db → Type 0} {m k : Action (World Db) A}
      → Quiet Pre Q S m
      → Quiet S Q R k
      → Quiet Pre Q R (catching m k)
  Quiet-catching {S} {m} {k} h g = record {
    run = λ w p. Ends-catching {S = λ v. Same w v × S v.db} m k w (h.run w p) (λ v s.
        Ends-weaken (k v) (g.run v s.1)
          (λ a u t. (same w u (t.0.handles ∙ s.0.handles) (t.0.files ∙ s.0.files), t.1))
          (λ u t. (same w u (t.0.handles ∙ s.0.handles) (t.0.files ∙ s.0.files), t.1)));
  }

  pub Quiet-bind :
      {B : Type 0} {P : B → Db → Type 0} {m : Action (World Db) B} {f : B → Action (World Db) A}
      → Quiet Pre P R m
      → ((b : B) → Quiet (P b) Q R (f b))
      → Quiet Pre Q R (m >>= f)
  Quiet-bind {B} {P} {m} {f} h g = record {
    run = λ w p. Ends-bind {P = λ b v. Same w v × P b v.db} m f w (h.run w p) (λ b v s.
        Ends-weaken (f b v) ((g b).run v s.1)
          (λ a u t. (same w u (t.0.handles ∙ s.0.handles) (t.0.files ∙ s.0.files), t.1))
          (λ u t. (same w u (t.0.handles ∙ s.0.handles) (t.0.files ∙ s.0.files), t.1)));
  }

pub Quiet-draw : (e : Env) {Pre R : e.server.Db → Type 0} → Quiet Pre (λ m. Pre) R (draw e)
Quiet-draw e {Pre} {R} = record {
  run = λ w p.
      Ends-done (e.moment w.time) (record w { time = w.time + 1 })
        (same w (record w { time = w.time + 1 }) refl refl, p);
}
