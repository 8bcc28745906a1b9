-- ===== src/World/Ends.antt =====
-- How a run ends, with a condition on each way it can: the rules that put the conditions of the parts
-- of an action together. `Ends Q R` excludes the faults.
use mgridfs.Base.{◌≡◌, refl, ap, Bool, true, false, arith, if◌then◌else◌}
use mgridfs.Server.{Reply, ok, thrown}
use mgridfs.World.{
  attempt, World, Outcome, Action, done, raised, fault, ◌>>=◌, catching, ask, command, answered,
}

abbrev Holds : {W A : Type 0} → (A → W → Type 0) → (W → Type 0) → Outcome W A → Type 0
Holds Q R (done a w) = Q a w
Holds Q R (raised w) = R w
Holds Q R fault = ⊥

pub record Ends {W A : Type 0} (Q : A → W → Type 0) (R : W → Type 0) (o : Outcome W A)
    : Type 0 where
  pub holds : Holds Q R o

module _ {W A : Type 0} {Q : A → W → Type 0} {R : W → Type 0} where
  pub Ends-done : (a : A) (w : W) → Q a w → Ends Q R (done a w)
  Ends-done a w h = record { holds = h }

  pub Ends-if :
      (b : Bool) (m k : Action W A) (w : W)
      → (b ≡ true → Ends Q R (m w))
      → (b ≡ false → Ends Q R (k w))
      → Ends Q R ((if b then m else k) w)
  Ends-if true m k w h g = h refl
  Ends-if false m k w h g = g refl

  pub Ends-raised : (w : W) → R w → Ends Q R (raised w)
  Ends-raised w h = record { holds = h }

  -- A run whose outcome is known.
  pub Ends-returned : (o : Outcome W A) (a : A) (w : W) → o ≡ done a w → Q a w → Ends Q R o
  Ends-returned o a w h q = rw h (Ends-done a w q)

module _ {W A B : Type 0} {P : A → W → Type 0} {Q : B → W → Type 0} {R : W → Type 0} where
  Ends-next :
      (o : Outcome W A) (f : A → Action W B)
      → Ends P R o
      → ((a : A) (w : W) → P a w → Ends Q R (f a w))
      → Ends Q R (elim o [ done a w' ↦ f a w' | raised w' ↦ raised w' | fault ↦ fault ])
  Ends-next (done a w) f h k = k a w h.holds
  Ends-next (raised w) f h k = record { holds = h.holds }
  Ends-next fault f h k = absurd h.holds

  pub Ends-bind :
      (m : Action W A) (f : A → Action W B) (w : W)
      → Ends P R (m w)
      → ((a : A) (w' : W) → P a w' → Ends Q R (f a w'))
      → Ends Q R ((m >>= f) w)
  Ends-bind m f w h k = Ends-next (m w) f h k

module _ {W A : Type 0} {Q : A → W → Type 0} {R S : W → Type 0} where
  Ends-handler :
      (o : Outcome W A) (k : Action W A)
      → Ends Q S o
      → ((w : W) → S w → Ends Q R (k w))
      → Ends Q R (elim o [ done a w' ↦ done a w' | raised w' ↦ k w' | fault ↦ fault ])
  Ends-handler (done a w) k h g = record { holds = h.holds }
  Ends-handler (raised w) k h g = g w h.holds
  Ends-handler fault k h g = absurd h.holds

  pub Ends-catching :
      (m k : Action W A) (w : W)
      → Ends Q S (m w)
      → ((w' : W) → S w' → Ends Q R (k w'))
      → Ends Q R (catching m k w)
  Ends-catching m k w h g = Ends-handler (m w) k h g

module _ {W A : Type 0} {Q Q' : A → W → Type 0} {R R' : W → Type 0} where
  pub Ends-weaken :
      (o : Outcome W A)
      → Ends Q R o
      → ((a : A) (w : W) → Q a w → Q' a w)
      → ((w : W) → R w → R' w)
      → Ends Q' R' o
  Ends-weaken (done a w) h k l = record { holds = k a w h.holds }
  Ends-weaken (raised w) h k l = record { holds = l w h.holds }
  Ends-weaken fault h k l = absurd h.holds

module _ {Db A : Type 0} {Q : A → World Db → Type 0} {R : World Db → Type 0} where
  Ends-reply :
      (w : World Db) (r : Reply A)
      → ((a : A) → r ≡ ok a → Q a w)
      → R w
      → Ends Q R (elim r [ ok a ↦ done a w | thrown ↦ raised w ])
  Ends-reply w (ok a) h k = record { holds = h a refl }
  Ends-reply w thrown h k = record { holds = k }

  pub Ends-ask :
      (q : Db → Reply A) (w : World Db)
      → ((a : A) → q w.db ≡ ok a → Q a w)
      → R w
      → Ends Q R (ask q w)
  Ends-ask q w h k = Ends-reply w (q w.db) h k

  Ends-answered :
      (w : World Db) (r : Reply A × Db)
      → ((a : A) → r.0 ≡ ok a → Q a (record w { db = r.1 }))
      → R (record w { db = r.1 })
      → Ends Q R (answered w r)
  Ends-answered w (ok a, db) h k = record { holds = h a refl }
  Ends-answered w (thrown, db) h k = record { holds = k }

  pub Ends-command :
      (c : Db → Reply A × Db) (w : World Db)
      → ((a : A) → (c w.db).0 ≡ ok a → Q a (record w { db = (c w.db).1 }))
      → R (record w { db = (c w.db).1 })
      → Ends Q R (command c w)
  Ends-command c w h k = Ends-answered w (c w.db) h k

module _ {W A : Type 0} {Q Q' : A → W → Type 0} where
  -- Two conditions on a run that returns.
  pub Ends-both :
      (o : Outcome W A)
      → Ends Q (λ w. ⊥) o
      → Ends Q' (λ w. ⊥) o
      → Ends (λ a w. Q a w × Q' a w) (λ w. ⊥) o
  Ends-both (done a w) h k = record { holds = (h.holds, k.holds) }
  Ends-both (raised w) h k = absurd h.holds
  Ends-both fault h k = absurd h.holds

module _ {W A : Type 0} {P : W → Type 0} {R : W → Type 0} where
  Ends-reply_of :
      (o : Outcome W A)
      → Ends (λ a v. P v) P o
      → Ends
          (λ r v. P v)
          R
          (elim o [ done a w' ↦ done (ok a) w' | raised w' ↦ done thrown w' | fault ↦ fault ])
  Ends-reply_of (done a w) h = record { holds = h.holds }
  Ends-reply_of (raised w) h = record { holds = h.holds }
  Ends-reply_of fault h = absurd h.holds

  -- What holds however a `try` block ends.
  pub Ends-attempt :
      (m : Action W A) (w : W) → Ends (λ a v. P v) P (m w) → Ends (λ r v. P v) R (attempt m w)
  Ends-attempt m w h = Ends-reply_of (m w) h

module _ {Db A : Type 0} {Q : Reply A → World Db → Type 0} {R : World Db → Type 0} where
  Ends-asked :
      (w : World Db) (r : Reply A)
      → Q r w
      → Ends Q R
          (elim (elim r as (λ x. Outcome (World Db) A) [ ok a ↦ done a w | thrown ↦ raised w ])
            as (λ x. Outcome (World Db) (Reply A)) [
              | done a w' ↦ done (ok a) w'
              | raised w' ↦ done thrown w'
              | fault ↦ fault
            ])
  Ends-asked w (ok a) h = record { holds = h }
  Ends-asked w thrown h = record { holds = h }

  -- A question in a `try` block of its own changes nothing.
  pub Ends-attempt-ask :
      (q : Db → Reply A) (w : World Db) → Q (q w.db) w → Ends Q R (attempt (ask q) w)
  Ends-attempt-ask q w h = Ends-asked w (q w.db) h

module _ {W A : Type 0} {Q : A → W → Type 0} {S : W → Type 0} {T : Reply A → W → Type 0}
    {R : W → Type 0} where
  Ends-reply_tried :
      (o : Outcome W A)
      → Ends Q S o
      → ((a : A) (w : W) → Q a w → T (ok a) w)
      → ((w : W) → S w → T thrown w)
      → Ends T R
          (elim o [ done a w' ↦ done (ok a) w' | raised w' ↦ done thrown w' | fault ↦ fault ])
  Ends-reply_tried (done a w) h k l = record { holds = k a w h.holds }
  Ends-reply_tried (raised w) h k l = record { holds = l w h.holds }
  Ends-reply_tried fault h k l = absurd h.holds

  pub Ends-tried :
      (m : Action W A) (w : W)
      → Ends Q S (m w)
      → ((a : A) (w' : W) → Q a w' → T (ok a) w')
      → ((w' : W) → S w' → T thrown w')
      → Ends T R (attempt m w)
  Ends-tried m w h k l = Ends-reply_tried (m w) h k l

module _ {Db A : Type 0} {Q : A → World Db → Type 0} {R : World Db → Type 0} where
  Ends-ok :
      (w : World Db) (r : Reply A) {a : A}
      → r ≡ ok a
      → Q a w
      → Ends Q R (elim r [ ok a ↦ done a w | thrown ↦ raised w ])
  Ends-ok w (ok b) {a} h q = let same : b ≡ a = cc h in record { holds = rw same q }
  Ends-ok w thrown h q = absurd (ground arith)

  -- A question, and a command, whose reply is known.
  pub Ends-ask_ok :
      (q : Db → Reply A) (w : World Db) {a : A} → q w.db ≡ ok a → Q a w → Ends Q R (ask q w)
  Ends-ask_ok q w h k = Ends-ok w (q w.db) h k

  Ends-answered_ok :
      (w : World Db) (r : Reply A × Db) {a : A}
      → r.0 ≡ ok a
      → Q a (record w { db = r.1 })
      → Ends Q R (answered w r)
  Ends-answered_ok w (ok b, db) {a} h k = let same : b ≡ a = cc h in record { holds = rw same k }
  Ends-answered_ok w (thrown, db) h k = absurd (ground arith)

  pub Ends-command_ok :
      (c : Db → Reply A × Db) (w : World Db) {a : A}
      → (c w.db).0 ≡ ok a
      → Q a (record w { db = (c w.db).1 })
      → Ends Q R (command c w)
  Ends-command_ok c w h k = Ends-answered_ok w (c w.db) h k

module _ {W A B : Type 0} where
  abbrev Continued : (A → Action W B) → Outcome W A → Outcome W B
  Continued k o = elim o [ done a w ↦ k a w | raised w ↦ raised w | fault ↦ fault ]

  -- An action whose first part has a known outcome.
  pub bind-done :
      (m : Action W A) (k : A → Action W B) (w v : W) (a : A) → m w ≡ done a v → (m >>= k) w ≡ k a v
  bind-done m k w v a h = ap (Continued k) h

  pub bind-fault : (m : Action W A) (k : A → Action W B) (w : W) → m w ≡ fault → (m >>= k) w ≡ fault
  bind-fault m k w h = ap (Continued k) h

-- The result and the state of a run that returns.
pub Ends-outcome :
    {W A : Type 0} {Q : A → W → Type 0} (o : Outcome W A)
    → Ends Q (λ w. ⊥) o
    → (a : A) × (w : W) × (o ≡ done a w) × Q a w
Ends-outcome (done a w) h = (a, w, refl, h.holds)
Ends-outcome (raised w) h = absurd h.holds
Ends-outcome fault h = absurd h.holds
