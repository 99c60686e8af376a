-- ===== src/Login/Inversion.antt =====
-- What a login that ends with 1 has gone through: one step at a time.
use foc_project.Prelude.{◌≡◌, refl, Bool, true, false, Option, none, some, arith, if◌then◌else◌}
use foc_project.Memory.{Result, ok, failed, thrown, undefined, or_failed}
use foc_project.Platform.{Platform}
use foc_project.Session.{
  Session, one, nil, Flow, next, returned, raised, faulted, exited, Exec, pure, return_code,
  attempt, continue, ◌>>=◌,
}
use foc_project.Session.Quiet.{Same, Quiet}

module _ {P : Platform} where
  abbrev pub Won : Flow (Unit {0}) × Session P → Session P → Type 0
  Won r t = r ≡ (returned one, t)

  module _ {A B : Type 0} where
    pub attempt-Won :
        (r : Result A) (f : A → Exec P B) (g : B → Exec P (Unit {0})) (s t : Session P)
        → Won (((attempt P nil r >>= f) >>= g) s) t
        → (a : A) × (r ≡ ok a) × Won ((f a >>= g) s) t
    unfolding ◌>>=◌
    attempt-Won (ok a) f g s t h = (a, refl, h)
    attempt-Won failed f g s t h = absurd (ground arith)
    attempt-Won thrown f g s t h = absurd (ground arith)
    attempt-Won undefined f g s t h = absurd (ground arith)

    pub need-Won :
        (r : Option A) (f : A → Exec P B) (g : B → Exec P (Unit {0})) (s t : Session P)
        → Won (((attempt P nil (or_failed r) >>= f) >>= g) s) t
        → (a : A) × (r ≡ some a) × Won ((f a >>= g) s) t
    unfolding ◌>>=◌
    need-Won none f g s t h = absurd (ground arith)
    need-Won (some a) f g s t h = (a, refl, h)

    Quiet-continue :
        (r : Flow A × Session P) (f : A → Exec P B) (g : B → Exec P (Unit {0})) (s t : Session P)
        → Quiet s r
        → Won (continue {P = P} (continue {P = P} r.0 f r.1).0 g (continue {P = P} r.0 f r.1).1) t
        → (a : A) × (u : Session P) × (r ≡ (next a, u)) × Same s u × Won ((f a >>= g) u) t
    unfolding ◌>>=◌
    Quiet-continue (next a, u) f g s t q h = (a, u, refl, q, h)
    Quiet-continue (returned c, u) f g s t q h = absurd q
    Quiet-continue (raised, u) f g s t q h = absurd (ground arith)
    Quiet-continue (faulted, u) f g s t q h = absurd (ground arith)
    Quiet-continue (exited, u) f g s t q h = absurd (ground arith)

    pub Quiet-Won :
        (m : Exec P A) (f : A → Exec P B) (g : B → Exec P (Unit {0})) (s t : Session P)
        → Quiet s (m s)
        → Won (((m >>= f) >>= g) s) t
        → (a : A) × (u : Session P) × (m s ≡ (next a, u)) × Same s u × Won ((f a >>= g) u) t
    unfolding ◌>>=◌
    Quiet-Won m f g s t q h = Quiet-continue (m s) f g s t q h

  -- A test that ends the login where it fails.
  pub guard-Won :
      (b : Bool) (g : Unit {0} → Exec P (Unit {0})) (s t : Session P)
      → Won (((if b then pure P tt else return_code P nil) >>= g) s) t
      → (b ≡ true) × Won (g tt s) t
  unfolding ◌>>=◌
  guard-Won true g s t h = (refl, h)
  guard-Won false g s t h = absurd (ground arith)

  pub branch-Won :
      {A : Type 0} (b : Bool) (m : Exec P A) (g : A → Exec P (Unit {0})) (s t : Session P)
      → Won (((if b then m else return_code P nil) >>= g) s) t
      → (b ≡ true) × Won ((m >>= g) s) t
  unfolding ◌>>=◌
  branch-Won true m g s t h = (refl, h)
  branch-Won false m g s t h = absurd (ground arith)

  -- The same with more of the action to come.
  pub check-Won :
      {A : Type 0} (b : Bool) (f : Unit {0} → Exec P A) (g : A → Exec P (Unit {0}))
      (s t : Session P)
      → Won ((((if b then pure P tt else return_code P nil) >>= f) >>= g) s) t
      → (b ≡ true) × Won ((f tt >>= g) s) t
  unfolding ◌>>=◌
  check-Won true f g s t h = (refl, h)
  check-Won false f g s t h = absurd (ground arith)
