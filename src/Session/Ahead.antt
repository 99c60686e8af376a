-- ===== src/Session/Ahead.antt =====
-- How a session goes on: rules for the actions, one for each way to build one.
pub mod Actions
use foc_project.Prelude.{
  ℕ, suc, ◌+◌, ◌≤◌, ◌<◌, ◌^◌, ◌≡◌, refl, ap, subst, ◌∙◌, ◌⊎◌, inl, inr, Bool-cases, Bool, true,
  false, Option, none, some, List, [], ◌∷◌, ◌++◌, ◌==◌, arith, length, length-append, if◌then◌else◌,
}
use foc_project.Memory.{Buffer, Result, ok, failed, thrown, undefined}
use foc_project.Security.Counter.{increment_counter, increment_counter_cases}
use foc_project.Words.{minus_one}
use foc_project.Platform.{Platform}
use foc_project.Session.{
  Session, Code, one, nil, minus, Flow, next, returned, raised, faulted, exited, Exec, pure,
  return_code, attempt, get_state, set_disk, continue, ◌>>=◌, send_data, receive_data, receive_next,
  random_next, random_value, send_next, transmit_next, wrap, transmit, send_message, check_counter,
}

module _ {P : Platform} where
  -- Neither counter has reached the end of the session.
  pub record IsLive (s : Session P) : Type 0 where
    pub s_live : s.s_counter < 2 ^ 31
    pub r_live : s.r_counter < 2 ^ 31

  -- `t` comes after `s` in a session that is not at its end.
  pub record Ahead (s t : Session P) : Type 0 where
    pub user : t.username ≡ s.username
    pub left : length t.received ≤ length s.received
    pub r_le : s.r_counter ≤ t.r_counter
    pub s_le : s.s_counter ≤ t.s_counter
    pub r_live : t.r_counter < 2 ^ 31
    pub s_live : t.s_counter < 2 ^ 31
    pub counted : t.s_counter + length s.sent ≡ s.s_counter + length t.sent

  pub Ahead-refl : (s : Session P) → IsLive s → Ahead s s
  Ahead-refl s l = record {
    user = refl;
    left = omega arith;
    r_le = omega arith;
    s_le = omega arith;
    r_live = l.r_live;
    s_live = l.s_live;
    counted = refl;
  }

  pub Ahead-IsLive : {s t : Session P} → Ahead s t → IsLive t
  Ahead-IsLive a = record { s_live = a.s_live; r_live = a.r_live }

  pub Ahead-trans : {s t u : Session P} → Ahead s t → Ahead t u → Ahead s u
  Ahead-trans a b = record {
    user = b.user ∙ a.user;
    left = omega (arith, a.left, b.left);
    r_le = omega (arith, a.r_le, b.r_le);
    s_le = omega (arith, a.s_le, b.s_le);
    r_live = b.r_live;
    s_live = b.s_live;
    counted = omega (arith, a.counted, b.counted);
  }

  -- What holds at the end: nothing is said where the worker does not serve on.
  abbrev pub Post : {A : Type 0} → Session P → Flow A → Session P → Type 0
  Post s (next a) t = Ahead s t
  Post s (returned one) t = Ahead s t
  Post s (returned nil) t = Ahead s t
  Post s (returned minus) t = Unit
  Post s raised t = Unit
  Post s faulted t = Unit
  Post s exited t = Unit

  -- An action that went on.
  pub Post-next :
      {A : Type 0} (s : Session P) (f : Flow A) (t : Session P) {a : A}
      → f ≡ next a
      → Post s f t
      → Ahead s t
  Post-next s f t e p = subst (λ g. Post s g t) e p

  pub record Safe {A : Type 0} (m : Exec P A) : Type 0 where
    pub at : (s : Session P) → IsLive s → Post s (m s).0 (m s).1

  pub Post-trans :
      {A : Type 0} {s t : Session P} (f : Flow A) (u : Session P)
      → Ahead s t
      → Post t f u
      → Post s f u
  Post-trans (next a) u h p = Ahead-trans h p
  Post-trans (returned one) u h p = Ahead-trans h p
  Post-trans (returned nil) u h p = Ahead-trans h p
  Post-trans (returned minus) u h p = tt
  Post-trans raised u h p = tt
  Post-trans faulted u h p = tt
  Post-trans exited u h p = tt

  continue-Post :
      {A B : Type 0} (s t : Session P) (r : Flow A) (f : A → Exec P B)
      → Post s r t
      → ((a : A) → Safe (f a))
      → Post s (continue r f t).0 (continue r f t).1
  continue-Post s t (next a) f h k = Post-trans (f a t).0 (f a t).1 h ((k a).at t (Ahead-IsLive h))
  continue-Post s t (returned one) f h k = h
  continue-Post s t (returned nil) f h k = h
  continue-Post s t (returned minus) f h k = tt
  continue-Post s t raised f h k = tt
  continue-Post s t faulted f h k = tt
  continue-Post s t exited f h k = tt

  pub Safe-bind :
      {A B : Type 0} (m : Exec P A) (f : A → Exec P B)
      → Safe m
      → ((a : A) → Safe (f a))
      → Safe (m >>= f)
  unfolding ◌>>=◌
  Safe-bind m f h k = record { at = λ s l. continue-Post s (m s).1 (m s).0 f (h.at s l) k }

  pub Safe-pure : {A : Type 0} (a : A) → Safe (pure P a)
  unfolding pure
  Safe-pure a = record { at = λ s l. Ahead-refl s l }

  pub Safe-return : {A : Type 0} (c : Code) → Safe (return_code P {A = A} c)
  unfolding return_code
  Safe-return one = record { at = λ s l. Ahead-refl s l }
  Safe-return nil = record { at = λ s l. Ahead-refl s l }
  Safe-return minus = record { at = λ s l. tt }

  pub Safe-attempt : {A : Type 0} (r : Result A) → Safe (attempt P nil r)
  unfolding attempt pure
  Safe-attempt (ok a) = Safe-pure a
  Safe-attempt failed = record { at = λ s l. Ahead-refl s l }
  Safe-attempt thrown = record { at = λ s l. tt }
  Safe-attempt undefined = record { at = λ s l. tt }

  pub Safe-get_state : Safe (get_state P)
  unfolding get_state
  Safe-get_state = record { at = λ s l. Ahead-refl s l }

  -- An action that leaves the name, the counters, the log and what is received as they were.
  abbrev pub Quiet : Session P → Session P → Type 0
  Quiet s t =
      (t.username ≡ s.username)
      × (t.s_counter ≡ s.s_counter)
      × (t.r_counter ≡ s.r_counter)
      × (t.received ≡ s.received)
      × (t.sent ≡ s.sent)

  pub Ahead-Quiet : (s t : Session P) → IsLive s → Quiet s t → Ahead s t
  Ahead-Quiet s t l (u, c, r, i, o) = record {
    user = u;
    left = ground (arith, i);
    r_le = omega arith;
    s_le = omega arith;
    r_live = omega (arith, l.r_live);
    s_live = omega (arith, l.s_live);
    counted = ground (arith, o, c);
  }

  pub Safe-set_disk : (disk : P.files.State) → Safe (set_disk P disk)
  unfolding set_disk
  Safe-set_disk disk = record { at = λ s l. Ahead-Quiet s _ l (refl, refl, refl, refl, refl) }
