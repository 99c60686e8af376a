-- ===== src/Session/Ahead/Actions.antt =====
-- The rules for the actions that receive and send.
use foc_project.Prelude.{
  ℕ, suc, ◌+◌, ◌<◌, ◌^◌, ◌≡◌, refl, ap, ◌⊎◌, inl, inr, Bool-cases, Bool, true, false, Option, none,
  some, List, [], ◌∷◌, ◌++◌, ◌==◌, arith, length, length-append, take, if◌then◌else◌,
}
use foc_project.Memory.{Buffer}
use foc_project.Security.Counter.{increment_counter, increment_counter_cases}
use foc_project.Words.{minus_one}
use foc_project.Platform.{Platform}
use foc_project.Session.{
  Session, minus, next, returned, ◌>>=◌, send_data, receive_data, receive_next, random_next,
  random_value, send_next, transmit_next, wrap, transmit, send_message, check_counter,
  advance_received, next_line, read_line_into, read_line, without_line, ignore_line,
}
use foc_project.Session.Ahead.{
  IsLive, Ahead, Ahead-refl, Ahead-Quiet, Post, Safe, Safe-bind, Safe-pure, Safe-attempt,
  Safe-get_state,
}

increment_counter-next :
    (c : ℕ)
    → c < 2 ^ 31
    → (increment_counter c ≡ minus_one)
      ⊎ ((increment_counter c ≡ c + 1) × (increment_counter c < 2 ^ 31))
increment_counter-next c h = elim (increment_counter_cases c h) [
  | inl e ↦ inl e
  | inr (e, b) ↦ inr (e, rw e b)
]

module _ {P : Platform} where
  random_next_lem :
      (rs : List (Option Buffer)) (s : Session P)
      → IsLive s
      → Post s (random_next P rs s).0 (random_next P rs s).1
  unfolding random_next
  random_next_lem [] s l = Ahead-refl s l
  random_next_lem (r ∷ rs) s l = Ahead-Quiet s _ l (refl, refl, refl, refl, refl)

  pub Safe-random_value : Safe (random_value P)
  unfolding random_value
  Safe-random_value = record { at = λ s l. random_next_lem s.random s l }

  Ahead-received :
      (s : Session P) (x : Option Buffer) (xs : List (Option Buffer))
      → s.received ≡ x ∷ xs
      → IsLive s
      → Ahead s (record s { received = xs })
  Ahead-received s x xs e l = record {
    user = refl;
    left = omega (arith, ap length e);
    r_le = omega arith;
    s_le = omega arith;
    r_live = l.r_live;
    s_live = l.s_live;
    counted = refl;
  }

  receive_next_lem :
      (xs : List (Option Buffer)) (n : ℕ) (s : Session P)
      → s.received ≡ xs
      → IsLive s
      → Post s (receive_next P xs n s).0 (receive_next P xs n s).1
  unfolding receive_next
  receive_next_lem [] n s e l = Ahead-refl s l
  receive_next_lem (none ∷ xs) n s e l = Ahead-received s none xs e l
  receive_next_lem (some [] ∷ xs) n s e l = Ahead-received s (some []) xs e l
  receive_next_lem (some (b ∷ bs) ∷ xs) n s e l = Ahead-received s (some (b ∷ bs)) xs e l

  pub Safe-receive_data : (n : ℕ) → Safe (receive_data P n)
  unfolding receive_data
  Safe-receive_data n = record { at = λ s l. receive_next_lem s.received n s refl l }

  pub Safe-wrap : (payload : Buffer) → Safe (wrap P payload)
  unfolding wrap
  Safe-wrap payload =
      Safe-bind _ _ Safe-random_value λ iv. Safe-bind _ _ Safe-get_state λ s. Safe-attempt _

  advance_sent_lem :
      (s : Session P) (packet : Buffer) (rest : List (Option ℕ)) (c : ℕ)
      → IsLive s
      → (c ≡ minus_one) ⊎ ((c ≡ s.s_counter + 1) × (c < 2 ^ 31))
      → Post {A = Unit {0}} s
          (if c == minus_one then returned minus else next tt)
          (record s { accepted = rest; sent = s.sent ++ (packet ∷ []); s_counter = c })
  advance_sent_lem s packet rest c l (inl e) = rw (e) tt
  advance_sent_lem s packet rest c l (inr (e, b)) =
      let more : (c == minus_one) ≡ false = ground arith in
      rw more (record {
        user = refl;
        left = omega arith;
        r_le = omega arith;
        s_le = omega arith;
        r_live = l.r_live;
        s_live = b;
        counted = omega (arith, length-append s.sent (packet ∷ []));
      })

  transmit_lem :
      (accepted : List (Option ℕ)) (packet : Buffer) (s : Session P)
      → IsLive s
      → let r = (send_next P accepted packet >>= transmit_next P) s in Post s r.0 r.1
  unfolding send_next transmit ◌>>=◌
  transmit_lem [] packet s l = Ahead-refl s l
  transmit_lem (none ∷ rest) packet s l = Ahead-Quiet s _ l (refl, refl, refl, refl, refl)
  transmit_lem (some n ∷ rest) packet s l =
      advance_sent_lem s (take n packet) rest (increment_counter s.s_counter) l
        (increment_counter-next s.s_counter l.s_live)

  pub Safe-transmit : (packet : Buffer) → Safe (transmit P packet)
  unfolding transmit send_data ◌>>=◌
  Safe-transmit packet = record { at = λ s l. transmit_lem s.accepted packet s l }

  pub Safe-send_message : (payload : Buffer) → Safe (send_message P payload)
  unfolding send_message
  Safe-send_message payload = Safe-bind _ _ (Safe-wrap payload) λ packet. Safe-transmit packet

  advance_received_lem :
      (s : Session P) (c : ℕ)
      → IsLive s
      → (c ≡ minus_one) ⊎ ((c ≡ s.r_counter + 1) × (c < 2 ^ 31))
      → Post {A = Unit {0}} s
          (if c == minus_one then returned minus else next tt)
          (record s { r_counter = c })
  advance_received_lem s c l (inl e) = rw (e) tt
  advance_received_lem s c l (inr (e, b)) =
      let more : (c == minus_one) ≡ false = ground arith in
      rw more (record {
        user = refl;
        left = omega arith;
        r_le = omega arith;
        s_le = omega arith;
        r_live = b;
        s_live = l.s_live;
        counted = refl;
      })

  check_counter_lem :
      (counter : ℕ) (s : Session P)
      → IsLive s
      → Post s (check_counter P counter s).0 (check_counter P counter s).1
  unfolding check_counter
  check_counter_lem counter s l = elim (Bool-cases (counter == s.r_counter)) [
    | inl e ↦ rw e (
        advance_received_lem s (increment_counter s.r_counter) l
          (increment_counter-next s.r_counter l.r_live))
    | inr e ↦ rw e tt
  ]

  pub Safe-check_counter : (counter : ℕ) → Safe (check_counter P counter)
  Safe-check_counter counter = record { at = check_counter_lem counter }

  pub Safe-advance_received : Safe (advance_received P)
  unfolding advance_received
  Safe-advance_received = record {
    at = λ s l.
        advance_received_lem s (increment_counter s.r_counter) l
          (increment_counter-next s.r_counter l.r_live);
  }

  next_line_lem :
      (good : Bool) (lines : List Buffer) (old : Buffer) (s : Session P)
      → IsLive s
      → Post s (next_line P good lines old s).0 (next_line P good lines old s).1
  unfolding next_line
  next_line_lem false lines old s l = Ahead-refl s l
  next_line_lem true [] old s l = Ahead-Quiet s _ l (refl, refl, refl, refl, refl)
  next_line_lem true (line ∷ lines) old s l = Ahead-Quiet s _ l (refl, refl, refl, refl, refl)

  pub Safe-read_line_into : (old : Buffer) → Safe (read_line_into P old)
  unfolding read_line_into
  Safe-read_line_into old = record { at = λ s l. next_line_lem s.input_good s.console old s l }

  pub Safe-read_line : Safe (read_line P)
  unfolding read_line
  Safe-read_line = Safe-bind _ _ (Safe-read_line_into []) λ (good, line). Safe-pure _

  without_line_lem :
      (lines : List Buffer) (s : Session P)
      → IsLive s
      → Post s (without_line P lines s).0 (without_line P lines s).1
  unfolding without_line
  without_line_lem [] s l = Ahead-Quiet s _ l (refl, refl, refl, refl, refl)
  without_line_lem (line ∷ lines) s l = Ahead-Quiet s _ l (refl, refl, refl, refl, refl)

  pub Safe-ignore_line : Safe (ignore_line P)
  unfolding ignore_line
  Safe-ignore_line = record { at = λ s l. without_line_lem s.console s l }

  receive_next_cases :
      (xs : List (Option Buffer)) (n : ℕ) (s : Session P)
      → ((receive_next P xs n s).0 ≡ next none)
        ⊎ ((b : Buffer) × ((receive_next P xs n s).0 ≡ next (some b))
            × (suc (length (receive_next P xs n s).1.received) ≡ length xs))
  unfolding receive_next
  receive_next_cases [] n s = inl refl
  receive_next_cases (none ∷ xs) n s = inl refl
  receive_next_cases (some [] ∷ xs) n s = inl refl
  receive_next_cases (some (b ∷ bs) ∷ xs) n s = inr (_, refl, refl)

  -- Nothing came, or an answer of `recv` was used up.
  pub receive_data_cases :
      (n : ℕ) (s : Session P)
      → ((receive_data P n s).0 ≡ next none)
        ⊎ ((b : Buffer) × ((receive_data P n s).0 ≡ next (some b))
            × (suc (length (receive_data P n s).1.received) ≡ length s.received))
  unfolding receive_data
  receive_data_cases n s = receive_next_cases s.received n s

  -- A counter that is let through is the expected one, which has gone up.
  pub check_counter-next :
      (counter : ℕ) (s : Session P)
      → IsLive s
      → (check_counter P counter s).0 ≡ next tt
      → (counter ≡ s.r_counter)
        × (check_counter P counter s ≡ (next tt, record s { r_counter = s.r_counter + 1 }))
  unfolding check_counter
  check_counter-next counter s l h = ground (arith, increment_counter_cases s.r_counter l.r_live)
