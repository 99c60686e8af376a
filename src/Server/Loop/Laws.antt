-- ===== src/Server/Loop/Laws.antt =====
-- Laws of the loop in `Worker::start` of server/worker.cpp: its progress and its counters.
use foc_project.Prelude.{
  ℕ, zero, suc, ◌<◌, ◌≡◌, ◌≢◌, refl, subst, ◌⊎◌, inl, inr, Bool-cases, Option, none, some, ◌==◌,
  arith, length,
}
use foc_project.Memory.{Buffer}
use foc_project.Packets.Codes.{
  upload_req, download_req, list_req, rename_req, delete_req, logout_req, initial_request_length,
}
use foc_project.Packets.Wrapper
use foc_project.Packets.Wrapper.{Wrapper}
use foc_project.Platform.{Platform}
use foc_project.Session.{
  Session, one, nil, minus, Flow, next, returned, raised, faulted, exited, Exec, return_code,
  continue, ◌>>=◌, receive_data,
}
use foc_project.Session.Ahead.{
  IsLive, Ahead, Ahead-IsLive, Post, Post-next, Post-trans, Safe, Safe-bind, Safe-pure, Safe-return,
  Safe-attempt, Safe-get_state,
}
use foc_project.Session.Ahead.Actions.{Safe-receive_data, Safe-check_counter, receive_data_cases}
use foc_project.Server.Requests.Safety.{
  Safe-if, Safe-rename_file, Safe-delete_file, Safe-list_files, Safe-logout,
}
use foc_project.Server.Transfers.Safety.{Safe-upload_file, Safe-download_file}
use foc_project.Server.Loop.{handle, settle, serve_packet, serve_request, end_of_round, serve}

module _ {P : Platform} where
  pub Safe-handle : (command : ℕ) (payload : Buffer) → Safe (handle P command payload)
  unfolding handle
  Safe-handle command payload = Safe-if (command == upload_req) _ _ (Safe-upload_file payload) (
      Safe-if (command == download_req) _ _ (Safe-download_file payload) (
        Safe-if (command == list_req) _ _ (Safe-list_files payload) (
          Safe-if (command == rename_req) _ _ (Safe-rename_file payload) (
            Safe-if (command == delete_req) _ _ (Safe-delete_file payload) (
              Safe-if (command == logout_req) _ _ (Safe-logout payload)
                (record { at = λ s l. tt }))))))

  settle-Post :
      (s : Session P) (r : Flow (Unit {0})) (t : Session P)
      → Post s r t
      → Post s (settle P (r, t)).0 (settle P (r, t)).1
  unfolding settle
  settle-Post s (next _) t h = h
  settle-Post s (returned one) t h = h
  settle-Post s (returned nil) t h = h
  settle-Post s (returned minus) t h = tt
  settle-Post s raised t h = tt
  settle-Post s faulted t h = tt
  settle-Post s exited t h = tt

  pub Safe-settle : (m : Exec P (Unit {0})) → Safe m → Safe (λ t. settle P (m t))
  Safe-settle m h = record { at = λ s l. settle-Post s (m s).0 (m s).1 (h.at s l) }

  pub Safe-serve_packet : (answer : Option Buffer) → Safe (serve_packet P answer)
  unfolding serve_packet
  Safe-serve_packet none = Safe-return nil
  Safe-serve_packet (some packet) = Safe-bind _ _ Safe-get_state λ s.
      Safe-bind _ _ (Safe-attempt _) λ w. Safe-bind _ _ (Safe-attempt _) λ command.
        Safe-bind _ _ (Safe-check_counter w.counter)
          λ _. Safe-bind _ _ (Safe-settle _ (Safe-handle command w.pt)) λ _. Safe-pure command

  pub continue-eq-next :
      {A B : Type 0} (r : Flow A) (f : A → Exec P B) (t : Session P) {b : B}
      → (continue r f t).0 ≡ next b
      → (a : A) × (r ≡ next a) × ((f a t).0 ≡ next b)
  continue-eq-next (next a) f t h = (a, refl, h)
  continue-eq-next (returned c) f t h = absurd (ground arith)
  continue-eq-next raised f t h = absurd (ground arith)
  continue-eq-next faulted f t h = absurd (ground arith)
  continue-eq-next exited f t h = absurd (ground arith)

  serve_packet-none : (t : Session P) {c : ℕ} → (serve_packet P none t).0 ≢ next c
  unfolding serve_packet return_code
  serve_packet-none t h = ground arith

  abbrev round : Flow (Option Buffer) → Session P → Flow ℕ × Session P
  round r t = continue r (serve_packet P) t

  round_left :
      (s t : Session P) (r : Flow (Option Buffer)) {c : ℕ}
      → IsLive s
      → Post s r t
      → (r ≡ next none)
        ⊎ ((b : Buffer) × (r ≡ next (some b)) × (suc (length t.received) ≡ length s.received))
      → (round r t).0 ≡ next c
      → length (round r t).1.received < length s.received
  round_left s t r {c} l p (inl e) h =
      absurd (serve_packet-none t {c = c} (subst (λ q. (round q t).0 ≡ next c) e h))
  round_left s t (next o) l p (inr (b, e, d)) h =
      let (u, q) = serve_packet P o t in
      let a = Post-next t u q h ((Safe-serve_packet o).at t (Ahead-IsLive p)) in
      omega (arith, a.left, d)
  round_left s t (returned c) l p (inr (b, e, d)) h = absurd (ground arith)
  round_left s t raised l p (inr (b, e, d)) h = absurd (ground arith)
  round_left s t faulted l p (inr (b, e, d)) h = absurd (ground arith)
  round_left s t exited l p (inr (b, e, d)) h = absurd (ground arith)

  pub serve_request_left :
      (s : Session P) {c : ℕ}
      → IsLive s
      → (serve_request P s).0 ≡ next c
      → length (serve_request P s).1.received < length s.received
  unfolding serve_request ◌>>=◌
  serve_request_left s l h =
      let n : ℕ = Wrapper.get_size P.host P.evp initial_request_length in
      round_left s (receive_data P n s).1 (receive_data P n s).0 l ((Safe-receive_data n).at s l)
        (receive_data_cases n s) h

  pub Safe-serve_request : Safe (serve_request P)
  unfolding serve_request
  Safe-serve_request = Safe-bind _ _ (Safe-receive_data _) λ answer. Safe-serve_packet answer

  end_of_round-ne-none :
      (again : Session P → Option (Flow (Unit {0}) × Session P)) (r : Flow ℕ) (t : Session P)
      → ((c : ℕ) → r ≡ next c → again t ≢ none)
      → end_of_round P again r t ≢ none
  unfolding end_of_round
  end_of_round-ne-none again (next c) t h e = ground (arith, h c refl)
  end_of_round-ne-none again (returned c) t h e = ground arith
  end_of_round-ne-none again raised t h e = ground arith
  end_of_round-ne-none again faulted t h e = ground arith
  end_of_round-ne-none again exited t h e = ground arith

  -- With more fuel than answers of `recv` to come, the loop of a session that is not at the end
  -- of its counters ends: every round that goes on takes an answer.
  pub serve_total :
      (fuel : ℕ) (s : Session P) → IsLive s → length s.received < fuel → serve P fuel s ≢ none
  unfolding serve
  serve_total zero s l h = absurd (omega arith)
  serve_total (suc fuel) s l h =
      let (r, t) = serve_request P s in
      end_of_round-ne-none (serve P fuel) r t λ c e.
        serve_total fuel t (Ahead-IsLive (Post-next s r t e (Safe-serve_request.at s l)))
          (omega (arith, serve_request_left s l e))

  Serves : Session P → Option (Flow (Unit {0}) × Session P) → Type 0
  Serves s none = Unit
  Serves s (some (r, t)) = Post s r t

  weaken :
      (s t : Session P) (o : Option (Flow (Unit {0}) × Session P))
      → Ahead s t
      → Serves t o
      → Serves s o
  unfolding Serves
  weaken s t none a h = tt
  weaken s t (some (r, u)) a h = Post-trans r u a h

  end_of_round-Serves :
      (again : Session P → Option (Flow (Unit {0}) × Session P)) (s : Session P) (r : Flow ℕ)
      (t : Session P)
      → Post s r t
      → ((t : Session P) → IsLive t → Serves t (again t))
      → Serves s (end_of_round P again r t)
  unfolding end_of_round Serves
  end_of_round-Serves again s (next c) t h k = elim (Bool-cases (c == logout_req)) [
    | inl e ↦ rw e h
    | inr e ↦ rw e (weaken s t (again t) h (k t (Ahead-IsLive h)))
  ]
  end_of_round-Serves again s (returned one) t h k = h
  end_of_round-Serves again s (returned nil) t h k = h
  end_of_round-Serves again s (returned minus) t h k = tt
  end_of_round-Serves again s raised t h k = tt
  end_of_round-Serves again s faulted t h k = tt
  end_of_round-Serves again s exited t h k = tt

  serve-Serves : (fuel : ℕ) (s : Session P) → IsLive s → Serves s (serve P fuel s)
  unfolding serve Serves
  serve-Serves zero s l = tt
  serve-Serves (suc fuel) s l =
      let (r, t) = serve_request P s in
      end_of_round-Serves (serve P fuel) s r t (Safe-serve_request.at s l) (serve-Serves fuel)

  -- When the loop returns 0 after a logout or an error of a message, the user is the same, both
  -- counters have not gone down and are still below 2^31, no more answers are left than before,
  -- and the counter for sending went up by the number of messages sent, whole or in part,
  -- whatever requests came.
  pub serve-Ahead :
      (fuel : ℕ) (s : Session P) {t : Session P}
      → IsLive s
      → serve P fuel s ≡ some (returned nil, t)
      → Ahead s t
  unfolding Serves
  serve-Ahead fuel s l h = subst (Serves s) h (serve-Serves fuel s l)
