-- ===== src/Server/Loop/Replay.antt =====
-- The check of the counters in `Worker::start` of server/worker.cpp: packets that are served, and
-- packets that are refused.
use foc_project.Prelude.{ℕ, ◌+◌, ◌≡◌, ◌≢◌, refl, sym, ap, subst, ◌∙◌, false, some, ◌==◌, arith}
use foc_project.Memory.{Buffer, Result, ok, failed, thrown, undefined, read_byte}
use foc_project.Packets.Wrapper
use foc_project.Packets.Wrapper.{Wrapper}
use foc_project.Platform.{Platform}
use foc_project.Session.{
  Session, nil, minus, next, returned, Exec, attempt, pure, continue, ◌>>=◌, ◌>>◌, check_counter,
}
use foc_project.Session.Ahead.{IsLive, Ahead, Ahead-IsLive, Safe, Safe-bind, Safe-pure, Post-next}
use foc_project.Session.Ahead.Actions.{Safe-check_counter, check_counter-next}
use foc_project.Server.Loop.{handle, settle, serve_packet}
use foc_project.Server.Loop.Laws.{Safe-handle, Safe-settle, continue-eq-next}

module _ {P : Platform} where
  attempt-next :
      {A B : Type 0} (r : Result A) (f : A → Exec P B) (s : Session P) {b : B}
      → ((attempt P nil r >>= f) s).0 ≡ next b
      → (a : A) × (r ≡ ok a) × ((attempt P nil r >>= f) s ≡ f a s)
  unfolding ◌>>=◌
  attempt-next (ok a) f s h = (a, refl, refl)
  attempt-next failed f s h = absurd (ground arith)
  attempt-next thrown f s h = absurd (ground arith)
  attempt-next undefined f s h = absurd (ground arith)

  -- What follows the check of the counter.
  abbrev carry_out : ℕ → Wrapper → Exec P ℕ
  carry_out command w = (λ t. settle P (handle P command w.pt t)) >> pure P command

  Safe-carry_out : (command : ℕ) (w : Wrapper) → Safe (carry_out command w)
  Safe-carry_out command w =
      Safe-bind _ _ (Safe-settle _ (Safe-handle command w.pt)) λ _. Safe-pure command

  abbrev served : Wrapper → ℕ → Exec P ℕ
  served w command = check_counter P w.counter >> carry_out command w

  checked :
      (counter : ℕ) (f : Exec P ℕ) (s : Session P) {c : ℕ}
      → IsLive s
      → Safe f
      → ((check_counter P counter >> f) s).0 ≡ next c
      → (counter ≡ s.r_counter)
        × Ahead (record s { r_counter = s.r_counter + 1 }) ((check_counter P counter >> f) s).1
  unfolding ◌>>=◌
  checked counter f s {c} l k h =
      let (a, e, g) =
        continue-eq-next (check_counter P counter s).0 (λ _. f) (check_counter P counter s).1 h in
      let (x, q) = check_counter-next counter s l e in
      let v : Session P = record s { r_counter = s.r_counter + 1 } in
      let live : IsLive v =
        subst (λ u. IsLive u.1) q
          (Ahead-IsLive (Post-next s _ _ e ((Safe-check_counter counter).at s l))) in
      let same : (check_counter P counter >> f) s ≡ f v = ap (λ u. continue u.0 (λ _. f) u.1) q in
      (
        x,
        subst (λ u. Ahead v u.1) (sym same)
            (Post-next v (f v).0 (f v).1 (subst (λ u. u.0 ≡ next c) same h) (k.at v live)),
      )

  -- If a packet is served and the loop goes on, then it opened under the session key, carried
  -- exactly the expected counter, and the expected counter is higher afterwards.
  pub serve_packet-next :
      (packet : Buffer) (s : Session P) {c : ℕ}
      → IsLive s
      → (serve_packet P (some packet) s).0 ≡ next c
      → (w : Wrapper) × (Wrapper.deserialize P.host P.evp s.session_key packet ≡ ok w)
        × (command : ℕ) × (read_byte w.pt 0 ≡ ok command)
        × (w.counter ≡ s.r_counter)
        × Ahead (record s { r_counter = s.r_counter + 1 }) (serve_packet P (some packet) s).1
  unfolding serve_packet ◌>>=◌ check_counter
  serve_packet-next packet s {c} l h =
      let rest : Wrapper → Exec P ℕ = λ w. attempt P nil (read_byte w.pt 0) >>= served w in
      let (w, d, q) =
        attempt-next (Wrapper.deserialize P.host P.evp s.session_key packet) rest s h in
      let g = subst (λ u. u.0 ≡ next c) q h in
      let (command, b, r) = attempt-next (read_byte w.pt 0) (served w) s g in
      let (e, a) =
        checked w.counter (carry_out command w) s l (Safe-carry_out command w)
          (subst (λ u. u.0 ≡ next c) r g) in
      (
        w,
        d,
        command,
        b,
        e,
        subst (λ u. Ahead (record s { r_counter = s.r_counter + 1 }) u.1) (sym (q ∙ r)) a,
      )

  -- A packet whose counter is not the expected one ends the worker; nothing has changed.
  pub serve_packet_replay :
      (packet : Buffer) (u : Session P) (w : Wrapper) {c : ℕ}
      → Wrapper.deserialize P.host P.evp u.session_key packet ≡ ok w
      → read_byte w.pt 0 ≡ ok c
      → w.counter ≢ u.r_counter
      → serve_packet P (some packet) u ≡ (returned minus, u)
  unfolding serve_packet check_counter ◌>>=◌
  serve_packet_replay packet u w {c} d b n =
      let other : (w.counter == u.r_counter) ≡ false = ground arith in rw (d, b, other) refl

  -- A packet that the loop has served once is refused in every later state of the session that
  -- has the same session key: the worker returns -1 and nothing of its state changes. The session
  -- is not at the end of its counters, and a later state is one that is `Ahead` of the state
  -- after the packet.
  pub replay_refused :
      (packet : Buffer) (s u : Session P) {c : ℕ}
      → IsLive s
      → (serve_packet P (some packet) s).0 ≡ next c
      → Ahead (serve_packet P (some packet) s).1 u
      → u.session_key ≡ s.session_key
      → serve_packet P (some packet) u ≡ (returned minus, u)
  replay_refused packet s u {c} l h a k =
      let (w, d, command, b, e, g) = serve_packet-next packet s l h in
      serve_packet_replay packet u w {c = command}
        (ap (λ key. Wrapper.deserialize P.host P.evp key packet) k ∙ d) b
        (λ same. absurd (omega (arith, g.r_le, a.r_le, same, e)))
