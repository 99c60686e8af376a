-- ===== src/Session/Arrival.antt =====
-- A packet that comes to a worker in order.
use foc_project.Prelude.{
  ℕ, ◌+◌, ◌-◌, ◌<◌, ◌≡◌, refl, ap, subst, ◌∙◌, Option, some, List, [], ◌∷◌, append-nil, arith,
  length, take, replicate, take_all, true, false, ◌==◌,
}
use foc_project.Memory.{Buffer, ok, zeros}
use foc_project.Words.{minus_one}
use foc_project.Security.Counter.{increment_counter, increment_counter-eq-suc}
use foc_project.Packets.Codes.{counter_max_value}
use foc_project.Packets.Wrapper
use foc_project.Packets.Wrapper.{Wrapper}
use foc_project.Packets.Wrapper.Laws.{deserialize-pos}
use foc_project.Platform.{Platform}
use foc_project.Session.{Session, next, receive_data, receive_next, check_counter, advance_received}

receive_full :
    {P : Platform} (packet : Buffer) (rest : List (Option Buffer)) (n : ℕ) (s : Session P)
    → length packet ≡ n
    → 0 < n
    → receive_next P (some packet ∷ rest) n s ≡ (next (some packet), record s { received = rest })
unfolding receive_next zeros replicate
receive_full [] rest n s e h = absurd (omega arith)
receive_full (b ∷ bs) rest n s e h =
    let all : take n (b ∷ bs) ≡ b ∷ bs = take_all n (b ∷ bs) (omega arith) in
    let none_left : n - length (b ∷ bs) ≡ 0 = omega arith in
    rw (all, none_left, append-nil (b ∷ bs)) refl

module _ {P : Platform} where
  -- The next packet that comes opens to `payload` under the key of the session, carries the counter
  -- that is expected, and has the size of its payload.
  pub record Arrives (s : Session P) (payload : Buffer) : Type 0 where
    pub packet : Buffer
    pub rest : List (Option Buffer)
    pub received : s.received ≡ some packet ∷ rest
    pub opens :
        Wrapper.deserialize P.host P.evp s.session_key packet
        ≡ ok (Wrapper.make s.session_key s.r_counter payload)
    pub size : length packet ≡ Wrapper.get_size P.host P.evp (length payload)
    pub counter : s.r_counter < counter_max_value

  pub receive_data-Arrives :
      (s : Session P) (payload : Buffer) (a : Arrives s payload)
      → receive_data P (Wrapper.get_size P.host P.evp (length payload)) s
        ≡ (next (some a.packet), record s { received = a.rest })
  unfolding receive_data
  receive_data-Arrives s payload a =
      let n : ℕ = Wrapper.get_size P.host P.evp (length payload) in
      ap (λ xs. receive_next P xs n s) a.received
      ∙ receive_full a.packet a.rest n s a.size
          (subst (λ k. 0 < k) a.size (deserialize-pos P.host P.evp s.session_key a.packet a.opens))

  -- The expected counter is let through.
  pub check_counter_expected :
      (s : Session P)
      → s.r_counter < counter_max_value
      → check_counter P s.r_counter s ≡ (next tt, record s { r_counter = s.r_counter + 1 })
  unfolding check_counter advance_received
  check_counter_expected s h =
      let up : increment_counter s.r_counter ≡ s.r_counter + 1 =
        increment_counter-eq-suc s.r_counter h in
      let more : (s.r_counter + 1 == minus_one) ≡ false = ground (arith, h) in
      let same : (s.r_counter == s.r_counter) ≡ true = ground arith in rw (same, up, more) refl
