-- ===== src/Session/Delivery.antt =====
-- A message that a worker sends, as its client opens it.
use foc_project.Prelude.{
  ℕ, ◌+◌, ◌<◌, ◌≤◌, ◌≡◌, refl, sym, ap, false, Option, some, List, [], ◌∷◌, ◌++◌, ◌==◌, arith,
  length, take, take_all,
}
use foc_project.Memory.{Buffer, ok}
use foc_project.Memory.Laws.{first_part}
use foc_project.Words.{minus_one, htonl}
use foc_project.Security.Evp.{IsCcm}
use foc_project.Security.Ccm.{encrypt_aes_ccm}
use foc_project.Security.Counter.{increment_counter, increment_counter-eq-suc}
use foc_project.Packets.Codes.{counter_max_value}
use foc_project.Packets.Wrapper
use foc_project.Packets.Wrapper.{Wrapper}
use foc_project.Packets.Wrapper.Laws as WrapperLaws
use foc_project.Platform.{Platform}
use foc_project.Session.{
  Session, one, next, returned, return_code, ◌>>=◌, random_value, random_next, send_data, send_next,
  transmit, transmit_next, advance_sent, send_message,
}

module _ {P : Platform} where
  abbrev pub envelope : Session P → Buffer → Wrapper
  envelope s payload = Wrapper.make s.session_key s.s_counter payload

  -- The next message can be sent: RAND_bytes, OpenSSL and `send` will do their part, with the whole
  -- packet going out, the sizes fit,
  -- and the counter is not at its end.
  pub record Ready (s : Session P) (payload : Buffer) : Type 0 where
    pub iv : Buffer
    pub randoms : List (Option Buffer)
    pub room : ℕ
    pub accepts : List (Option ℕ)
    pub cipher : Buffer
    pub tag : Buffer
    pub random : s.random ≡ some iv ∷ randoms
    pub accepted : s.accepted ≡ some room ∷ accepts
    pub whole : Wrapper.get_size P.host P.evp (length payload) ≤ room
    pub counter : s.s_counter < counter_max_value
    pub fits : WrapperLaws.Fits P.evp (envelope s payload) iv
    pub sealed :
        encrypt_aes_ccm P.evp payload s.session_key iv
          (Wrapper.create_aad P.host P.evp (htonl P.host s.s_counter) iv)
        ≡ ok (cipher, tag)

  -- `t` comes after `s` with one more message sent, which opens to `payload` under the key of the
  -- session, carries the counter that was due and has the size of its payload. The rest of the
  -- session is the same.
  pub record Delivered (s : Session P) (payload : Buffer) (t : Session P) : Type 0 where
    pub packet : Buffer
    pub sent : t.sent ≡ s.sent ++ (packet ∷ [])
    pub opens : Wrapper.deserialize P.host P.evp s.session_key packet ≡ ok (envelope s payload)
    pub counter : t.s_counter ≡ s.s_counter + 1
    pub disk : t.disk ≡ s.disk
    pub key : t.session_key ≡ s.session_key
    pub user : t.username ≡ s.username
    pub expected : t.r_counter ≡ s.r_counter
    pub left : t.received ≡ s.received
    pub size : length packet ≡ Wrapper.get_size P.host P.evp (length payload)

  send_message_lem :
      (s : Session P) (payload : Buffer) (r : Ready s payload) (packet : Buffer)
      → Wrapper.serialize P.host P.evp (envelope s payload) (some r.iv) ≡ ok packet
      → length packet ≡ Wrapper.get_size P.host P.evp (length payload)
      → send_message P payload s ≡ (
        next tt,
        record s {
          random = r.randoms;
          accepted = r.accepts;
          s_counter = s.s_counter + 1;
          sent = s.sent ++ (packet ∷ []);
        },
      )
  unfolding send_message random_value random_next transmit send_data send_next transmit_next
      advance_sent ◌>>=◌
  send_message_lem s payload r packet h size =
      let all : take r.room packet ≡ packet =
        take_all r.room packet (omega (arith, size, r.whole)) in
      let up : increment_counter s.s_counter ≡ s.s_counter + 1 =
        increment_counter-eq-suc s.s_counter r.counter in
      let more : (s.s_counter + 1 == minus_one) ≡ false = ground (arith, r.counter) in
      rw (r.random, h, r.accepted, up, more, all) refl

  -- A message that can be sent (`Ready`) is sent as one packet, which opens under the session key
  -- to the payload and the counter that was due; the counter goes up by one and the disk is the
  -- same. OpenSSL is assumed to be lawful.
  pub send_message-Delivered :
      IsCcm P.evp
      → (s : Session P) (payload : Buffer) → Ready s payload
      → ((send_message P payload s).0 ≡ next tt) × Delivered s payload (send_message P payload s).1
  unfolding Wrapper.make
  send_message-Delivered c s payload r =
      let (packet, made, opens) = first_part _ _ (
        sym (
          WrapperLaws.wrapper_round_trip P.host P.evp c (envelope s payload) r.iv r.fits
            r.sealed)) in
      let size =
        WrapperLaws.length-serialize P.host P.evp c (envelope s payload) r.iv r.fits r.sealed
          (sym made) in
      let e = send_message_lem s payload r packet (sym made) size in
      rw (e) (
        refl,
        record {
          packet = packet;
          sent = refl;
          opens = sym opens;
          counter = refl;
          disk = refl;
          key = refl;
          user = refl;
          expected = refl;
          left = refl;
          size = size;
        },
      )

  -- The end that the handlers share.
  pub answer-Delivered :
      IsCcm P.evp
      → (s : Session P) (payload : Buffer) → Ready s payload
      → let r = (send_message P payload >>= λ _. return_code P {A = Unit {0}} one) s in
        (r.0 ≡ returned one) × Delivered s payload r.1
  unfolding ◌>>=◌
  answer-Delivered c s payload r =
      let (e, d) = send_message-Delivered c s payload r in rw (e) (refl, d)

  -- A sequence of messages, one after the other.
  abbrev pub ReadyAll : Session P → List Buffer → Type 0
  ReadyAll s [] = Unit
  ReadyAll s (m ∷ ms) = Ready s m × ReadyAll (send_message P m s).1 ms

  pub data Sends : Session P → List Buffer → Session P → Type 0 where
    stop : {s : Session P} → Sends s [] s
    step :
        {s t u : Session P} {m : Buffer} {ms : List Buffer}
        → Delivered s m t
        → Sends t ms u
        → Sends s (m ∷ ms) u

  -- The state after all messages.
  abbrev pub after : Session P → List Buffer → Session P
  after s [] = s
  after s (m ∷ ms) = after (send_message P m s).1 ms

  pub ReadyAll-Sends :
      IsCcm P.evp → (s : Session P) (ms : List Buffer) → ReadyAll s ms → Sends s ms (after s ms)
  ReadyAll-Sends c s [] r = stop
  ReadyAll-Sends c s (m ∷ ms) (r, rs) =
      step (send_message-Delivered c s m r).1 (ReadyAll-Sends c (send_message P m s).1 ms rs)

  pub ReadyAll-append :
      (s : Session P) (ms ns : List Buffer)
      → ReadyAll s (ms ++ ns)
      → ReadyAll s ms × ReadyAll (after s ms) ns × (after s (ms ++ ns) ≡ after (after s ms) ns)
  ReadyAll-append s [] ns r = (tt, r, refl)
  ReadyAll-append s (m ∷ ms) ns (r, rs) =
      let (a, b, e) = ReadyAll-append (send_message P m s).1 ms ns rs in ((r, a), b, e)

  -- A message that is ready is sent, so that the action goes on.
  pub send_message-next :
      (s : Session P) (payload : Buffer)
      → IsCcm P.evp
      → Ready s payload
      → send_message P payload s ≡ (next tt, (send_message P payload s).1)
  send_message-next s payload c r =
      ap (λ f. (f, (send_message P payload s).1)) (send_message-Delivered c s payload r).0
