-- ===== src/Exchange.antt =====
-- A client and its worker: a message of the one as it arrives at the other, and a request with its
-- answer.
pub mod Rename
pub mod Delete
pub mod Streams
pub mod Download
pub mod Upload
use foc_project.Prelude.{
  ℕ, ◌+◌, ◌<◌, ◌≡◌, refl, sym, ap, subst, ◌∙◌, Bool, true, false, Option, none, some, List, [], ◌∷◌,
  ◌++◌, ◌==◌, arith, length, if◌then◌else◌,
}
use foc_project.Memory.{Buffer, Result, ok, read_byte}
use foc_project.Security.Evp.{IsCcm}
use foc_project.Packets.Codes.{counter_max_value, initial_request_length, rename_req}
use foc_project.Packets.Wrapper
use foc_project.Packets.Wrapper.{Wrapper}
use foc_project.Platform.{Platform}
use foc_project.Session.{
  Session, Code, one, nil, minus, Flow, next, returned, Exec, pure, return_code, attempt, get_state,
  ◌>>=◌, ◌>>◌, send_message, receive_data, check_counter,
}
use foc_project.Session.Arrival.{Arrives, receive_data-Arrives, check_counter_expected}
use foc_project.Session.Delivery.{Ready, Delivered, send_message-Delivered, send_message-next}
use foc_project.Server.Loop.{handle, settle, serve_packet, serve_request}
use foc_project.Client.Messages.{receive_packet, receive_message}

last-injective : (xs : List Buffer) {a b : Buffer} → xs ++ (a ∷ []) ≡ xs ++ (b ∷ []) → a ≡ b
last-injective [] h = cc
last-injective (x ∷ xs) h = last-injective xs (cc)

module _ {P : Platform} where
  -- What `a` sends next is what `b` expects next.
  pub record Linked (a b : Session P) : Type 0 where
    pub key : a.session_key ≡ b.session_key
    pub due : a.s_counter ≡ b.r_counter

  pub record Paired (client worker : Session P) : Type 0 where
    pub user : client.username ≡ worker.username
    pub up : Linked client worker
    pub down : Linked worker client

  -- The state of `b` once it has taken a message.
  abbrev pub taken : Session P → List (Option Buffer) → Session P
  taken b rest = record b { received = rest; r_counter = b.r_counter + 1 }

  -- A message that `a` has sent, and that `recv` gives to `b`.
  pub Delivered-Arrives :
      {a t b : Session P} {m p : Buffer} (rest : List (Option Buffer))
      → Linked a b
      → Delivered a m t
      → a.s_counter < counter_max_value
      → t.sent ≡ a.sent ++ (p ∷ [])
      → b.received ≡ some p ∷ rest
      → (x : Arrives b m) × (x.rest ≡ rest)
  Delivered-Arrives {a} {t} {b} {m} {p} rest l d live sent received =
      let same : d.packet ≡ p = last-injective a.sent (sym d.sent ∙ sent) in
      (
        record {
          packet = p;
          rest = rest;
          received = received;
          opens =
              subst
                (λ q.
                  Wrapper.deserialize P.host P.evp b.session_key q
                  ≡ ok (Wrapper.make b.session_key b.r_counter m))
                same
                (subst
                  (λ n.
                    Wrapper.deserialize P.host P.evp b.session_key d.packet
                    ≡ ok (Wrapper.make b.session_key n m))
                  l.due
                  (subst
                    (λ k.
                      Wrapper.deserialize P.host P.evp k d.packet
                      ≡ ok (Wrapper.make k a.s_counter m))
                    l.key d.opens));
          size = subst (λ q. length q ≡ Wrapper.get_size P.host P.evp (length m)) same d.size;
          counter = subst (λ n. n < counter_max_value) l.due live;
        },
        refl,
      )

  -- A client takes the message that it awaits.
  pub receive_message-Arrives :
      (b : Session P) (m : Buffer) (a : Arrives b m)
      → receive_message P (length m) b ≡ (next m, taken b a.rest)
  unfolding receive_message receive_packet Wrapper.make ◌>>=◌
  receive_message-Arrives b m a =
      rw
        (
          receive_data-Arrives b m a,
          a.opens,
          check_counter_expected (record b { received = a.rest }) a.counter,
        )
        refl

  -- A worker takes a request, and its handler carries it out.
  pub serve_request-Arrives :
      (b : Session P) (m : Buffer) (a : Arrives b m) {command : ℕ} {t : Session P}
      → length m ≡ initial_request_length
      → read_byte m 0 ≡ ok command
      → handle P command m (taken b a.rest) ≡ (returned one, t)
      → serve_request P b ≡ (next command, t)
  unfolding serve_request serve_packet settle Wrapper.make ◌>>=◌
  serve_request-Arrives b m a {command} {t} size first done =
      let arrived = receive_data-Arrives b m a in
      rw
        (
          ← size,
          arrived,
          a.opens,
          first,
          check_counter_expected (record b { received = a.rest }) a.counter,
          done,
        )
        refl

  -- A request is sent, and the payload of its answer is awaited.
  abbrev pub ask : Buffer → ℕ → (Buffer → Exec P (Unit {0})) → Exec P (Unit {0})
  ask request size next' = send_message P request >>= λ _. receive_message P size >>= next'

  ask-Arrives :
      IsCcm P.evp
      → (c : Session P) (request reply : Buffer) (next' : Buffer → Exec P (Unit {0}))
      → Ready c request
      → (a : Arrives (send_message P request c).1 reply)
      → ask request (length reply) next' c ≡ next' reply (taken (send_message P request c).1 a.rest)
  unfolding ◌>>=◌
  ask-Arrives C c request reply next' r a =
      rw (send_message-next c request C r, receive_message-Arrives _ reply a) refl

  -- A client and a worker that go through one request and its answer together.
  pub record Together (c w : Session P) (request reply : Buffer) (disk : P.files.State)
      : Type 0 where
    pub up : Buffer
    pub down : Buffer
    pub later_up : List (Option Buffer)
    pub later_down : List (Option Buffer)
    pub asks : Ready c request
    pub asked : (send_message P request c).1.sent ≡ c.sent ++ (up ∷ [])
    pub arrives : w.received ≡ some up ∷ later_up
    pub answers : Ready (record (taken w later_up) { disk = disk }) reply
    pub answered : (serve_request P w).1.sent ≡ w.sent ++ (down ∷ [])
    pub returns : c.received ≡ some down ∷ later_down

  module _ (C : IsCcm P.evp) {c w : Session P} {request reply : Buffer} {disk : P.files.State}
      {command : ℕ} (paired : Paired c w) (g : Together c w request reply disk)
      (size : length request ≡ initial_request_length) (first : read_byte request 0 ≡ ok command)
      (done : let r = handle P command request (taken w g.later_up) in
        (r.0 ≡ returned one)
        × Delivered (record (taken w g.later_up) { disk = disk }) reply r.1) where
    abbrev asked_state : Session P
    asked_state = (send_message P request c).1

    abbrev answered_state : Session P
    answered_state = (handle P command request (taken w g.later_up)).1

    asked-Delivered : Delivered c request asked_state
    asked-Delivered = (send_message-Delivered C c request g.asks).1

    request-Arrives : (x : Arrives w request) × (x.rest ≡ g.later_up)
    request-Arrives =
        Delivered-Arrives g.later_up paired.up asked-Delivered g.asks.counter g.asked g.arrives

    pub served : serve_request P w ≡ (next command, answered_state)
    served =
        let (x, e) = request-Arrives in
        serve_request-Arrives w request x size first (
          subst (λ rest. handle P command request (taken w rest) ≡ (returned one, answered_state))
            (sym e) (ap (λ f. (f, answered_state)) done.0))

    reply-Arrives : (x : Arrives asked_state reply) × (x.rest ≡ g.later_down)
    reply-Arrives =
        Delivered-Arrives g.later_down
          (record {
            key = paired.down.key ∙ sym asked-Delivered.key;
            due = paired.down.due ∙ sym asked-Delivered.expected;
          })
          done.1 g.answers.counter (sym (ap (λ r. r.1.sent) served) ∙ g.answered)
          (asked-Delivered.left ∙ g.returns)

    abbrev pub told : Session P
    told = taken asked_state g.later_down

    pub asks_and_reads :
        (next' : Buffer → Exec P (Unit {0})) → ask request (length reply) next' c ≡ next' reply told
    asks_and_reads next' =
        let (x, e) = reply-Arrives in
        ask-Arrives C c request reply next' g.asks x
        ∙ ap (λ rest. next' reply (taken asked_state rest)) e

    pub told-Paired : Paired told answered_state
    told-Paired = record {
      user = asked-Delivered.user ∙ (paired.user ∙ sym done.1.user);
      up = record {
        key = asked-Delivered.key ∙ (paired.up.key ∙ sym done.1.key);
        due = asked-Delivered.counter ∙ (ap (λ n. n + 1) paired.up.due ∙ sym done.1.expected);
      };
      down = record {
        key = done.1.key ∙ (paired.down.key ∙ sym asked-Delivered.key);
        due = done.1.counter ∙ (ap (λ n. n + 1) (paired.down.due ∙ sym asked-Delivered.expected));
      };
    }
