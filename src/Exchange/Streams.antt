-- ===== src/Exchange/Streams.antt =====
-- A sequence of messages that one side sends, as it arrives at the other.
use foc_project.Prelude.{
  ℕ, ◌+◌, ◌≤◌, ◌≡◌, refl, sym, ap, ◌∙◌, Option, some, List, [], ◌∷◌, ◌++◌, map, append_assoc,
  append-nil, arith, length, drop, drop-append,
}
use foc_project.Memory.{Buffer}
use foc_project.Security.Evp.{IsCcm}
use foc_project.Packets.Codes.{counter_max_value}
use foc_project.Platform.{Platform}
use foc_project.Session.{Session, send_message}
use foc_project.Session.Delivery.{
  Ready, ReadyAll, Delivered, Sends, stop, step, send_message-Delivered,
}
use foc_project.Chunks.Send.Laws.{payload_of}
use foc_project.Chunks.Receive.{accepted, Arriving, done, more, Written}
use foc_project.Server.Loop.{serve_request}
use foc_project.Exchange.{Linked, taken, Delivered-Arrives}

module _ {P : Platform} where
  -- What went over the wire.
  abbrev pub packets : {a t : Session P} {ms : List Buffer} → Sends a ms t → List Buffer
  packets stop = []
  packets (step d h) = d.packet ∷ packets h

  sent-packets :
      {a t : Session P} {ms : List Buffer} (h : Sends a ms t) → t.sent ≡ a.sent ++ packets h
  sent-packets {a} stop = sym (append-nil a.sent)
  sent-packets {a} (step d h) =
      sent-packets h
      ∙ ap (λ xs. xs ++ packets h) d.sent
      ∙ append_assoc a.sent (d.packet ∷ []) (packets h)

  -- The packets are those that the state holds.
  pub packets-sent :
      {a t : Session P} {ms : List Buffer} {ps : List Buffer} (h : Sends a ms t)
      → t.sent ≡ a.sent ++ ps
      → packets h ≡ ps
  packets-sent {a} {ps = ps} h e =
      sym (drop-append a.sent (packets h))
      ∙ ap (drop (length a.sent)) (sym (sent-packets h) ∙ e)
      ∙ drop-append a.sent ps

  -- All that sending leaves as it was, and the counter.
  pub record Kept (a : Session P) (n : ℕ) (t : Session P) : Type 0 where
    pub key : t.session_key ≡ a.session_key
    pub user : t.username ≡ a.username
    pub expected : t.r_counter ≡ a.r_counter
    pub disk : t.disk ≡ a.disk
    pub left : t.received ≡ a.received
    pub counter : t.s_counter ≡ a.s_counter + n

  pub Sends-Kept : {a t : Session P} {ms : List Buffer} → Sends a ms t → Kept a (length ms) t
  Sends-Kept {a} stop = record {
    key = refl;
    user = refl;
    expected = refl;
    disk = refl;
    left = refl;
    counter = omega arith;
  }
  Sends-Kept (step d h) =
      let k = Sends-Kept h in
      record {
        key = k.key ∙ d.key;
        user = k.user ∙ d.user;
        expected = k.expected ∙ d.expected;
        disk = k.disk ∙ d.disk;
        left = k.left ∙ d.left;
        counter = omega (arith, k.counter, d.counter);
      }

  -- Messages that can be sent leave room for their counters.
  pub ReadyAll-room :
      IsCcm P.evp
      → (s : Session P) (ms : List Buffer) → s.s_counter ≤ counter_max_value
      → ReadyAll s ms
      → s.s_counter + length ms ≤ counter_max_value
  ReadyAll-room C s [] h r = omega (arith, h)
  ReadyAll-room C s (m ∷ ms) h (r, rs) =
      let d = (send_message-Delivered C s m r).1 in
      let k = ReadyAll-room C (send_message P m s).1 ms (omega (arith, d.counter, r.counter)) rs in
      omega (arith, k, d.counter)

  Linked-taken :
      {a t b : Session P} {m : Buffer} (rest : List (Option Buffer)) (disk : P.files.State)
      → Linked a b
      → Delivered a m t
      → Linked t (accepted b rest disk)
  Linked-taken rest disk l d = record {
    key = d.key ∙ l.key;
    due = d.counter ∙ ap (λ n. n + 1) l.due;
  }

  -- The state of `b` once all chunks are in the file.
  abbrev pub stored : Session P → List (Option Buffer) → ℕ → P.files.State → Session P
  stored b rest n disk = record b { received = rest; r_counter = n; disk = disk }

  -- Chunks that `a` sends arrive at `b`, which writes them.
  pub Sends-Arriving :
      (code : ℕ) (path : Buffer) (chunks : List Buffer) {a b t : Session P}
      (h : Sends a (map (payload_of code) chunks) t) (rest : List (Option Buffer)) (n : ℕ)
      {disk : P.files.State}
      → a.s_counter + length chunks ≤ counter_max_value
      → Linked a b
      → b.received ≡ map (λ p. some p) (packets h) ++ rest
      → Written P.files path b.disk chunks disk
      → n ≡ b.r_counter + length chunks
      → Arriving code path b chunks (stored b rest n disk)
  Sends-Arriving code path [] {b = b} stop rest n room l came w e =
      let e' : n ≡ b.r_counter = omega (arith, e) in rw (e', ← came, ← w) done
  Sends-Arriving code path (c ∷ cs) {a} {b} (step d h) rest n {disk} room l came (disk', written, w)
        e =
      let (x, later) =
        Delivered-Arrives (map (λ p. some p) (packets h) ++ rest) l d (omega (arith, room)) d.sent
          came in
      more x written (
        Sends-Arriving code path cs h rest n {disk = disk} (omega (arith, room, d.counter))
          (Linked-taken x.rest disk' l d) later w (omega (arith, e)))

  -- A request of `c` to `w`, and an answer of several messages.
  pub record Streams (c w : Session P) (request : Buffer) (replies : List Buffer) : Type 0 where
    pub up : Buffer
    pub downs : List Buffer
    pub later_up : List (Option Buffer)
    pub later_down : List (Option Buffer)
    pub asks : Ready c request
    pub asked : (send_message P request c).1.sent ≡ c.sent ++ (up ∷ [])
    pub arrives : w.received ≡ some up ∷ later_up
    pub answers : ReadyAll (taken w later_up) replies
    pub answered : (serve_request P w).1.sent ≡ w.sent ++ downs
    pub returns : c.received ≡ map (λ p. some p) downs ++ later_down
