-- ===== src/Session.antt =====
-- The state of one end of a connection: a `Worker` (server/worker.h) or a `Client` (client/Client.h),
-- which have the same members, with its connection, its disk and its console; the actions on it; and
-- the exchange of wrapped messages.
pub mod Ahead
pub mod Delivery
pub mod Arrival
pub mod Quiet
pub mod Heard
use foc_project.Prelude.{
  ℕ, ◌+◌, ◌-◌, Bool, true, false, Option, none, some, List, [], ◌∷◌, ◌++◌, ◌==◌, length, take,
  if◌then◌else◌,
}
use foc_project.Memory.{Buffer, Result, ok, failed, thrown, undefined, zeros}
use foc_project.Words.{minus_one}
use foc_project.Security.Counter.{increment_counter, clear_vec}
use foc_project.Packets.Wrapper
use foc_project.Packets.Wrapper.{Wrapper}
use foc_project.Platform.{Platform}

-- `received` holds what the coming calls of `recv` give: the bytes that were read, or `none` for an
-- error. `accepted` holds what the coming calls of `send` return: how many bytes at most go out, or `none` for -1. `random`
-- holds what the coming calls of `RAND_bytes` give. `sent` is what was sent, in order. `console` holds
-- the lines to be typed, each with its end, and `input_good` says whether `cin` is well; a worker
-- reads nothing.
pub record Session (P : Platform) : Type 0 where
  pub username : Buffer
  pub session_key : Buffer
  pub s_counter : ℕ
  pub r_counter : ℕ
  pub received : List (Option Buffer)
  pub accepted : List (Option ℕ)
  pub random : List (Option Buffer)
  pub sent : List Buffer
  pub disk : P.files.State
  pub console : List Buffer
  pub input_good : Bool

-- The values that a handler returns: 1, 0 and -1.
pub data Code : Type 0 where
  one nil minus : Code

-- How an action ends: it goes on with a value, its function returns, an exception leaves the
-- function, its behaviour is undefined, or the process exits.
pub data Flow {ℓ} (A : Type ℓ) : Type ℓ where
  next : A → Flow A
  returned : Code → Flow A
  raised faulted exited : Flow A

module _ (P : Platform) where
  abbrev pub Exec {ℓ} : Type ℓ → Type ℓ
  Exec A = Session P → Flow A × Session P

  unfoldable pub pure {ℓ} : {A : Type ℓ} → A → Exec A
  pure a s = (next a, s)

  unfoldable pub return_code {ℓ} : {A : Type ℓ} → Code → Exec A
  return_code c s = (returned c, s)

  -- The value of a call that may go wrong. Where it reports failure, the function returns `c`.
  unfoldable pub attempt {ℓ} : {A : Type ℓ} → Code → Result A → Exec A
  attempt c (ok a) s = (next a, s)
  attempt c failed s = (returned c, s)
  attempt c thrown s = (raised, s)
  attempt c undefined s = (faulted, s)

  unfoldable pub get_state : Exec (Session P)
  get_state s = (next s, s)

  unfoldable pub set_disk : P.files.State → Exec (Unit {0})
  set_disk disk s = (next tt, record s { disk = disk })

abbrev pub continue {ℓ κ} :
    {P : Platform} {A : Type ℓ} {B : Type κ}
    → Flow A
    → (A → Session P → Flow B × Session P)
    → Session P
    → Flow B × Session P
continue (next a) f s = f a s
continue (returned c) f s = (returned c, s)
continue raised f s = (raised, s)
continue faulted f s = (faulted, s)
continue exited f s = (exited, s)

infixl 5 ◌>>=◌ ◌>>◌
-- Opening this opens the actions above too.
unfoldable pub ◌>>=◌ {ℓ κ} :
    {P : Platform} {A : Type ℓ} {B : Type κ}
    → (Session P → Flow A × Session P)
    → (A → Session P → Flow B × Session P)
    → Session P
    → Flow B × Session P
unfolding pure return_code attempt get_state set_disk
◌>>=◌ m f s = let (r, s') = m s in continue r f s'

abbrev pub ◌>>◌ {κ} :
    {P : Platform} {B : Type κ}
    → (Session P → Flow (Unit {0}) × Session P)
    → (Session P → Flow B × Session P)
    → Session P
    → Flow B × Session P
m >> n = m >>= λ _. n

module _ (P : Platform) where
  send_next : List (Option ℕ) → Buffer → Exec P Bool
  send_next [] data' s = (next false, s)
  send_next (some n ∷ rest) data' s =
      (next true, record s { accepted = rest; sent = s.sent ++ (take n data' ∷ []) })
  send_next (none ∷ rest) data' s = (next false, record s { accepted = rest })

  -- `sendData` of security/Util.cpp. A call that takes only the first bytes counts as a success, and
  -- the others are not sent. With no answer left the connection is gone.
  unfoldable pub send_data : Buffer → Exec P Bool
  unfolding send_next
  send_data data' s = send_next s.accepted data' s

  receive_next : List (Option Buffer) → ℕ → Exec P (Option Buffer)
  receive_next [] n s = (next none, s)
  receive_next (none ∷ rest) n s = (next none, record s { received = rest })
  receive_next (some [] ∷ rest) n s = (next none, record s { received = rest })
  receive_next (some (b ∷ bs) ∷ rest) n s =
      let bytes = take n (b ∷ bs) in
      (next (some (bytes ++ zeros (n - length bytes))), record s { received = rest })

  -- `receiveData` of security/Util.cpp, into a zeroed buffer of `n` bytes. Any positive number of
  -- bytes counts as success.
  unfoldable pub receive_data : ℕ → Exec P (Option Buffer)
  unfolding receive_next
  receive_data n s = receive_next s.received n s

  random_next : List (Option Buffer) → Exec P (Option Buffer)
  random_next [] s = (next none, s)
  random_next (r ∷ rest) s = (next r, record s { random = rest })

  unfoldable pub random_value : Exec P (Option Buffer)
  unfolding random_next
  random_value s = random_next s.random s

  -- `Wrapper w(session_key, s_counter, payload); w.serialize()`
  unfoldable pub wrap : Buffer → Exec P Buffer
  wrap payload = do
    iv ← random_value
    s ← get_state P
    attempt P nil
        (Wrapper.serialize P.host P.evp (Wrapper.make s.session_key s.s_counter payload) iv)

  -- `sendData`, then the new value of `s_counter`, with the returns for both failures.
  advance_sent : Exec P (Unit {0})
  advance_sent s =
      let c = increment_counter s.s_counter in
      (if c == minus_one then returned minus else next tt, record s { s_counter = c })

  transmit_next : Bool → Exec P (Unit {0})
  unfolding advance_sent
  transmit_next true = advance_sent
  transmit_next false = return_code P nil

  unfoldable pub transmit : Buffer → Exec P (Unit {0})
  unfolding transmit_next
  transmit packet = send_data packet >>= transmit_next

  -- A message, from its payload on.
  unfoldable pub send_message : Buffer → Exec P (Unit {0})
  unfolding wrap transmit
  send_message payload = do packet ← wrap payload; transmit packet

  unfoldable pub advance_received : Exec P (Unit {0})
  advance_received s =
      let c = increment_counter s.r_counter in
      (if c == minus_one then returned minus else next tt, record s { r_counter = c })

  -- The counter of a packet must be the expected one, which then goes up.
  unfoldable pub check_counter : ℕ → Exec P (Unit {0})
  unfolding advance_received
  check_counter counter s =
      if counter == s.r_counter then advance_received s else (returned minus, s)

  unfoldable pub next_line : Bool → List Buffer → Buffer → Exec P (Bool × Buffer)
  next_line false lines old s = (next (false, old), s)
  next_line true [] old s = (next (false, []), record s { input_good = false })
  next_line true (line ∷ lines) old s = (next (true, line), record s { console = lines })

  -- `std::getline(std::cin, …)` into a string that holds `old`: whether `cin` is well afterwards, and
  -- the string. A stream that is not well leaves the string as it is.
  unfoldable pub read_line_into : Buffer → Exec P (Bool × Buffer)
  unfolding next_line
  read_line_into old s = next_line s.input_good s.console old s

  -- The same into a string that was just declared.
  unfoldable pub read_line : Exec P (Option Buffer)
  read_line = do (good, line) ← read_line_into []; pure P (if good then some line else none)

  without_line : List Buffer → Exec P (Unit {0})
  without_line [] s = (next tt, record s { input_good = false })
  without_line (line ∷ lines) s = (next tt, record s { input_good = true; console = lines })

  -- `std::cin.clear()` and `std::cin.ignore(…, '\n')`
  unfoldable pub ignore_line : Exec P (Unit {0})
  unfolding without_line
  ignore_line s = without_line s.console s
