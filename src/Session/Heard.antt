-- ===== src/Session/Heard.antt =====
-- What the actions of a session take from the connection.
use foc_project.Prelude.{
  ℕ, ◌-◌, ◌≡◌, refl, ap, ◌∙◌, Bool, true, false, Option, none, some, List, [], ◌∷◌, ◌++◌, arith,
  length, take,
}
use foc_project.Memory.{Buffer, zeros}
use foc_project.Platform.{Platform}
use foc_project.Session.{
  Session, next, send_data, send_next, receive_data, receive_next, random_value, random_next,
  read_line_into, next_line,
}

-- A zeroed buffer of `n` bytes after what came was copied to its front.
abbrev pub filled : ℕ → Buffer → Buffer
filled n packet = take n packet ++ zeros (n - length (take n packet))

module _ {P : Platform} where
  heard_next :
      (answers : List (Option Buffer)) (n : ℕ) (s u : Session P) {bytes : Buffer}
      → receive_next P answers n s ≡ (next (some bytes), u)
      → (packet : Buffer) × (answers ≡ some packet ∷ u.received) × (bytes ≡ filled n packet)
  unfolding receive_next
  heard_next [] n s u h = absurd (ground arith)
  heard_next (none ∷ rest) n s u h = absurd (ground arith)
  heard_next (some [] ∷ rest) n s u h = absurd (ground arith)
  heard_next (some (b ∷ bs) ∷ rest) n s u h =
      (b ∷ bs, ap (λ r. some (b ∷ bs) ∷ r.1.received) h, ground arith)

  pub receive_data-heard :
      (n : ℕ) (s u : Session P) {bytes : Buffer}
      → receive_data P n s ≡ (next (some bytes), u)
      → (packet : Buffer) × (s.received ≡ some packet ∷ u.received) × (bytes ≡ filled n packet)
  unfolding receive_data
  receive_data-heard n s u h = heard_next s.received n s u h

  sent_next :
      (answers : List (Option ℕ)) (bytes : Buffer) (s : Session P)
      → s.received ≡ (send_next P answers bytes s).1.received
  unfolding send_next
  sent_next [] bytes s = refl
  sent_next (some n ∷ rest) bytes s = refl
  sent_next (none ∷ rest) bytes s = refl

  -- Sending takes nothing.
  pub send_data-left :
      (bytes : Buffer) (s u : Session P) {b : Bool}
      → send_data P bytes s ≡ (next b, u)
      → s.received ≡ u.received
  unfolding send_data
  send_data-left bytes s u h = sent_next s.accepted bytes s ∙ ap (λ r. r.1.received) h

  random_left :
      (answers : List (Option Buffer)) (s : Session P)
      → s.received ≡ (random_next P answers s).1.received
  unfolding random_next
  random_left [] s = refl
  random_left (r ∷ rest) s = refl

  pub random_value-left :
      (s u : Session P) {r : Option Buffer}
      → random_value P s ≡ (next r, u)
      → s.received ≡ u.received
  unfolding random_value
  random_value-left s u h = random_left s.random s ∙ ap (λ r. r.1.received) h

  line_left :
      (good : Bool) (lines : List Buffer) (old : Buffer) (s : Session P)
      → s.received ≡ (next_line P good lines old s).1.received
  unfolding next_line
  line_left false lines old s = refl
  line_left true [] old s = refl
  line_left true (line ∷ lines) old s = refl

  pub read_line_into-left :
      (old : Buffer) (s u : Session P) {r : Bool × Buffer}
      → read_line_into P old s ≡ (next r, u)
      → s.received ≡ u.received
  unfolding read_line_into
  read_line_into-left old s u h = line_left s.input_good s.console old s ∙ ap (λ r. r.1.received) h
