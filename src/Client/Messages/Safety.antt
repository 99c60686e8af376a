-- ===== src/Client/Messages/Safety.antt =====
-- The shared parts of the client's handlers under the rules of `Safe`.
use foc_project.Prelude.{ℕ, Option, none, some}
use foc_project.Memory.{Buffer}
use foc_project.Platform.{Platform}
use foc_project.Session.{nil}
use foc_project.Session.Ahead.{
  Safe, Safe-bind, Safe-pure, Safe-return, Safe-attempt, Safe-get_state,
}
use foc_project.Session.Ahead.Actions.{
  Safe-read_line, Safe-ignore_line, Safe-receive_data, Safe-check_counter,
}
use foc_project.Client.Messages.{open_answer, receive_packet, receive_message, take_name, read_name}

module _ {P : Platform} where
  Safe-open_answer : (answer : Option Buffer) → Safe (open_answer P answer)
  unfolding open_answer
  Safe-open_answer none = Safe-return nil
  Safe-open_answer (some packet) = Safe-bind _ _ Safe-get_state λ s. Safe-attempt _

  pub Safe-receive_packet : (size : ℕ) → Safe (receive_packet P size)
  unfolding receive_packet
  Safe-receive_packet size = Safe-bind _ _ (Safe-receive_data _) λ answer. Safe-open_answer answer

  pub Safe-receive_message : (size : ℕ) → Safe (receive_message P size)
  unfolding receive_message
  Safe-receive_message size =
      Safe-bind _ _ (Safe-receive_packet size)
        λ w. Safe-bind _ _ (Safe-check_counter w.counter) λ _. Safe-pure w.pt

  Safe-take_name : (line : Option Buffer) → Safe (take_name P line)
  unfolding take_name
  Safe-take_name none = Safe-bind _ _ Safe-ignore_line λ _. Safe-return nil
  Safe-take_name (some name) = Safe-pure name

  pub Safe-read_name : Safe (read_name P)
  unfolding read_name
  Safe-read_name = Safe-bind _ _ Safe-read_line λ line. Safe-take_name _
