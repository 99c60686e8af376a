-- ===== src/Server/Requests/Safety.antt =====
-- The handlers of server/worker.cpp without transfers under the rules of `Safe`.
use foc_project.Prelude.{refl, Bool, true, false, if◌then◌else◌}
use foc_project.Memory.{Buffer}
use foc_project.Platform.{Platform}
use foc_project.Session.{Exec, one, nil, ◌>>=◌, return_code, send_message}
use foc_project.Session.Ahead.{
  Safe, Safe-bind, Safe-return, Safe-attempt, Safe-get_state, Safe-set_disk, Ahead-Quiet,
}
use foc_project.Session.Ahead.Actions.{Safe-wrap, Safe-transmit, Safe-send_message}
use foc_project.Server.Requests.{
  rename_file, delete_file, send_names, list_files, clear_key, logout,
}

module _ {P : Platform} where
  pub Safe-if :
      {A : Type 0} (b : Bool) (m n : Exec P A) → Safe m → Safe n → Safe (if b then m else n)
  Safe-if true m n h k = h
  Safe-if false m n h k = k

  -- The end that the handlers share: an acknowledgement is sent.
  Safe-answer :
      (payload : Buffer) → Safe {A = Unit {0}} (send_message P payload >>= λ _. return_code P one)
  Safe-answer payload = Safe-bind _ _ (Safe-send_message payload) λ _. Safe-return one

  pub Safe-rename_file : (payload : Buffer) → Safe (rename_file P payload)
  unfolding rename_file
  Safe-rename_file payload = Safe-bind _ _ (Safe-attempt _) λ m1.
      Safe-bind _ _ (Safe-attempt _) λ name. Safe-bind _ _ (Safe-attempt _) λ new_name.
        Safe-bind _ _ Safe-get_state λ s. Safe-bind _ _ (Safe-attempt _) λ result.
          Safe-bind _ _ (Safe-set_disk _) λ _. Safe-bind _ _ (Safe-attempt _) λ ack. Safe-answer ack

  pub Safe-delete_file : (payload : Buffer) → Safe (delete_file P payload)
  unfolding delete_file
  Safe-delete_file payload = Safe-bind _ _ (Safe-attempt _) λ m1.
      Safe-bind _ _ (Safe-attempt _) λ name. Safe-bind _ _ Safe-get_state λ s.
        Safe-bind _ _ (Safe-attempt _) λ result.
          Safe-bind _ _ (Safe-set_disk _) λ _. Safe-bind _ _ (Safe-attempt _) λ ack. Safe-answer ack

  Safe-send_names : (names : Buffer) → Safe (send_names P names)
  unfolding send_names
  Safe-send_names names =
      Safe-bind _ _ (Safe-attempt _)
        λ m3. Safe-bind _ _ (Safe-attempt _) λ payload. Safe-answer payload

  pub Safe-list_files : (payload : Buffer) → Safe (list_files P payload)
  unfolding list_files
  Safe-list_files payload = Safe-bind _ _ (Safe-attempt _) λ m1. Safe-bind _ _ Safe-get_state λ s.
      Safe-bind _ _ (Safe-attempt _) λ result. Safe-bind _ _ (Safe-attempt _) λ ack.
        Safe-bind _ _ (Safe-send_message ack)
          λ _. Safe-if _ _ _ (Safe-return nil) (Safe-send_names _)

  Safe-clear_key : Safe (clear_key P)
  unfolding clear_key
  Safe-clear_key = record { at = λ s l. Ahead-Quiet s _ l (refl, refl, refl, refl, refl) }

  pub Safe-logout : (payload : Buffer) → Safe (logout P payload)
  unfolding logout
  Safe-logout payload = Safe-bind _ _ (Safe-attempt _) λ m1. Safe-bind _ _ (Safe-attempt _) λ ack.
      Safe-bind _ _ (Safe-wrap ack) λ packet.
        Safe-bind _ _ Safe-clear_key λ _. Safe-bind _ _ (Safe-transmit packet) λ _. Safe-return one
