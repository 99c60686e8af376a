-- ===== src/Client/Requests/Safety.antt =====
-- The handlers of client/Client.cpp without transfers under the rules of `Safe`.
use foc_project.Prelude.{ℕ, refl, Bool, true, false, ◌==◌}
use foc_project.Memory.{Buffer}
use foc_project.Platform.{Platform}
use foc_project.Session.{one, nil, minus}
use foc_project.Session.Ahead.{Safe, Safe-bind, Safe-pure, Safe-return, Safe-attempt, Ahead-Quiet}
use foc_project.Session.Ahead.Actions.{Safe-send_message, Safe-advance_received}
use foc_project.Server.Requests.Safety.{Safe-if}
use foc_project.Client.Messages.Safety.{Safe-receive_packet, Safe-receive_message, Safe-read_name}
use foc_project.Client.Requests.{
  report, request_rename, rename_file, request_delete, delete_file, expect_counter_next,
  expect_counter, receive_names, fetch_names, show_names, list_files, clear_key, logout,
}

module _ {P : Platform} where
  Safe-report : (code : ℕ) → Safe (report P code)
  unfolding report
  Safe-report code =
      Safe-if _ _ _ (Safe-return one)
        (Safe-if _ _ _ (Safe-return nil) (Safe-if _ _ _ (Safe-return nil) (Safe-return one)))

  pub Safe-request_rename : (name new_name : Buffer) → Safe (request_rename P name new_name)
  unfolding request_rename
  Safe-request_rename name new_name = Safe-bind _ _ (Safe-attempt _) λ m1.
      Safe-bind _ _ (Safe-send_message m1) λ _.
        Safe-bind _ _ (Safe-receive_message _)
          λ payload. Safe-bind _ _ (Safe-attempt _) λ ack. Safe-report ack.ack_code

  pub Safe-rename_file : Safe (rename_file P)
  unfolding rename_file
  Safe-rename_file =
      Safe-bind _ _ Safe-read_name
        λ name. Safe-bind _ _ Safe-read_name λ new_name. Safe-request_rename name new_name

  pub Safe-request_delete : (name : Buffer) → Safe (request_delete P name)
  unfolding request_delete
  Safe-request_delete name = Safe-bind _ _ (Safe-attempt _) λ m1.
      Safe-bind _ _ (Safe-send_message m1) λ _.
        Safe-bind _ _ (Safe-receive_message _)
          λ payload. Safe-bind _ _ (Safe-attempt _) λ ack. Safe-report ack.ack_code

  pub Safe-delete_file : Safe (delete_file P)
  unfolding delete_file
  Safe-delete_file = Safe-bind _ _ Safe-read_name λ name. Safe-request_delete name

  Safe-expect_counter_next : (same : Bool) → Safe (expect_counter_next P same)
  unfolding expect_counter_next
  Safe-expect_counter_next true = Safe-pure tt
  Safe-expect_counter_next false = Safe-return minus

  Safe-expect_counter : (counter : ℕ) → Safe (expect_counter P counter)
  unfolding expect_counter
  Safe-expect_counter counter = record {
    at = λ s l. (Safe-expect_counter_next (counter == s.r_counter)).at s l;
  }

  Safe-receive_names : (size : ℕ) → Safe (receive_names P size)
  unfolding receive_names
  Safe-receive_names size = Safe-bind _ _ (Safe-attempt _) λ _.
      Safe-bind _ _ (Safe-receive_packet _) λ w. Safe-bind _ _ (Safe-expect_counter w.counter) λ _.
        Safe-bind _ _ (Safe-attempt _) λ read.
          Safe-bind _ _ (Safe-attempt _)
            λ names. Safe-bind _ _ Safe-advance_received λ _. Safe-pure names

  pub Safe-fetch_names : Safe (fetch_names P)
  unfolding fetch_names
  Safe-fetch_names = Safe-bind _ _ (Safe-attempt _) λ m1. Safe-bind _ _ (Safe-send_message m1) λ _.
      Safe-bind _ _ (Safe-receive_message _) λ payload.
        Safe-bind _ _ (Safe-attempt _) λ ack. Safe-if _ _ _ (Safe-return nil) (Safe-receive_names _)

  Safe-show_names : Safe (show_names P)
  unfolding show_names
  Safe-show_names = Safe-bind _ _ Safe-fetch_names λ names. Safe-pure _

  pub Safe-list_files : Safe (list_files P)
  unfolding list_files
  Safe-list_files = Safe-bind _ _ Safe-show_names λ printed. Safe-return one

  Safe-clear_key : Safe (clear_key P)
  unfolding clear_key
  Safe-clear_key = record { at = λ s l. Ahead-Quiet s _ l (refl, refl, refl, refl, refl) }

  pub Safe-logout : Safe (logout P)
  unfolding logout
  Safe-logout = Safe-bind _ _ (Safe-attempt _) λ m1. Safe-bind _ _ (Safe-send_message m1) λ _.
      Safe-bind _ _ (Safe-receive_message _) λ payload.
        Safe-bind _ _ (Safe-attempt _)
          λ ack. Safe-if _ _ _ (Safe-bind _ _ Safe-clear_key λ _. Safe-return one) (Safe-return nil)
