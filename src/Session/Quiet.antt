-- ===== src/Session/Quiet.antt =====
-- Actions on the connection, which leave the user, the key and the disk as they are.
use foc_project.Prelude.{ℕ, ◌≡◌, refl, Bool, true, false, Option, none, some, List, [], ◌∷◌}
use foc_project.Memory.{Buffer}
use foc_project.Platform.{Platform}
use foc_project.Session.{
  Session, Flow, next, returned, raised, faulted, exited, send_data, send_next, receive_data,
  receive_next, random_value, random_next, next_line, read_line_into,
}

module _ {P : Platform} where
  pub record Same (s t : Session P) : Type 0 where
    pub user : t.username ≡ s.username
    pub key : t.session_key ≡ s.session_key
    pub disk : t.disk ≡ s.disk

  -- How such an action ends: it goes on, or it faults.
  abbrev pub Quiet {ℓ} : {A : Type ℓ} → Session P → Flow A × Session P → Type 0
  Quiet s (next a, t) = Same s t
  Quiet s (returned c, t) = ⊥
  Quiet s (raised, t) = Unit
  Quiet s (faulted, t) = Unit
  Quiet s (exited, t) = Unit

  Quiet-send_next :
      (answers : List (Option ℕ)) (bytes : Buffer) (s : Session P)
      → Quiet s (send_next P answers bytes s)
  unfolding send_next
  Quiet-send_next [] bytes s = record { user = refl; key = refl; disk = refl }
  Quiet-send_next (some n ∷ rest) bytes s = record { user = refl; key = refl; disk = refl }
  Quiet-send_next (none ∷ rest) bytes s = record { user = refl; key = refl; disk = refl }

  pub Quiet-send_data : (bytes : Buffer) (s : Session P) → Quiet s (send_data P bytes s)
  unfolding send_data
  Quiet-send_data bytes s = Quiet-send_next s.accepted bytes s

  Quiet-receive_next :
      (answers : List (Option Buffer)) (n : ℕ) (s : Session P)
      → Quiet s (receive_next P answers n s)
  unfolding receive_next
  Quiet-receive_next [] n s = record { user = refl; key = refl; disk = refl }
  Quiet-receive_next (none ∷ rest) n s = record { user = refl; key = refl; disk = refl }
  Quiet-receive_next (some [] ∷ rest) n s = record { user = refl; key = refl; disk = refl }
  Quiet-receive_next (some (b ∷ bs) ∷ rest) n s = record { user = refl; key = refl; disk = refl }

  pub Quiet-receive_data : (n : ℕ) (s : Session P) → Quiet s (receive_data P n s)
  unfolding receive_data
  Quiet-receive_data n s = Quiet-receive_next s.received n s

  Quiet-random_next :
      (answers : List (Option Buffer)) (s : Session P) → Quiet s (random_next P answers s)
  unfolding random_next
  Quiet-random_next [] s = record { user = refl; key = refl; disk = refl }
  Quiet-random_next (r ∷ rest) s = record { user = refl; key = refl; disk = refl }

  pub Quiet-random_value : (s : Session P) → Quiet s (random_value P s)
  unfolding random_value
  Quiet-random_value s = Quiet-random_next s.random s

  Quiet-next_line :
      (good : Bool) (lines : List Buffer) (old : Buffer) (s : Session P)
      → Quiet s (next_line P good lines old s)
  unfolding next_line
  Quiet-next_line false lines old s = record { user = refl; key = refl; disk = refl }
  Quiet-next_line true [] old s = record { user = refl; key = refl; disk = refl }
  Quiet-next_line true (line ∷ lines) old s = record { user = refl; key = refl; disk = refl }

  pub Quiet-read_line_into : (old : Buffer) (s : Session P) → Quiet s (read_line_into P old s)
  unfolding read_line_into
  Quiet-read_line_into old s = Quiet-next_line s.input_good s.console old s
