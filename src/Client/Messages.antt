-- ===== src/Client/Messages.antt =====
-- What the handlers of client/Client.cpp share: the answer to a request, and names that are typed.
pub mod Safety
use foc_project.Prelude.{
  ℕ, Bool, true, false, not, ◌&&◌, Option, none, some, [], ◌∷◌, if◌then◌else◌,
}
use foc_project.Memory.{Buffer, Result}
use foc_project.Packets.Wrapper
use foc_project.Packets.Wrapper.{Wrapper}
use foc_project.Files.File.{is_accepted_name}
use foc_project.Platform.{Platform}
use foc_project.Session.{
  Session, Code, one, nil, minus, Flow, next, returned, Exec, pure, return_code, attempt, get_state,
  ◌>>=◌, ◌>>◌, receive_data, check_counter, read_line, ignore_line,
}

-- `empty` of a string.
unfoldable pub is_empty : Buffer → Bool
is_empty [] = true
is_empty (_ ∷ _) = false

module _ (P : Platform) where
  open_answer : Option Buffer → Exec P Wrapper
  open_answer none = return_code P nil
  open_answer (some packet) = do
    s ← get_state P
    attempt P nil (Wrapper.deserialize P.host P.evp s.session_key packet)

  -- A packet for a payload of `size` bytes, opened.
  unfoldable pub receive_packet : ℕ → Exec P Wrapper
  unfolding open_answer
  receive_packet size = do
    answer ← receive_data P (Wrapper.get_size P.host P.evp size)
    open_answer answer

  -- The same, with its counter checked: the payload.
  unfoldable pub receive_message : ℕ → Exec P Buffer
  receive_message size = do w ← receive_packet size; check_counter P w.counter; pure P w.pt

  -- `cin` is well, and the line is a name that the server accepts.
  unfoldable pub is_name_input : Option Buffer → Bool
  unfolding is_empty
  is_name_input none = false
  is_name_input (some name) = not (is_empty name) && is_accepted_name name

  take_name : Option Buffer → Exec P Buffer
  take_name none = do ignore_line P; return_code P nil
  take_name (some name) = pure P name

  -- A file name is read from the console. A line that is no name ends the handler, and the line after
  -- it is thrown away.
  unfoldable pub read_name : Exec P Buffer
  unfolding take_name
  read_name = do line ← read_line P; take_name (if is_name_input line then line else none)
