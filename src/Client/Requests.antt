-- ===== src/Client/Requests.antt =====
-- `list_files`, `rename_file`, `delete_file` and `logout` of client/Client.cpp.
pub mod Safety
pub mod Laws
pub mod Names
use foc_project.Prelude.{
  ℕ, ◌+◌, ◌%◌, ◌^◌, Bool, true, false, List, [], ◌∷◌, ◌++◌, ◌==◌, length, if◌then◌else◌,
}
use foc_project.Memory.{Buffer, Result, allocate}
use foc_project.Words.{minus_one}
use foc_project.Security.Counter.{clear_vec}
use foc_project.Packets.Wrapper
use foc_project.Packets.Listing.M1 as ListM1
use foc_project.Packets.Listing.M2 as ListM2
use foc_project.Packets.Listing.M3 as ListM3
use foc_project.Packets.Rename.M1 as RenameM1
use foc_project.Packets.Rename.Ack as RenameAck
use foc_project.Packets.Delete.M1 as DeleteM1
use foc_project.Packets.Delete.Ack as DeleteAck
use foc_project.Packets.Logout.M1 as LogoutM1
use foc_project.Packets.Logout.Ack as LogoutAck
use foc_project.Platform.{Platform}
use foc_project.Session.{
  Session, Code, one, nil, minus, Flow, next, returned, Exec, pure, return_code, attempt, get_state,
  ◌>>=◌, ◌>>◌, send_message, advance_received,
}
use foc_project.Client.Messages.{receive_packet, receive_message, read_name}

-- `std::getline(ss, token, ',')` until it fails: at the end of the text with nothing read.
last_token : Buffer → List Buffer
last_token [] = []
last_token (b ∷ bs) = (b ∷ bs) ∷ []

unfoldable pub tokens_from : Buffer → Buffer → List Buffer
unfolding last_token
tokens_from current [] = last_token current
tokens_from current (b ∷ bs) = elim (b == b',') [
  | true ↦ current ∷ tokens_from [] bs
  | false ↦ tokens_from (current ++ (b ∷ [])) bs
]

-- What is printed for a list of names.
unfoldable pub tokens : Buffer → List Buffer
tokens text = tokens_from [] text

module _ (P : Platform) where
  -- The end of `rename_file` and of `delete_file`: 0 is success, 1 and 2 are failures, and other codes
  -- fall through to the end.
  unfoldable pub report : ℕ → Exec P (Unit {0})
  report ack_code =
      if ack_code == 0
      then return_code P one
      else if ack_code == 1
      then return_code P nil
      else if ack_code == 2
      then return_code P nil
      else return_code P one

  -- `rename_file`, once both names are there.
  unfoldable pub request_rename : Buffer → Buffer → Exec P (Unit {0})
  request_rename file_name new_file_name = do
    m1 ← attempt P nil (RenameM1.serialize (RenameM1.make file_name new_file_name))
    send_message P m1
    payload ← receive_message P RenameAck.get_size
    ack ← attempt P nil (RenameAck.deserialize payload)
    report ack.ack_code

  unfoldable pub rename_file : Exec P (Unit {0})
  rename_file = do
    file_name ← read_name P
    new_file_name ← read_name P
    request_rename file_name new_file_name

  unfoldable pub request_delete : Buffer → Exec P (Unit {0})
  request_delete file_name = do
    m1 ← attempt P nil (DeleteM1.serialize (DeleteM1.make file_name))
    send_message P m1
    payload ← receive_message P DeleteAck.get_size
    ack ← attempt P nil (DeleteAck.deserialize payload)
    report ack.ack_code

  unfoldable pub delete_file : Exec P (Unit {0})
  delete_file = do file_name ← read_name P; request_delete file_name

  expect_counter_next : Bool → Exec P (Unit {0})
  expect_counter_next true = pure P tt
  expect_counter_next false = return_code P minus

  -- The comparison of the counters, without the step.
  unfoldable pub expect_counter : ℕ → Exec P (Unit {0})
  unfolding expect_counter_next
  expect_counter counter s = expect_counter_next (counter == s.r_counter) s

  -- The second message of `list_files`: the names, which are printed. The expected counter goes up
  -- after they were read. The buffer is allocated in the announced size, which may throw.
  unfoldable pub receive_names : ℕ → Exec P Buffer
  unfolding expect_counter
  receive_names file_list_size = do
    let m3 = ListM3.make file_list_size
    _ ← attempt P nil (allocate (Wrapper.get_size P.host P.evp (ListM3.get_size m3)))
    w ← receive_packet P (ListM3.get_size m3)
    expect_counter w.counter
    read ← attempt P nil (ListM3.deserialize P.junk m3 w.pt)
    names ← attempt P nil (ListM3.get_file_list_data read)
    advance_received P
    pure P names

  -- `list_files`, with the text that it gets.
  unfoldable pub fetch_names : Exec P Buffer
  fetch_names = do
    m1 ← attempt P nil (ListM1.serialize ListM1.make)
    send_message P m1
    payload ← receive_message P ListM2.get_size
    ack ← attempt P nil (ListM2.deserialize P.host payload)
    if ack.ack_code == 1 then return_code P nil else receive_names ack.file_list_size

  -- `list_files`, with what it prints.
  unfoldable pub show_names : Exec P (List Buffer)
  show_names = do names ← fetch_names; pure P (tokens names)

  unfoldable pub list_files : Exec P (Unit {0})
  list_files = do printed ← show_names; return_code P one

  clear_key : Exec P (Unit {0})
  clear_key s = (next tt, record s { session_key = clear_vec s.session_key })

  unfoldable pub logout : Exec P (Unit {0})
  unfolding clear_key
  logout = do
    m1 ← attempt P nil (LogoutM1.serialize LogoutM1.make)
    send_message P m1
    payload ← receive_message P LogoutAck.get_size
    ack ← attempt P nil (LogoutAck.deserialize payload)
    if ack.ack_code == 0 then (do clear_key; return_code P one) else return_code P nil
