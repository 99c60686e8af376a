-- ===== src/Server/Requests.antt =====
-- `list_files`, `rename_file`, `delete_file` and `logout` of server/worker.cpp.
pub mod Safety
pub mod Laws
use foc_project.Prelude.{◌%◌, ◌^◌, ◌==◌, length, if◌then◌else◌}
use foc_project.Memory.{Buffer, c_string}
use foc_project.Security.Counter.{clear_vec}
use foc_project.Packets.Listing.M1 as ListM1
use foc_project.Packets.Listing.M2 as ListM2
use foc_project.Packets.Listing.M3 as ListM3
use foc_project.Packets.Rename.M1 as RenameM1
use foc_project.Packets.Rename.Ack as RenameAck
use foc_project.Packets.Delete.M1 as DeleteM1
use foc_project.Packets.Delete.Ack as DeleteAck
use foc_project.Packets.Logout.M1 as LogoutM1
use foc_project.Packets.Logout.Ack as LogoutAck
use foc_project.Files.Paths.{data_folder, data_path}
use foc_project.Platform.{Platform}
use foc_project.Server.Disk.{rename_on_disk, delete_on_disk, list_folder}
use foc_project.Session.{
  Session, Code, one, nil, minus, Flow, next, returned, raised, faulted, exited, Exec, pure,
  return_code, attempt, get_state, set_disk, ◌>>=◌, ◌>>◌, wrap, transmit, send_message,
}

module _ (P : Platform) where
  unfoldable pub rename_file : Buffer → Exec P (Unit {0})
  unfolding rename_on_disk
  rename_file payload = do
    m1 ← attempt P nil (RenameM1.deserialize payload)
    file_name ← attempt P nil (c_string m1.file_name)
    new_file_name ← attempt P nil (c_string m1.new_file_name)
    s ← get_state P
    result ← attempt P nil (
        rename_on_disk P (data_path s.username file_name) (data_path s.username new_file_name)
          s.disk)
    set_disk P result.1
    ack ← attempt P nil (RenameAck.serialize (RenameAck.make result.0))
    send_message P ack
    return_code P one

  unfoldable pub delete_file : Buffer → Exec P (Unit {0})
  unfolding delete_on_disk
  delete_file payload = do
    m1 ← attempt P nil (DeleteM1.deserialize payload)
    file_name ← attempt P nil (c_string m1.file_name)
    s ← get_state P
    result ← attempt P nil (delete_on_disk P (data_path s.username file_name) s.disk)
    set_disk P result.1
    ack ← attempt P nil (DeleteAck.serialize (DeleteAck.make result.0))
    send_message P ack
    return_code P one

  -- The second message, with the names.
  unfoldable pub send_names : Buffer → Exec P (Unit {0})
  send_names names = do
    m3 ←
        attempt P nil (ListM3.set_file_list_data P.junk (ListM3.make (length names % 2 ^ 32)) names)
    payload ← attempt P nil (ListM3.serialize m3)
    send_message P payload
    return_code P one

  unfoldable pub list_files : Buffer → Exec P (Unit {0})
  unfolding list_folder send_names
  list_files payload = do
    m1 ← attempt P nil (ListM1.deserialize payload)
    s ← get_state P
    result ← attempt P nil (list_folder P (data_folder s.username) s.disk)
    ack ← attempt P nil (ListM2.serialize P.host result.1)
    send_message P ack
    if (result.1).ack_code == 1 then return_code P nil else send_names result.0

  clear_key : Exec P (Unit {0})
  clear_key s = (next tt, record s { session_key = clear_vec s.session_key })

  unfoldable pub logout : Buffer → Exec P (Unit {0})
  unfolding clear_key
  logout payload = do
    m1 ← attempt P nil (LogoutM1.deserialize payload)
    ack ← attempt P nil (LogoutAck.serialize (LogoutAck.make 0))
    packet ← wrap P ack
    clear_key
    transmit P packet
    return_code P one
