-- ===== src/Server/Transfers.antt =====
-- `upload_file` and `download_file` of server/worker.cpp.
pub mod Safety
pub mod Download
pub mod Upload
pub mod Refusals
use foc_project.Prelude.{
  ℕ, zero, suc, ◌/◌, ◌%◌, ◌^◌, Bool, true, false, not, ◌||◌, Option, none, some, ◌==◌, length,
  if◌then◌else◌,
}
use foc_project.Memory.{Buffer, Result, ok, failed, thrown, undefined, c_string}
use foc_project.Words.{rounds}
use foc_project.Packets.Codes.{max_file_chunk}
use foc_project.Packets.Wrapper
use foc_project.Packets.Wrapper.{Wrapper}
use foc_project.Packets.Upload.M1 as UploadM1
use foc_project.Packets.Upload.M2 as UploadM2
use foc_project.Packets.Upload.Ack as UploadAck
use foc_project.Packets.Download.M1 as DownloadM1
use foc_project.Packets.Download.M2 as DownloadM2
use foc_project.Packets.Download.Ack as DownloadAck
use foc_project.Files.Paths.{data_path}
use foc_project.Files.File
use foc_project.Files.File.{File}
use foc_project.Chunks.Send.{send_file}
use foc_project.Platform.{Platform}
use foc_project.Session.{
  Session, Code, one, nil, minus, Flow, next, returned, raised, faulted, exited, Exec, pure,
  return_code, attempt, get_state, set_disk, ◌>>=◌, ◌>>◌, send_message, receive_data, check_counter,
}

module _ (P : Platform) where
  write_payload : File → Wrapper → Exec P Bool
  write_payload file w = do
    check_counter P w.counter
    m2 ← attempt P nil (UploadM2.deserialize w.pt)
    s ← get_state P
    let (result, disk) = File.write_chunk P.files m2.file_chunk file s.disk
    set_disk P disk
    attempt P nil result
    pure P true

  open_packet : File → Result Wrapper → Exec P Bool
  unfolding write_payload
  open_packet file (ok w) = write_payload file w
  open_packet file failed = pure P false
  open_packet file thrown = λ s. (raised, s)
  open_packet file undefined = λ s. (faulted, s)

  accept_packet : File → Option Buffer → Exec P Bool
  unfolding open_packet
  accept_packet file none = pure P false
  accept_packet file (some packet) = do
    s ← get_state P
    open_packet file (Wrapper.deserialize P.host P.evp s.session_key packet)

  -- One chunk of a file: whether it came and was written. A chunk that does not come, or that cannot
  -- be opened, is reported; a wrong counter ends the function.
  unfoldable pub receive_chunk : ℕ → File → Exec P Bool
  unfolding accept_packet
  receive_chunk size file = do
    packet ← receive_data P (Wrapper.get_size P.host P.evp (UploadM2.get_size size))
    accept_packet file packet

  -- The loop over whole chunks, with `error_occured`.
  unfoldable pub receive_chunks : ℕ → File → Bool → Exec P Bool
  receive_chunks zero file error_occured = pure P error_occured
  receive_chunks (suc n) file error_occured = do
    came ← receive_chunk max_file_chunk file
    receive_chunks n file (error_occured || not came)

  unfoldable pub receive_last_chunk : ℕ → File → Exec P (Unit {0})
  receive_last_chunk zero file = pure P tt
  receive_last_chunk (suc n) file = do
    came ← receive_chunk (suc n) file
    if came then pure P tt else return_code P nil

  -- The exceptions of `file.create` are caught.
  keep_created : Result (Unit {0}) → File → P.files.State → Exec P File
  keep_created (ok _) file disk = do set_disk P disk; pure P file
  keep_created failed file disk = do set_disk P disk; return_code P nil
  keep_created thrown file disk = do set_disk P disk; return_code P nil
  keep_created undefined file disk = λ t. (faulted, t)

  unfoldable pub create_file : Buffer → Exec P File
  unfolding keep_created
  create_file path s =
      let created = File.create P.files path File.make s.disk in
      keep_created created.0 created.1 created.2 s

  -- What follows the first answer.
  unfoldable pub receive_file : ℕ → Buffer → Exec P (Unit {0})
  unfolding create_file
  receive_file file_size path = do
    file ← create_file path
    error_occured ← receive_chunks (rounds (file_size / max_file_chunk % 2 ^ 32)) file false
    receive_last_chunk (file_size % max_file_chunk) file
    ack ← attempt P nil (UploadAck.serialize (UploadAck.make (if error_occured then 0 else 1)))
    send_message P ack
    return_code P one

  unfoldable pub upload_file : Buffer → Exec P (Unit {0})
  upload_file payload = do
    m1 ← attempt P nil (UploadM1.deserialize P.host payload)
    file_name ← attempt P nil (c_string m1.file_name)
    s ← get_state P
    let path = data_path s.username file_name
    there ← attempt P nil (File.exists P.files path s.disk)
    ack ← attempt P nil (UploadAck.serialize (UploadAck.make (if there then 0 else 1)))
    send_message P ack
    receive_file m1.file_size path

  -- What follows the answer.
  unfoldable pub send_contents : File → Exec P (Unit {0})
  send_contents file = do
    send_file P (λ chunk. DownloadM2.serialize (DownloadM2.make chunk)) file
    return_code P one

  -- The answer, from what `file.read` did and the `File` that it left. An empty file is refused.
  unfoldable pub download_ack : Result (Unit {0}) → File → Result DownloadAck.DownloadAck
  download_ack (ok _) file = elim file.file_size [
    | none ↦ undefined
    | some size ↦
        ok (if size == 0 then DownloadAck.make_failed 1 else DownloadAck.make 0 (size % 2 ^ 32))
  ]
  download_ack failed file = ok (DownloadAck.make_failed 1)
  download_ack thrown file = ok (DownloadAck.make_failed 1)
  download_ack undefined file = undefined

  unfoldable pub download_file : Buffer → Exec P (Unit {0})
  unfolding download_ack
  download_file payload = do
    m1 ← attempt P nil (DownloadM1.deserialize payload)
    file_name ← attempt P nil (c_string m1.file_name)
    s ← get_state P
    let opened = File.read P.files (data_path s.username file_name) File.make s.disk
    answer ← attempt P nil (download_ack opened.0 opened.1)
    ack ← attempt P nil (DownloadAck.serialize P.host answer)
    send_message P ack
    send_contents opened.1
