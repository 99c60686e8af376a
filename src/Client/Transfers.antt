-- ===== src/Client/Transfers.antt =====
-- `upload_file` and `download_file` of client/Client.cpp.
pub mod Safety
pub mod Download
pub mod Upload
use foc_project.Prelude.{
  ℕ, zero, suc, ◌/◌, ◌%◌, ◌^◌, Bool, true, false, not, ◌||◌, Option, none, some, [], ◌∷◌, ◌++◌,
  ◌==◌, leb, if◌then◌else◌,
}
use foc_project.Memory.{Buffer, Result, ok, failed, thrown, undefined}
use foc_project.Words.{rounds}
use foc_project.Packets.Codes.{max_file_chunk, max_file_size}
use foc_project.Packets.Wrapper
use foc_project.Packets.Wrapper.{Wrapper}
use foc_project.Packets.Upload.M1 as UploadM1
use foc_project.Packets.Upload.M2 as UploadM2
use foc_project.Packets.Upload.Ack as UploadAck
use foc_project.Packets.Download.M1 as DownloadM1
use foc_project.Packets.Download.M2 as DownloadM2
use foc_project.Packets.Download.Ack as DownloadAck
use foc_project.Files.File
use foc_project.Files.File.{File}
use foc_project.Chunks.Send.{send_file}
use foc_project.Platform.{Platform}
use foc_project.Session.{
  Session, Code, one, nil, minus, Flow, next, returned, raised, faulted, exited, Exec, pure,
  return_code, attempt, get_state, set_disk, ◌>>=◌, ◌>>◌, send_message, receive_data, check_counter,
  read_line, ignore_line,
}
use foc_project.Client.Messages.{is_empty, receive_message, read_name}

-- "../downloads"
unfoldable pub downloads_path : Buffer
downloads_path =
    b'.' ∷ b'.' ∷ b'/' ∷ b'd' ∷ b'o' ∷ b'w' ∷ b'n' ∷ b'l' ∷ b'o' ∷ b'a' ∷ b'd' ∷ b's' ∷ []

module _ (P : Platform) where
  -- A line for a path. Where none is there, or an empty one, the next line is thrown away, and the
  -- handler goes on with the empty path.
  take_path : Option Buffer → Exec P Buffer
  unfolding is_empty
  take_path none = do ignore_line P; pure P []
  take_path (some path) = if is_empty path then (do ignore_line P; pure P []) else pure P path

  -- `file.read`, whose exceptions are caught.
  keep_opened : Result (Unit {0}) → File → Exec P File
  keep_opened (ok _) file = pure P file
  keep_opened failed file = return_code P nil
  keep_opened thrown file = return_code P nil
  keep_opened undefined file = λ t. (faulted, t)

  unfoldable pub open_file : Buffer → Exec P File
  unfolding keep_opened
  open_file path s =
      let opened = File.read P.files path File.make s.disk in keep_opened opened.0 opened.1 s

  unfoldable pub pack_chunk : Buffer → Result Buffer
  pack_chunk chunk = UploadM2.serialize (UploadM2.make chunk)

  -- What follows an answer that the upload may begin.
  unfoldable pub send_contents : File → Exec P (Unit {0})
  unfolding pack_chunk
  send_contents file = do
    send_file P pack_chunk file
    payload ← receive_message P UploadAck.get_size
    ack ← attempt P nil (UploadAck.deserialize payload)
    return_code P one

  -- The upload of a file that was opened. An empty one, and one of 4 GiB or more, is refused.
  unfoldable pub request_upload : File → Exec P (Unit {0})
  request_upload file = do
    size ← attempt P nil (File.get_file_size file)
    if size == 0 || leb max_file_size size then return_code P nil else (do
      m1 ← attempt P nil (UploadM1.serialize P.host (UploadM1.make file.file_name (size % 2 ^ 32)))
      send_message P m1
      payload ← receive_message P UploadAck.get_size
      ack ← attempt P nil (UploadAck.deserialize payload)
      if ack.ack_code == 0 then return_code P nil else send_contents file)

  unfoldable pub upload_file : Exec P (Unit {0})
  unfolding take_path
  upload_file = do
    line ← read_line P
    path ← take_path line
    file ← open_file path
    request_upload file

  keep_folder : Option (Bool × P.files.State) → Exec P (Unit {0})
  keep_folder none = λ t. (raised, t)
  keep_folder (some (made, disk)) = do
    set_disk P disk
    if made then pure P tt else return_code P nil

  -- The folder for downloads is made if there is none.
  unfoldable pub make_folder : Exec P (Unit {0})
  unfolding keep_folder
  make_folder = do
    s ← get_state P
    found ← attempt P nil (File.is_folder P.files downloads_path s.disk)
    if found then pure P tt else keep_folder (P.files.create_directory downloads_path s.disk)

  -- `file.create`: an exception sets `error_occured`, and the handler goes on.
  keep_created : Result (Unit {0}) → File → P.files.State → Exec P (File × Bool)
  keep_created (ok _) file disk = do set_disk P disk; pure P (file, false)
  keep_created failed file disk = do set_disk P disk; pure P (file, true)
  keep_created thrown file disk = do set_disk P disk; pure P (file, true)
  keep_created undefined file disk = λ t. (faulted, t)

  unfoldable pub create_file : Buffer → Exec P (File × Bool)
  unfolding keep_created
  create_file path s =
      let created = File.create P.files path File.make s.disk in
      keep_created created.0 created.1 created.2 s

  -- The bytes of a chunk are written unless an error has occurred.
  keep_chunk : Bool → Buffer → File → Exec P (Unit {0})
  keep_chunk true chunk file = pure P tt
  keep_chunk false chunk file = do
    s ← get_state P
    let written = File.write_chunk P.files chunk file s.disk
    set_disk P written.1
    attempt P nil written.0

  write_payload : Bool → File → Wrapper → Exec P Bool
  write_payload error_occured file w = do
    check_counter P w.counter
    m2 ← attempt P nil (DownloadM2.deserialize w.pt)
    keep_chunk error_occured m2.file_chunk file
    pure P true

  open_packet : Bool → File → Result Wrapper → Exec P Bool
  open_packet error_occured file (ok w) = write_payload error_occured file w
  open_packet error_occured file failed = pure P false
  open_packet error_occured file thrown = λ s. (raised, s)
  open_packet error_occured file undefined = λ s. (faulted, s)

  accept_packet : Bool → File → Option Buffer → Exec P Bool
  accept_packet error_occured file none = pure P false
  accept_packet error_occured file (some packet) = do
    s ← get_state P
    open_packet error_occured file (Wrapper.deserialize P.host P.evp s.session_key packet)

  -- Whether a chunk came; a wrong counter ends the handler.
  unfoldable pub receive_chunk : ℕ → Bool → File → Exec P Bool
  unfolding accept_packet open_packet write_payload keep_chunk
  receive_chunk size error_occured file = do
    packet ← receive_data P (Wrapper.get_size P.host P.evp (DownloadM2.get_size size))
    accept_packet error_occured file packet

  unfoldable pub receive_chunks : ℕ → Bool → File → Exec P Bool
  receive_chunks zero error_occured file = pure P error_occured
  receive_chunks (suc n) error_occured file = do
    came ← receive_chunk max_file_chunk error_occured file
    receive_chunks n (error_occured || not came) file

  unfoldable pub receive_last_chunk : ℕ → Bool → File → Exec P (Unit {0})
  receive_last_chunk zero error_occured file = pure P tt
  receive_last_chunk (suc n) error_occured file = do
    came ← receive_chunk (suc n) error_occured file
    if came then pure P tt else return_code P nil

  -- What follows the answer with the size. An error is only printed.
  unfoldable pub receive_file : ℕ → Buffer → Exec P (Unit {0})
  receive_file file_size file_name = do
    make_folder
    created ← create_file (downloads_path ++ (b'/' ∷ file_name))
    error_occured ←
        receive_chunks (rounds (file_size / max_file_chunk % 2 ^ 32)) created.1 created.0
    receive_last_chunk (file_size % max_file_chunk) error_occured created.0
    return_code P one

  -- The download of a file by its name.
  unfoldable pub request_download : Buffer → Exec P (Unit {0})
  request_download file_name = do
    m1 ← attempt P nil (DownloadM1.serialize (DownloadM1.make file_name))
    send_message P m1
    payload ← receive_message P DownloadAck.get_size
    ack ← attempt P nil (DownloadAck.deserialize P.host payload)
    if ack.ack_code == 0 then receive_file ack.file_size file_name else return_code P nil

  unfoldable pub download_file : Exec P (Unit {0})
  download_file = do file_name ← read_name P; request_download file_name
