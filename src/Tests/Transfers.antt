-- ===== src/Tests/Transfers.antt =====
-- An upload and a download, whole.
use foc_project.Prelude.{
  ◌<◌, ◌^◌, ◌≡◌, refl, true, false, Option, some, List, [], ◌∷◌, ◌++◌, length, take, drop,
  replicate, arith,
}
use foc_project.Memory as M
use foc_project.Words as W
use foc_project.Packets.Wrapper as Wrapper
use foc_project.Security.Evp as Evp
use foc_project.Security.Ccm as Ccm
use foc_project.Security.Counter as Counter
use foc_project.Packets.Delete.M1 as DeleteM1
use foc_project.Packets.Delete.Ack as DeleteAck
use foc_project.Files.Paths as Paths
use foc_project.Files.File as File
use foc_project.Session as S
use foc_project.Server.Requests as R
use foc_project.Server.Disk as OnDisk
use foc_project.Packets.Rename.M1 as RenameM1
use foc_project.Packets.Rename.Ack as RenameAck
use foc_project.Packets.Upload.M1 as UploadM1
use foc_project.Packets.Upload.Ack as UploadAck
use foc_project.Packets.Download.M1 as DownloadM1
use foc_project.Packets.Download.Ack as DownloadAck
use foc_project.Files.Names as Names
use foc_project.Packets.Upload.M2 as UploadM2
use foc_project.Memory.{Buffer, ok, thrown, until_nul, zeros}
use foc_project.Packets.Codes.{upload_chunk, upload_req, download_chunk}
use foc_project.Files.Paths.{data_path, filename}
use foc_project.Session.{Session, Flow, next, returned, one, send_message}
use foc_project.Session.Delivery.{Ready, ReadyAll, Sends}
use foc_project.Server.Transfers.{upload_file, download_file}
use foc_project.Chunks.Send.Laws.{payloads}
use foc_project.Server.Transfers.Download.{answer_code, download_file-Sends}
use foc_project.Server.Transfers.Upload.{waiting, Stored, upload_file-Stored}
use foc_project.Chunks.Send.Laws.{payload_of}
use foc_project.Chunks.Receive.{accepted, Arriving, done, more}
use foc_project.Tests.Toy.{
  toy_platform, toy-IsCcm, toy-IsLawful, toy_files, toy_session, Disk, blank, put, value_of,
}
use foc_project.Tests.Ready.{toy_Ready, toy_packet, toy_Arrives}

abbrev pub a_name : Buffer
a_name = b'a' ∷ []

pub short_a : length (until_nul a_name) < 256
unfolding until_nul
short_a = omega arith

abbrev a_path : Buffer
a_path = data_path (b'u' ∷ []) (until_nul a_name)

-- A file of one whole chunk and two bytes.
abbrev chunk : Buffer
chunk = 1 ∷ 2 ∷ 3 ∷ 4 ∷ 5 ∷ 6 ∷ 7 ∷ 8 ∷ 9 ∷ 10 ∷ 11 ∷ 12 ∷ 13 ∷ 14 ∷ 15 ∷ []

abbrev last_chunk : Buffer
last_chunk = 16 ∷ 17 ∷ []

abbrev disk : Disk
disk = put a_path (some (chunk ++ last_chunk)) blank

abbrev ivs : List (Option Buffer)
ivs = some (3 ∷ 4 ∷ []) ∷ some (5 ∷ 6 ∷ []) ∷ some (7 ∷ 8 ∷ []) ∷ []

-- Three messages can be sent.
abbrev pub start : Session toy_platform
start = record (toy_session [] disk) {
  accepted = some 2_000_000 ∷ some 2_000_000 ∷ some 2_000_000 ∷ [];
  random = ivs;
}

abbrev pub download_request : Buffer
download_request = value_of (DownloadM1.serialize (DownloadM1.make a_name))

pub download_request_made : DownloadM1.serialize (DownloadM1.make a_name) ≡ ok download_request
unfolding M.zeros M.read M.write M.read_byte M.until_nul M.strncpy M.c_string M.allocate
    Wrapper.make Wrapper.create_aad Wrapper.serialize Wrapper.deserialize Wrapper.get_size
    Evp.encrypt_start Evp.encrypt_ready Evp.decrypt_start Evp.decrypt_ready Evp.seal Evp.unseal
    Ccm.encrypt_aes_ccm Ccm.decrypt_aes_ccm DeleteM1.make DeleteM1.serialize DeleteM1.deserialize
    DeleteAck.make DeleteAck.serialize DeleteAck.deserialize S.pure S.return_code S.attempt
    S.get_state S.set_disk S.◌>>=◌ S.send_data S.receive_data S.random_value S.wrap S.transmit
    S.send_message S.check_counter W.store32 W.load32 W.htonl W.sub64 W.widen
    Counter.increment_counter Paths.data_folder Paths.data_path File.exists OnDisk.delete_on_disk
    R.delete_file OnDisk.rename_on_disk take drop replicate RenameM1.make RenameM1.serialize
    RenameM1.deserialize RenameAck.make RenameAck.serialize RenameAck.deserialize UploadM1.make
    UploadM1.serialize UploadM1.deserialize UploadAck.make UploadAck.serialize UploadAck.deserialize
    DownloadM1.make DownloadM1.serialize DownloadM1.deserialize DownloadAck.make
    DownloadAck.make_failed DownloadAck.serialize DownloadAck.deserialize Names.is_word
    Names.is_name_char Names.all_name_chars Names.is_valid_file_name Paths.filename
    Paths.last_component File.is_accepted_name UploadM2.make
download_request_made = refl

abbrev reply : Buffer
reply = value_of (DownloadAck.serialize toy_platform.host (answer_code 17))

reply_made : DownloadAck.serialize toy_platform.host (answer_code 17) ≡ ok reply
unfolding M.zeros M.read M.write M.read_byte M.until_nul M.strncpy M.c_string M.allocate
    Wrapper.make Wrapper.create_aad Wrapper.serialize Wrapper.deserialize Wrapper.get_size
    Evp.encrypt_start Evp.encrypt_ready Evp.decrypt_start Evp.decrypt_ready Evp.seal Evp.unseal
    Ccm.encrypt_aes_ccm Ccm.decrypt_aes_ccm DeleteM1.make DeleteM1.serialize DeleteM1.deserialize
    DeleteAck.make DeleteAck.serialize DeleteAck.deserialize S.pure S.return_code S.attempt
    S.get_state S.set_disk S.◌>>=◌ S.send_data S.receive_data S.random_value S.wrap S.transmit
    S.send_message S.check_counter W.store32 W.load32 W.htonl W.sub64 W.widen
    Counter.increment_counter Paths.data_folder Paths.data_path File.exists OnDisk.delete_on_disk
    R.delete_file OnDisk.rename_on_disk take drop replicate RenameM1.make RenameM1.serialize
    RenameM1.deserialize RenameAck.make RenameAck.serialize RenameAck.deserialize UploadM1.make
    UploadM1.serialize UploadM1.deserialize UploadAck.make UploadAck.serialize UploadAck.deserialize
    DownloadM1.make DownloadM1.serialize DownloadM1.deserialize DownloadAck.make
    DownloadAck.make_failed DownloadAck.serialize DownloadAck.deserialize Names.is_word
    Names.is_name_char Names.all_name_chars Names.is_valid_file_name Paths.filename
    Paths.last_component File.is_accepted_name UploadM2.make
reply_made = refl

length-reply : length reply < 2 ^ 20
unfolding M.zeros M.read M.write M.read_byte M.until_nul M.strncpy M.c_string M.allocate
    Wrapper.make Wrapper.create_aad Wrapper.serialize Wrapper.deserialize Wrapper.get_size
    Evp.encrypt_start Evp.encrypt_ready Evp.decrypt_start Evp.decrypt_ready Evp.seal Evp.unseal
    Ccm.encrypt_aes_ccm Ccm.decrypt_aes_ccm DeleteM1.make DeleteM1.serialize DeleteM1.deserialize
    DeleteAck.make DeleteAck.serialize DeleteAck.deserialize S.pure S.return_code S.attempt
    S.get_state S.set_disk S.◌>>=◌ S.send_data S.receive_data S.random_value S.wrap S.transmit
    S.send_message S.check_counter W.store32 W.load32 W.htonl W.sub64 W.widen
    Counter.increment_counter Paths.data_folder Paths.data_path File.exists OnDisk.delete_on_disk
    R.delete_file OnDisk.rename_on_disk take drop replicate RenameM1.make RenameM1.serialize
    RenameM1.deserialize RenameAck.make RenameAck.serialize RenameAck.deserialize UploadM1.make
    UploadM1.serialize UploadM1.deserialize UploadAck.make UploadAck.serialize UploadAck.deserialize
    DownloadM1.make DownloadM1.serialize DownloadM1.deserialize DownloadAck.make
    DownloadAck.make_failed DownloadAck.serialize DownloadAck.deserialize Names.is_word
    Names.is_name_char Names.all_name_chars Names.is_valid_file_name Paths.filename
    Paths.last_component File.is_accepted_name UploadM2.make
length-reply = omega arith

pub a_exists : File.exists toy_files a_path disk ≡ M.ok true
unfolding M.zeros M.read M.write M.read_byte M.until_nul M.strncpy M.c_string M.allocate
    Wrapper.make Wrapper.create_aad Wrapper.serialize Wrapper.deserialize Wrapper.get_size
    Evp.encrypt_start Evp.encrypt_ready Evp.decrypt_start Evp.decrypt_ready Evp.seal Evp.unseal
    Ccm.encrypt_aes_ccm Ccm.decrypt_aes_ccm DeleteM1.make DeleteM1.serialize DeleteM1.deserialize
    DeleteAck.make DeleteAck.serialize DeleteAck.deserialize S.pure S.return_code S.attempt
    S.get_state S.set_disk S.◌>>=◌ S.send_data S.receive_data S.random_value S.wrap S.transmit
    S.send_message S.check_counter W.store32 W.load32 W.htonl W.sub64 W.widen
    Counter.increment_counter Paths.data_folder Paths.data_path File.exists OnDisk.delete_on_disk
    R.delete_file OnDisk.rename_on_disk take drop replicate RenameM1.make RenameM1.serialize
    RenameM1.deserialize RenameAck.make RenameAck.serialize RenameAck.deserialize UploadM1.make
    UploadM1.serialize UploadM1.deserialize UploadAck.make UploadAck.serialize UploadAck.deserialize
    DownloadM1.make DownloadM1.serialize DownloadM1.deserialize DownloadAck.make
    DownloadAck.make_failed DownloadAck.serialize DownloadAck.deserialize Names.is_word
    Names.is_name_char Names.all_name_chars Names.is_valid_file_name Paths.filename
    Paths.last_component File.is_accepted_name UploadM2.make
a_exists = refl

a_accepted : File.is_accepted_name (filename a_path) ≡ true
unfolding M.zeros M.read M.write M.read_byte M.until_nul M.strncpy M.c_string M.allocate
    Wrapper.make Wrapper.create_aad Wrapper.serialize Wrapper.deserialize Wrapper.get_size
    Evp.encrypt_start Evp.encrypt_ready Evp.decrypt_start Evp.decrypt_ready Evp.seal Evp.unseal
    Ccm.encrypt_aes_ccm Ccm.decrypt_aes_ccm DeleteM1.make DeleteM1.serialize DeleteM1.deserialize
    DeleteAck.make DeleteAck.serialize DeleteAck.deserialize S.pure S.return_code S.attempt
    S.get_state S.set_disk S.◌>>=◌ S.send_data S.receive_data S.random_value S.wrap S.transmit
    S.send_message S.check_counter W.store32 W.load32 W.htonl W.sub64 W.widen
    Counter.increment_counter Paths.data_folder Paths.data_path File.exists OnDisk.delete_on_disk
    R.delete_file OnDisk.rename_on_disk take drop replicate RenameM1.make RenameM1.serialize
    RenameM1.deserialize RenameAck.make RenameAck.serialize RenameAck.deserialize UploadM1.make
    UploadM1.serialize UploadM1.deserialize UploadAck.make UploadAck.serialize UploadAck.deserialize
    DownloadM1.make DownloadM1.serialize DownloadM1.deserialize DownloadAck.make
    DownloadAck.make_failed DownloadAck.serialize DownloadAck.deserialize Names.is_word
    Names.is_name_char Names.all_name_chars Names.is_valid_file_name Paths.filename
    Paths.last_component File.is_accepted_name UploadM2.make
a_accepted = refl

a_contents : toy_files.open_input a_path disk ≡ some (chunk ++ last_chunk)
unfolding M.zeros M.read M.write M.read_byte M.until_nul M.strncpy M.c_string M.allocate
    Wrapper.make Wrapper.create_aad Wrapper.serialize Wrapper.deserialize Wrapper.get_size
    Evp.encrypt_start Evp.encrypt_ready Evp.decrypt_start Evp.decrypt_ready Evp.seal Evp.unseal
    Ccm.encrypt_aes_ccm Ccm.decrypt_aes_ccm DeleteM1.make DeleteM1.serialize DeleteM1.deserialize
    DeleteAck.make DeleteAck.serialize DeleteAck.deserialize S.pure S.return_code S.attempt
    S.get_state S.set_disk S.◌>>=◌ S.send_data S.receive_data S.random_value S.wrap S.transmit
    S.send_message S.check_counter W.store32 W.load32 W.htonl W.sub64 W.widen
    Counter.increment_counter Paths.data_folder Paths.data_path File.exists OnDisk.delete_on_disk
    R.delete_file OnDisk.rename_on_disk take drop replicate RenameM1.make RenameM1.serialize
    RenameM1.deserialize RenameAck.make RenameAck.serialize RenameAck.deserialize UploadM1.make
    UploadM1.serialize UploadM1.deserialize UploadAck.make UploadAck.serialize UploadAck.deserialize
    DownloadM1.make DownloadM1.serialize DownloadM1.deserialize DownloadAck.make
    DownloadAck.make_failed DownloadAck.serialize DownloadAck.deserialize Names.is_word
    Names.is_name_char Names.all_name_chars Names.is_valid_file_name Paths.filename
    Paths.last_component File.is_accepted_name UploadM2.make
a_contents = refl

abbrev messages : List Buffer
messages = payloads download_chunk (chunk ∷ []) last_chunk

all_Ready : ReadyAll start (reply ∷ messages)
unfolding M.zeros M.read M.write M.read_byte M.until_nul M.strncpy M.c_string M.allocate
    Wrapper.make Wrapper.create_aad Wrapper.serialize Wrapper.deserialize Wrapper.get_size
    Evp.encrypt_start Evp.encrypt_ready Evp.decrypt_start Evp.decrypt_ready Evp.seal Evp.unseal
    Ccm.encrypt_aes_ccm Ccm.decrypt_aes_ccm DeleteM1.make DeleteM1.serialize DeleteM1.deserialize
    DeleteAck.make DeleteAck.serialize DeleteAck.deserialize S.pure S.return_code S.attempt
    S.get_state S.set_disk S.◌>>=◌ S.send_data S.receive_data S.random_value S.wrap S.transmit
    S.send_message S.check_counter W.store32 W.load32 W.htonl W.sub64 W.widen
    Counter.increment_counter Paths.data_folder Paths.data_path File.exists OnDisk.delete_on_disk
    R.delete_file OnDisk.rename_on_disk take drop replicate RenameM1.make RenameM1.serialize
    RenameM1.deserialize RenameAck.make RenameAck.serialize RenameAck.deserialize UploadM1.make
    UploadM1.serialize UploadM1.deserialize UploadAck.make UploadAck.serialize UploadAck.deserialize
    DownloadM1.make DownloadM1.serialize DownloadM1.deserialize DownloadAck.make
    DownloadAck.make_failed DownloadAck.serialize DownloadAck.deserialize Names.is_word
    Names.is_name_char Names.all_name_chars Names.is_valid_file_name Paths.filename
    Paths.last_component File.is_accepted_name UploadM2.make
all_Ready = (
  toy_Ready start reply (3 ∷ 4 ∷ []) _ _ refl refl (omega arith) refl refl length-reply,
  (
    toy_Ready _ (download_chunk ∷ chunk) (5 ∷ 6 ∷ []) _ _ refl refl (omega arith) refl refl
        (omega arith),
    (
      toy_Ready _ (download_chunk ∷ last_chunk) (7 ∷ 8 ∷ []) _ _ refl refl (omega arith) refl refl
          (omega arith),
      tt,
    ),
  ),
)

download_file-Sends_example :
    ((download_file toy_platform download_request start).0 ≡ returned one)
    × Sends start (reply ∷ messages) (download_file toy_platform download_request start).1
download_file-Sends_example =
    download_file-Sends toy-IsCcm toy-IsLawful a_name download_request reply (chunk ∷ []) last_chunk
      start short_a download_request_made a_exists a_accepted a_contents (omega arith) (refl, tt)
      (omega arith) (omega arith) reply_made all_Ready

-- The client's packets.
abbrev pub begin : Session toy_platform
begin =
    record (toy_session
      (some (toy_packet 0 (payload_of upload_chunk chunk))
        ∷ some (toy_packet 1 (payload_of upload_chunk last_chunk))
        ∷ [])
      blank) { accepted = some 2_000_000 ∷ some 2_000_000 ∷ []; random = ivs }

abbrev pub upload_request : Buffer
upload_request = value_of (UploadM1.serialize toy_platform.host (UploadM1.make a_name 17))

pub upload_request_made :
    UploadM1.serialize toy_platform.host (UploadM1.make a_name 17) ≡ ok upload_request
unfolding M.zeros M.read M.write M.read_byte M.until_nul M.strncpy M.c_string M.allocate
    Wrapper.make Wrapper.create_aad Wrapper.serialize Wrapper.deserialize Wrapper.get_size
    Evp.encrypt_start Evp.encrypt_ready Evp.decrypt_start Evp.decrypt_ready Evp.seal Evp.unseal
    Ccm.encrypt_aes_ccm Ccm.decrypt_aes_ccm DeleteM1.make DeleteM1.serialize DeleteM1.deserialize
    DeleteAck.make DeleteAck.serialize DeleteAck.deserialize S.pure S.return_code S.attempt
    S.get_state S.set_disk S.◌>>=◌ S.send_data S.receive_data S.random_value S.wrap S.transmit
    S.send_message S.check_counter W.store32 W.load32 W.htonl W.sub64 W.widen
    Counter.increment_counter Paths.data_folder Paths.data_path File.exists OnDisk.delete_on_disk
    R.delete_file OnDisk.rename_on_disk take drop replicate RenameM1.make RenameM1.serialize
    RenameM1.deserialize RenameAck.make RenameAck.serialize RenameAck.deserialize UploadM1.make
    UploadM1.serialize UploadM1.deserialize UploadAck.make UploadAck.serialize UploadAck.deserialize
    DownloadM1.make DownloadM1.serialize DownloadM1.deserialize DownloadAck.make
    DownloadAck.make_failed DownloadAck.serialize DownloadAck.deserialize Names.is_word
    Names.is_name_char Names.all_name_chars Names.is_valid_file_name Paths.filename
    Paths.last_component File.is_accepted_name UploadM2.make
upload_request_made = refl

abbrev accept : Buffer
accept = upload_req ∷ 1 ∷ []

accept_made : UploadAck.serialize (UploadAck.make 1) ≡ ok accept
unfolding M.zeros M.read M.write M.read_byte M.until_nul M.strncpy M.c_string M.allocate
    Wrapper.make Wrapper.create_aad Wrapper.serialize Wrapper.deserialize Wrapper.get_size
    Evp.encrypt_start Evp.encrypt_ready Evp.decrypt_start Evp.decrypt_ready Evp.seal Evp.unseal
    Ccm.encrypt_aes_ccm Ccm.decrypt_aes_ccm DeleteM1.make DeleteM1.serialize DeleteM1.deserialize
    DeleteAck.make DeleteAck.serialize DeleteAck.deserialize S.pure S.return_code S.attempt
    S.get_state S.set_disk S.◌>>=◌ S.send_data S.receive_data S.random_value S.wrap S.transmit
    S.send_message S.check_counter W.store32 W.load32 W.htonl W.sub64 W.widen
    Counter.increment_counter Paths.data_folder Paths.data_path File.exists OnDisk.delete_on_disk
    R.delete_file OnDisk.rename_on_disk take drop replicate RenameM1.make RenameM1.serialize
    RenameM1.deserialize RenameAck.make RenameAck.serialize RenameAck.deserialize UploadM1.make
    UploadM1.serialize UploadM1.deserialize UploadAck.make UploadAck.serialize UploadAck.deserialize
    DownloadM1.make DownloadM1.serialize DownloadM1.deserialize DownloadAck.make
    DownloadAck.make_failed DownloadAck.serialize DownloadAck.deserialize Names.is_word
    Names.is_name_char Names.all_name_chars Names.is_valid_file_name Paths.filename
    Paths.last_component File.is_accepted_name UploadM2.make
accept_made = refl

pub a_is_new : File.exists toy_files a_path blank ≡ M.ok false
unfolding M.zeros M.read M.write M.read_byte M.until_nul M.strncpy M.c_string M.allocate
    Wrapper.make Wrapper.create_aad Wrapper.serialize Wrapper.deserialize Wrapper.get_size
    Evp.encrypt_start Evp.encrypt_ready Evp.decrypt_start Evp.decrypt_ready Evp.seal Evp.unseal
    Ccm.encrypt_aes_ccm Ccm.decrypt_aes_ccm DeleteM1.make DeleteM1.serialize DeleteM1.deserialize
    DeleteAck.make DeleteAck.serialize DeleteAck.deserialize S.pure S.return_code S.attempt
    S.get_state S.set_disk S.◌>>=◌ S.send_data S.receive_data S.random_value S.wrap S.transmit
    S.send_message S.check_counter W.store32 W.load32 W.htonl W.sub64 W.widen
    Counter.increment_counter Paths.data_folder Paths.data_path File.exists OnDisk.delete_on_disk
    R.delete_file OnDisk.rename_on_disk take drop replicate RenameM1.make RenameM1.serialize
    RenameM1.deserialize RenameAck.make RenameAck.serialize RenameAck.deserialize UploadM1.make
    UploadM1.serialize UploadM1.deserialize UploadAck.make UploadAck.serialize UploadAck.deserialize
    DownloadM1.make DownloadM1.serialize DownloadM1.deserialize DownloadAck.make
    DownloadAck.make_failed DownloadAck.serialize DownloadAck.deserialize Names.is_word
    Names.is_name_char Names.all_name_chars Names.is_valid_file_name Paths.filename
    Paths.last_component File.is_accepted_name UploadM2.make
a_is_new = refl

abbrev empty : Disk
empty = put a_path (some []) blank

abbrev half : Disk
half = put a_path (some ([] ++ chunk)) empty

abbrev whole : Disk
whole = put a_path (some (([] ++ chunk) ++ last_chunk)) half

abbrev first : Session toy_platform
first = waiting begin accept empty

abbrev second : Session toy_platform
second = accepted first (some (toy_packet 1 (payload_of upload_chunk last_chunk)) ∷ []) half

abbrev end : Session toy_platform
end = accepted second [] whole

begin-Ready : Ready begin accept
begin-Ready =
    toy_Ready begin accept (3 ∷ 4 ∷ []) _ _ refl refl (omega arith) refl refl (omega arith)

end-Ready : Ready end accept
unfolding M.zeros M.read M.write M.read_byte M.until_nul M.strncpy M.c_string M.allocate
    Wrapper.make Wrapper.create_aad Wrapper.serialize Wrapper.deserialize Wrapper.get_size
    Evp.encrypt_start Evp.encrypt_ready Evp.decrypt_start Evp.decrypt_ready Evp.seal Evp.unseal
    Ccm.encrypt_aes_ccm Ccm.decrypt_aes_ccm DeleteM1.make DeleteM1.serialize DeleteM1.deserialize
    DeleteAck.make DeleteAck.serialize DeleteAck.deserialize S.pure S.return_code S.attempt
    S.get_state S.set_disk S.◌>>=◌ S.send_data S.receive_data S.random_value S.wrap S.transmit
    S.send_message S.check_counter W.store32 W.load32 W.htonl W.sub64 W.widen
    Counter.increment_counter Paths.data_folder Paths.data_path File.exists OnDisk.delete_on_disk
    R.delete_file OnDisk.rename_on_disk take drop replicate RenameM1.make RenameM1.serialize
    RenameM1.deserialize RenameAck.make RenameAck.serialize RenameAck.deserialize UploadM1.make
    UploadM1.serialize UploadM1.deserialize UploadAck.make UploadAck.serialize UploadAck.deserialize
    DownloadM1.make DownloadM1.serialize DownloadM1.deserialize DownloadAck.make
    DownloadAck.make_failed DownloadAck.serialize DownloadAck.deserialize Names.is_word
    Names.is_name_char Names.all_name_chars Names.is_valid_file_name Paths.filename
    Paths.last_component File.is_accepted_name UploadM2.make
end-Ready = toy_Ready end accept (5 ∷ 6 ∷ []) _ _ refl refl (omega arith) refl refl (omega arith)

chunks-Arriving : Arriving upload_chunk a_path first (chunk ∷ last_chunk ∷ []) end
unfolding M.zeros M.read M.write M.read_byte M.until_nul M.strncpy M.c_string M.allocate
    Wrapper.make Wrapper.create_aad Wrapper.serialize Wrapper.deserialize Wrapper.get_size
    Evp.encrypt_start Evp.encrypt_ready Evp.decrypt_start Evp.decrypt_ready Evp.seal Evp.unseal
    Ccm.encrypt_aes_ccm Ccm.decrypt_aes_ccm DeleteM1.make DeleteM1.serialize DeleteM1.deserialize
    DeleteAck.make DeleteAck.serialize DeleteAck.deserialize S.pure S.return_code S.attempt
    S.get_state S.set_disk S.◌>>=◌ S.send_data S.receive_data S.random_value S.wrap S.transmit
    S.send_message S.check_counter W.store32 W.load32 W.htonl W.sub64 W.widen
    Counter.increment_counter Paths.data_folder Paths.data_path File.exists OnDisk.delete_on_disk
    R.delete_file OnDisk.rename_on_disk take drop replicate RenameM1.make RenameM1.serialize
    RenameM1.deserialize RenameAck.make RenameAck.serialize RenameAck.deserialize UploadM1.make
    UploadM1.serialize UploadM1.deserialize UploadAck.make UploadAck.serialize UploadAck.deserialize
    DownloadM1.make DownloadM1.serialize DownloadM1.deserialize DownloadAck.make
    DownloadAck.make_failed DownloadAck.serialize DownloadAck.deserialize Names.is_word
    Names.is_name_char Names.all_name_chars Names.is_valid_file_name Paths.filename
    Paths.last_component File.is_accepted_name UploadM2.make toy_Arrives
chunks-Arriving =
    more
      (toy_Arrives first (payload_of upload_chunk chunk)
        (some (toy_packet 1 (payload_of upload_chunk last_chunk)) ∷ []) refl (omega arith) refl
        (omega arith))
      refl
      (more
        (toy_Arrives second (payload_of upload_chunk last_chunk) [] refl (omega arith) refl
          (omega arith))
        refl done)

upload_file-Stored_example :
    Stored end a_path accept (chunk ++ last_chunk) (upload_file toy_platform upload_request begin)
upload_file-Stored_example =
    upload_file-Stored toy-IsCcm toy-IsLawful a_name upload_request accept accept (chunk ∷ [])
      last_chunk begin end short_a (omega arith) upload_request_made a_is_new a_accepted refl
      accept_made begin-Ready (refl, tt) (omega arith) chunks-Arriving accept_made end-Ready
