-- ===== src/Tests/Handlers.antt =====
-- Runs of the worker's handlers.
use foc_project.Prelude.{ℕ, ◌<◌, ◌≡◌, refl, some, [], ◌∷◌, length, take, drop, replicate, arith}
use foc_project.Memory as M
use foc_project.Words as W
use foc_project.Packets.Wrapper as Wrapper
use foc_project.Security.Evp as Evp
use foc_project.Security.Ccm as Ccm
use foc_project.Security.Counter as Counter
use foc_project.Packets.Delete.M1 as DeleteM1
use foc_project.Packets.Delete.Ack as DeleteAck
use foc_project.Files.Paths as Paths
use foc_project.Files.File as File
use foc_project.Session as S
use foc_project.Server.Requests as R
use foc_project.Server.Disk as OnDisk
use foc_project.Packets.Rename.M1 as RenameM1
use foc_project.Packets.Rename.Ack as RenameAck
use foc_project.Packets.Upload.M1 as UploadM1
use foc_project.Packets.Upload.Ack as UploadAck
use foc_project.Packets.Download.M1 as DownloadM1
use foc_project.Packets.Download.Ack as DownloadAck
use foc_project.Files.Names as Names
use foc_project.Memory.{Buffer, ok, thrown, until_nul, zeros}
use foc_project.Packets.Codes.{delete_req, rename_req}
use foc_project.Files.Paths.{data_path, filename}
use foc_project.Session.{Session, Flow, next, returned, one, send_message}
use foc_project.Session.Delivery.{Delivered, send_message-Delivered}
use foc_project.Server.Requests.{rename_file, delete_file}
use foc_project.Server.Requests.Laws.{rename_file-Delivered, delete_file-Delivered}
use foc_project.Tests.Toy.{
  toy_platform, toy-IsCcm, toy_files, toy_session, Disk, blank, put, value_of,
}
use foc_project.Tests.Ready.{toy_Ready}

abbrev a_name : Buffer
a_name = b'a' ∷ []

abbrev b_name : Buffer
b_name = b'b' ∷ []

abbrev a_path : Buffer
a_path = data_path (b'u' ∷ []) a_name

abbrev b_path : Buffer
b_path = data_path (b'u' ∷ []) b_name

-- A folder with the file "a".
abbrev disk : Disk
disk = put a_path (some (1 ∷ 2 ∷ 3 ∷ [])) blank

abbrev start : Session toy_platform
start = toy_session [] disk

short_a : length (until_nul a_name) < 256
unfolding until_nul
short_a = omega arith

short_b : length (until_nul b_name) < 256
unfolding until_nul
short_b = omega arith

send_message-Delivered_example :
    ((send_message toy_platform (9 ∷ []) start).0 ≡ next tt)
    × Delivered start (9 ∷ []) (send_message toy_platform (9 ∷ []) start).1
send_message-Delivered_example = send_message-Delivered toy-IsCcm start (9 ∷ []) (
    toy_Ready start (9 ∷ []) (3 ∷ 4 ∷ []) (some (5 ∷ 6 ∷ []) ∷ []) (some 2_000_000 ∷ []) refl refl
      (omega arith) refl refl (omega arith))

abbrev renamed : ℕ × Disk
renamed = (
  0,
  (toy_files.rename (data_path start.username (until_nul a_name))
      (data_path start.username (until_nul b_name)) start.disk).1,
)

abbrev rename_request : Buffer
rename_request = value_of (RenameM1.serialize (RenameM1.make a_name b_name))

rename_request_made : RenameM1.serialize (RenameM1.make a_name b_name) ≡ ok rename_request
unfolding M.zeros M.read M.write M.read_byte M.until_nul M.strncpy M.c_string M.allocate
    Wrapper.make Wrapper.create_aad Wrapper.serialize Wrapper.deserialize Wrapper.get_size
    Evp.encrypt_start Evp.encrypt_ready Evp.decrypt_start Evp.decrypt_ready Evp.seal Evp.unseal
    Ccm.encrypt_aes_ccm Ccm.decrypt_aes_ccm DeleteM1.make DeleteM1.serialize DeleteM1.deserialize
    DeleteAck.make DeleteAck.serialize DeleteAck.deserialize S.pure S.return_code S.attempt
    S.get_state S.set_disk S.◌>>=◌ S.send_data S.receive_data S.random_value S.wrap S.transmit
    S.send_message S.check_counter W.store32 W.load32 W.htonl W.sub64 W.widen
    Counter.increment_counter Paths.data_folder Paths.data_path File.exists OnDisk.delete_on_disk
    R.delete_file OnDisk.rename_on_disk take drop replicate RenameM1.make RenameM1.serialize
    RenameM1.deserialize RenameAck.make RenameAck.serialize RenameAck.deserialize UploadM1.make
    UploadM1.serialize UploadM1.deserialize UploadAck.make UploadAck.serialize UploadAck.deserialize
    DownloadM1.make DownloadM1.serialize DownloadM1.deserialize DownloadAck.make
    DownloadAck.make_failed DownloadAck.serialize DownloadAck.deserialize Names.is_word
    Names.is_name_char Names.all_name_chars Names.is_valid_file_name Paths.filename
    Paths.last_component File.is_accepted_name File.change_file_name File.delete_file
rename_request_made = refl

rename_reply_made : RenameAck.serialize (RenameAck.make renamed.0) ≡ ok (rename_req ∷ 0 ∷ [])
unfolding M.zeros M.read M.write M.read_byte M.until_nul M.strncpy M.c_string M.allocate
    Wrapper.make Wrapper.create_aad Wrapper.serialize Wrapper.deserialize Wrapper.get_size
    Evp.encrypt_start Evp.encrypt_ready Evp.decrypt_start Evp.decrypt_ready Evp.seal Evp.unseal
    Ccm.encrypt_aes_ccm Ccm.decrypt_aes_ccm DeleteM1.make DeleteM1.serialize DeleteM1.deserialize
    DeleteAck.make DeleteAck.serialize DeleteAck.deserialize S.pure S.return_code S.attempt
    S.get_state S.set_disk S.◌>>=◌ S.send_data S.receive_data S.random_value S.wrap S.transmit
    S.send_message S.check_counter W.store32 W.load32 W.htonl W.sub64 W.widen
    Counter.increment_counter Paths.data_folder Paths.data_path File.exists OnDisk.delete_on_disk
    R.delete_file OnDisk.rename_on_disk take drop replicate RenameM1.make RenameM1.serialize
    RenameM1.deserialize RenameAck.make RenameAck.serialize RenameAck.deserialize UploadM1.make
    UploadM1.serialize UploadM1.deserialize UploadAck.make UploadAck.serialize UploadAck.deserialize
    DownloadM1.make DownloadM1.serialize DownloadM1.deserialize DownloadAck.make
    DownloadAck.make_failed DownloadAck.serialize DownloadAck.deserialize Names.is_word
    Names.is_name_char Names.all_name_chars Names.is_valid_file_name Paths.filename
    Paths.last_component File.is_accepted_name File.change_file_name File.delete_file
rename_reply_made = refl

rename_file-Delivered_example :
    ((rename_file toy_platform rename_request start).0 ≡ returned one)
    × Delivered
        (record start { disk = renamed.1 })
        (rename_req ∷ 0 ∷ [])
        (rename_file toy_platform rename_request start).1
unfolding OnDisk.rename_on_disk File.exists Paths.data_path Paths.data_folder M.until_nul
    File.change_file_name
rename_file-Delivered_example =
    rename_file-Delivered toy-IsCcm start a_name b_name rename_request (rename_req ∷ 0 ∷ []) short_a
      short_b rename_request_made refl rename_reply_made
      (toy_Ready (record start { disk = renamed.1 }) (rename_req ∷ 0 ∷ []) (3 ∷ 4 ∷ [])
        (some (5 ∷ 6 ∷ []) ∷ []) (some 2_000_000 ∷ []) refl refl (omega arith) refl refl
        (omega arith))

abbrev deleted : ℕ × Disk
deleted = (0, (toy_files.remove (data_path start.username (until_nul a_name)) start.disk).1)

abbrev delete_request : Buffer
delete_request = value_of (DeleteM1.serialize (DeleteM1.make a_name))

delete_request_made : DeleteM1.serialize (DeleteM1.make a_name) ≡ ok delete_request
unfolding M.zeros M.read M.write M.read_byte M.until_nul M.strncpy M.c_string M.allocate
    Wrapper.make Wrapper.create_aad Wrapper.serialize Wrapper.deserialize Wrapper.get_size
    Evp.encrypt_start Evp.encrypt_ready Evp.decrypt_start Evp.decrypt_ready Evp.seal Evp.unseal
    Ccm.encrypt_aes_ccm Ccm.decrypt_aes_ccm DeleteM1.make DeleteM1.serialize DeleteM1.deserialize
    DeleteAck.make DeleteAck.serialize DeleteAck.deserialize S.pure S.return_code S.attempt
    S.get_state S.set_disk S.◌>>=◌ S.send_data S.receive_data S.random_value S.wrap S.transmit
    S.send_message S.check_counter W.store32 W.load32 W.htonl W.sub64 W.widen
    Counter.increment_counter Paths.data_folder Paths.data_path File.exists OnDisk.delete_on_disk
    R.delete_file OnDisk.rename_on_disk take drop replicate RenameM1.make RenameM1.serialize
    RenameM1.deserialize RenameAck.make RenameAck.serialize RenameAck.deserialize UploadM1.make
    UploadM1.serialize UploadM1.deserialize UploadAck.make UploadAck.serialize UploadAck.deserialize
    DownloadM1.make DownloadM1.serialize DownloadM1.deserialize DownloadAck.make
    DownloadAck.make_failed DownloadAck.serialize DownloadAck.deserialize Names.is_word
    Names.is_name_char Names.all_name_chars Names.is_valid_file_name Paths.filename
    Paths.last_component File.is_accepted_name File.change_file_name File.delete_file
delete_request_made = refl

delete_reply_made : DeleteAck.serialize (DeleteAck.make deleted.0) ≡ ok (delete_req ∷ 0 ∷ [])
unfolding M.zeros M.read M.write M.read_byte M.until_nul M.strncpy M.c_string M.allocate
    Wrapper.make Wrapper.create_aad Wrapper.serialize Wrapper.deserialize Wrapper.get_size
    Evp.encrypt_start Evp.encrypt_ready Evp.decrypt_start Evp.decrypt_ready Evp.seal Evp.unseal
    Ccm.encrypt_aes_ccm Ccm.decrypt_aes_ccm DeleteM1.make DeleteM1.serialize DeleteM1.deserialize
    DeleteAck.make DeleteAck.serialize DeleteAck.deserialize S.pure S.return_code S.attempt
    S.get_state S.set_disk S.◌>>=◌ S.send_data S.receive_data S.random_value S.wrap S.transmit
    S.send_message S.check_counter W.store32 W.load32 W.htonl W.sub64 W.widen
    Counter.increment_counter Paths.data_folder Paths.data_path File.exists OnDisk.delete_on_disk
    R.delete_file OnDisk.rename_on_disk take drop replicate RenameM1.make RenameM1.serialize
    RenameM1.deserialize RenameAck.make RenameAck.serialize RenameAck.deserialize UploadM1.make
    UploadM1.serialize UploadM1.deserialize UploadAck.make UploadAck.serialize UploadAck.deserialize
    DownloadM1.make DownloadM1.serialize DownloadM1.deserialize DownloadAck.make
    DownloadAck.make_failed DownloadAck.serialize DownloadAck.deserialize Names.is_word
    Names.is_name_char Names.all_name_chars Names.is_valid_file_name Paths.filename
    Paths.last_component File.is_accepted_name File.change_file_name File.delete_file
delete_reply_made = refl

delete_file-Delivered_example :
    ((delete_file toy_platform delete_request start).0 ≡ returned one)
    × Delivered
        (record start { disk = deleted.1 })
        (delete_req ∷ 0 ∷ [])
        (delete_file toy_platform delete_request start).1
unfolding OnDisk.delete_on_disk File.exists Paths.data_path Paths.data_folder M.until_nul
    File.delete_file
delete_file-Delivered_example =
    delete_file-Delivered toy-IsCcm start a_name delete_request (delete_req ∷ 0 ∷ []) short_a
      delete_request_made refl delete_reply_made
      (toy_Ready (record start { disk = deleted.1 }) (delete_req ∷ 0 ∷ []) (3 ∷ 4 ∷ [])
        (some (5 ∷ 6 ∷ []) ∷ []) (some 2_000_000 ∷ []) refl refl (omega arith) refl refl
        (omega arith))
