-- ===== src/Tests/Exchange.antt =====
-- A client and a worker that go through a rename, and through a delete.
use foc_project.Prelude.{ℕ, ◌<◌, ◌≡◌, refl, some, [], ◌∷◌, length, take, drop, replicate, arith}
use foc_project.Memory as M
use foc_project.Words as W
use foc_project.Packets.Wrapper as Wrapper
use foc_project.Security.Evp as Evp
use foc_project.Security.Ccm as Ccm
use foc_project.Security.Counter as Counter
use foc_project.Packets.Delete.M1 as DeleteM1
use foc_project.Packets.Delete.Ack as DeleteAck
use foc_project.Packets.Rename.M1 as RenameM1
use foc_project.Packets.Rename.Ack as RenameAck
use foc_project.Files.Paths as Paths
use foc_project.Files.File as File
use foc_project.Session as S
use foc_project.Server.Requests as R
use foc_project.Server.Disk as OnDisk
use foc_project.Server.Loop as L
use foc_project.Memory.{Buffer, until_nul}
use foc_project.Packets.Codes.{rename_req, delete_req}
use foc_project.Files.Paths.{data_path}
use foc_project.Session.{Session, next, returned, one, send_message}
use foc_project.Server.Disk.{rename_on_disk, delete_on_disk}
use foc_project.Server.Loop.{serve_request}
use foc_project.Client.Requests.{request_rename, request_delete}
use foc_project.Exchange.{Paired, Together}
use foc_project.Exchange.Rename.{rename_payload, rename_reply, rename_exchange}
use foc_project.Exchange.Delete.{delete_payload, delete_reply, delete_exchange}
use foc_project.Tests.Toy.{toy_files, toy_platform, toy-IsCcm, toy_session, Disk, blank, put}
use foc_project.Tests.Ready.{toy_Ready, toy_packet}

abbrev a_name : Buffer
a_name = b'a' ∷ []

abbrev b_name : Buffer
b_name = b'b' ∷ []

-- The folder of the user, with the file "a".
abbrev disk : Disk
disk = put (data_path (b'u' ∷ []) a_name) (some (1 ∷ 2 ∷ 3 ∷ [])) blank

short_a : length (until_nul a_name) < 256
unfolding until_nul
short_a = omega arith

short_b : length (until_nul b_name) < 256
unfolding until_nul
short_b = omega arith

-- One end of the connection, to which a packet comes.
abbrev end : Buffer → Disk → Session toy_platform
end packet d = record (toy_session (some packet ∷ []) d) { random = some (7 ∷ 8 ∷ []) ∷ [] }

abbrev renaming : Session toy_platform
renaming = end (toy_packet 0 (rename_reply 0)) blank

abbrev renamer : Session toy_platform
renamer = end (toy_packet 0 (rename_payload a_name b_name)) disk

ends-Paired : (p q : Buffer) → Paired (end p blank) (end q disk)
ends-Paired p q = record {
  user = refl;
  up = record { key = refl; due = refl };
  down = record { key = refl; due = refl };
}

abbrev renamed : ℕ × Disk
renamed = (
  0,
  (toy_files.rename (data_path renamer.username (until_nul a_name))
      (data_path renamer.username (until_nul b_name)) renamer.disk).1,
)

renames :
    Together renaming renamer (rename_payload a_name b_name) (rename_reply renamed.0) renamed.1
unfolding M.zeros M.read M.write M.read_byte M.until_nul M.strncpy M.c_string M.allocate
    Wrapper.make Wrapper.create_aad Wrapper.serialize Wrapper.deserialize Wrapper.get_size
    Evp.encrypt_start Evp.encrypt_ready Evp.decrypt_start Evp.decrypt_ready Evp.seal Evp.unseal
    Ccm.encrypt_aes_ccm Ccm.decrypt_aes_ccm S.pure S.return_code S.attempt S.get_state S.set_disk
    S.◌>>=◌ S.send_data S.receive_data S.random_value S.wrap S.transmit S.send_message
    S.check_counter S.advance_received L.handle L.settle L.serve_packet L.serve_request W.store32
    W.load32 W.htonl W.sub64 W.widen Counter.increment_counter Paths.data_folder Paths.data_path
    File.exists File.change_file_name OnDisk.rename_on_disk R.rename_file RenameM1.deserialize
    RenameAck.make RenameAck.serialize take drop replicate
renames = record {
  up = toy_packet 0 (rename_payload a_name b_name);
  down = toy_packet 0 (rename_reply 0);
  later_up = [];
  later_down = [];
  asks =
      toy_Ready renaming (rename_payload a_name b_name) (7 ∷ 8 ∷ []) [] (some 2_000_000 ∷ []) refl
        refl (omega arith) refl refl (omega arith);
  asked = refl;
  arrives = refl;
  answers =
      toy_Ready _ (rename_reply renamed.0) (7 ∷ 8 ∷ []) [] (some 2_000_000 ∷ []) refl refl
        (omega arith) refl refl (omega arith);
  answered = refl;
  returns = refl;
}

rename_exchange_example :
    let t = serve_request toy_platform renamer in
    let u = request_rename toy_platform a_name b_name renaming in
    (t.0 ≡ next rename_req) × (t.1.disk ≡ renamed.1) × (u.0 ≡ returned one) × Paired u.1 t.1
unfolding rename_on_disk File.exists data_path Paths.data_folder until_nul File.change_file_name
rename_exchange_example =
    rename_exchange toy-IsCcm renaming renamer a_name b_name (ends-Paired _ _) short_a short_b refl
      renames

abbrev deleting : Session toy_platform
deleting = end (toy_packet 0 (delete_reply 0)) blank

abbrev deleter : Session toy_platform
deleter = end (toy_packet 0 (delete_payload a_name)) disk

abbrev deleted : ℕ × Disk
deleted = (0, (toy_files.remove (data_path deleter.username (until_nul a_name)) deleter.disk).1)

deletes : Together deleting deleter (delete_payload a_name) (delete_reply deleted.0) deleted.1
unfolding M.zeros M.read M.write M.read_byte M.until_nul M.strncpy M.c_string M.allocate
    Wrapper.make Wrapper.create_aad Wrapper.serialize Wrapper.deserialize Wrapper.get_size
    Evp.encrypt_start Evp.encrypt_ready Evp.decrypt_start Evp.decrypt_ready Evp.seal Evp.unseal
    Ccm.encrypt_aes_ccm Ccm.decrypt_aes_ccm S.pure S.return_code S.attempt S.get_state S.set_disk
    S.◌>>=◌ S.send_data S.receive_data S.random_value S.wrap S.transmit S.send_message
    S.check_counter S.advance_received L.handle L.settle L.serve_packet L.serve_request W.store32
    W.load32 W.htonl W.sub64 W.widen Counter.increment_counter Paths.data_folder Paths.data_path
    File.exists File.delete_file OnDisk.delete_on_disk R.delete_file DeleteM1.deserialize
    DeleteAck.make DeleteAck.serialize take drop replicate
deletes = record {
  up = toy_packet 0 (delete_payload a_name);
  down = toy_packet 0 (delete_reply 0);
  later_up = [];
  later_down = [];
  asks =
      toy_Ready deleting (delete_payload a_name) (7 ∷ 8 ∷ []) [] (some 2_000_000 ∷ []) refl refl
        (omega arith) refl refl (omega arith);
  asked = refl;
  arrives = refl;
  answers =
      toy_Ready _ (delete_reply deleted.0) (7 ∷ 8 ∷ []) [] (some 2_000_000 ∷ []) refl refl
        (omega arith) refl refl (omega arith);
  answered = refl;
  returns = refl;
}

delete_exchange_example :
    let t = serve_request toy_platform deleter in
    let u = request_delete toy_platform a_name deleting in
    (t.0 ≡ next delete_req) × (t.1.disk ≡ deleted.1) × (u.0 ≡ returned one) × Paired u.1 t.1
unfolding delete_on_disk File.exists data_path Paths.data_folder until_nul File.delete_file
delete_exchange_example =
    delete_exchange toy-IsCcm deleting deleter a_name (ends-Paired _ _) short_a refl deletes
