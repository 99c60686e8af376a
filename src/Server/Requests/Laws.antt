-- ===== src/Server/Requests/Laws.antt =====
-- `Worker::rename_file` and `Worker::delete_file` of server/worker.cpp: the disk and the answers.
use foc_project.Prelude.{ℕ, ◌<◌, ◌≡◌, refl, length}
use foc_project.Memory.{Buffer, ok, c_string, until_nul}
use foc_project.Memory.Laws.{>>=-ok, length-strncpy, c_string-strncpy}
use foc_project.Security.Evp.{IsCcm}
use foc_project.Packets.Codes.{name_array}
use foc_project.Packets.Rename.M1 as RenameM1
use foc_project.Packets.Rename.Ack as RenameAck
use foc_project.Packets.Delete.M1 as DeleteM1
use foc_project.Packets.Delete.Ack as DeleteAck
use foc_project.Files.Paths.{data_path}
use foc_project.Platform.{Platform}
use foc_project.Session.{Session, one, returned, Exec, return_code, ◌>>=◌, send_message}
use foc_project.Session.Delivery.{Ready, Delivered, answer-Delivered}
use foc_project.Server.Disk.{rename_on_disk, delete_on_disk}
use foc_project.Server.Requests.{rename_file, delete_file}

module _ {P : Platform} (C : IsCcm P.evp) (s : Session P) where
  abbrev answer : Buffer → Exec P (Unit {0})
  answer reply = send_message P reply >>= λ _. return_code P one

  rename_file_lem :
      (m : RenameM1.RenameM1) (old new payload reply : Buffer) {r : ℕ × P.files.State}
      → RenameM1.deserialize payload ≡ ok m
      → c_string m.file_name ≡ ok old
      → c_string m.new_file_name ≡ ok new
      → rename_on_disk P (data_path s.username old) (data_path s.username new) s.disk ≡ ok r
      → RenameAck.serialize (RenameAck.make r.0) ≡ ok reply
      → rename_file P payload s ≡ answer reply (record s { disk = r.1 })
  unfolding rename_file ◌>>=◌
  rename_file_lem m old new payload reply d n n' k a = rw (d, n, n', k, a) refl

  delete_file_lem :
      (m : DeleteM1.DeleteM1) (name payload reply : Buffer) {r : ℕ × P.files.State}
      → DeleteM1.deserialize payload ≡ ok m
      → c_string m.file_name ≡ ok name
      → delete_on_disk P (data_path s.username name) s.disk ≡ ok r
      → DeleteAck.serialize (DeleteAck.make r.0) ≡ ok reply
      → delete_file P payload s ≡ answer reply (record s { disk = r.1 })
  unfolding delete_file ◌>>=◌
  delete_file_lem m name payload reply d n k a = rw (d, n, k, a) refl

  -- A rename request with two names that leave room for their terminators returns 1, changes the
  -- disk as `rename_on_disk` says for the two paths in the folder of the user, and sends the
  -- acknowledgement with its code. The tests of the disk do not throw (`rename_on_disk` gives a
  -- result), the acknowledgement can be sent and OpenSSL is assumed to be lawful.
  pub rename_file-Delivered :
      (old new payload reply : Buffer) {r : ℕ × P.files.State}
      → length (until_nul old) < name_array
      → length (until_nul new) < name_array
      → RenameM1.serialize (RenameM1.make old new) ≡ ok payload
      → rename_on_disk P
          (data_path s.username (until_nul old))
          (data_path s.username (until_nul new))
          s.disk
        ≡ ok r
      → let renamed : Session P = record s { disk = r.1 } in
        RenameAck.serialize (RenameAck.make r.0) ≡ ok reply
        → Ready renamed reply
        → ((rename_file P payload s).0 ≡ returned one)
          × Delivered renamed reply (rename_file P payload s).1
  unfolding RenameM1.make
  rename_file-Delivered old new payload reply h k sent done answered ready =
      let m = RenameM1.make old new in
      let opened : RenameM1.deserialize payload ≡ ok m =
        >>=-ok (RenameM1.serialize m) RenameM1.deserialize sent (
          RenameM1.rename_m1_round_trip m (record {
            name_length = length-strncpy old 256;
            new_name_length = length-strncpy new 256;
          })) in
      rw
        (rename_file_lem m (until_nul old) (until_nul new) payload reply opened
          (c_string-strncpy old 256 h) (c_string-strncpy new 256 k) done answered)
        (answer-Delivered C _ reply ready)

  -- A delete request with a name that leaves room for its terminator returns 1, changes the disk
  -- as `delete_on_disk` says for the path in the folder of the user, and sends the
  -- acknowledgement with its code. The test of the disk does not throw (`delete_on_disk` gives a
  -- result), the acknowledgement can be sent and OpenSSL is assumed to be lawful.
  pub delete_file-Delivered :
      (name payload reply : Buffer) {r : ℕ × P.files.State}
      → length (until_nul name) < name_array
      → DeleteM1.serialize (DeleteM1.make name) ≡ ok payload
      → delete_on_disk P (data_path s.username (until_nul name)) s.disk ≡ ok r
      → let deleted : Session P = record s { disk = r.1 } in
        DeleteAck.serialize (DeleteAck.make r.0) ≡ ok reply
        → Ready deleted reply
        → ((delete_file P payload s).0 ≡ returned one)
          × Delivered deleted reply (delete_file P payload s).1
  unfolding DeleteM1.make
  delete_file-Delivered name payload reply h sent done answered ready =
      let m = DeleteM1.make name in
      let opened : DeleteM1.deserialize payload ≡ ok m =
        >>=-ok (DeleteM1.serialize m) DeleteM1.deserialize sent
          (DeleteM1.deserialize-serialize m (record { name_length = length-strncpy name 256 })) in
      rw
        (delete_file_lem m (until_nul name) payload reply opened (c_string-strncpy name 256 h) done
          answered)
        (answer-Delivered C _ reply ready)
