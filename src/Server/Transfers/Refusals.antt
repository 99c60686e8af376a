-- ===== src/Server/Transfers/Refusals.antt =====
-- `Worker::upload_file` of server/worker.cpp where the file is there already, and
-- `Worker::download_file` where it is not there.
use foc_project.Prelude.{ℕ, ◌<◌, ◌^◌, ◌≡◌, refl, ap, ◌∙◌, true, false, arith, length}
use foc_project.Memory.{Buffer, ok, until_nul}
use foc_project.Memory.Laws.{>>=-ok, length-strncpy, c_string-strncpy}
use foc_project.Security.Evp.{IsCcm}
use foc_project.Packets.Codes.{name_array}
use foc_project.Packets.Upload.M1 as UploadM1
use foc_project.Packets.Upload.Ack as UploadAck
use foc_project.Packets.Download.M1 as DownloadM1
use foc_project.Packets.Download.Ack as DownloadAck
use foc_project.Files.Paths.{data_path}
use foc_project.Files.File
use foc_project.Files.File.Laws as File_laws
use foc_project.Platform.{Platform}
use foc_project.Session.{Session, nil, returned, faulted, ◌>>=◌, send_message}
use foc_project.Session.Delivery.{Ready, Delivered, send_message-Delivered, send_message-next}
use foc_project.Chunks.Send.{send_file}
use foc_project.Server.Transfers.{
  create_file, keep_created, receive_file, upload_file, send_contents, download_file,
}

module _ {P : Platform} (C : IsCcm P.evp) (s : Session P) where
  receive_file_refused :
      (path : Buffer) (size : ℕ) (u : Session P)
      → File.exists P.files path u.disk ≡ ok true
      → receive_file P size path u ≡ (returned nil, u)
  unfolding receive_file create_file keep_created ◌>>=◌
  receive_file_refused path size u there =
      rw (File_laws.create_there P.files path u.disk there) refl

  -- An upload to a name under which the user has a file is answered with code 0 and returns 0,
  -- and the disk stays as it is. The name leaves room for its terminator, the size is below 2^32,
  -- the answer can be sent, the test of the disk does not throw, and OpenSSL is assumed to be
  -- lawful.
  pub upload_file-refused :
      (name payload reply : Buffer) (size : ℕ)
      → length (until_nul name) < name_array
      → size < 2 ^ 32
      → UploadM1.serialize P.host (UploadM1.make name size) ≡ ok payload
      → File.exists P.files (data_path s.username (until_nul name)) s.disk ≡ ok true
      → UploadAck.serialize (UploadAck.make 0) ≡ ok reply
      → Ready s reply
      → ((upload_file P payload s).0 ≡ returned nil) × Delivered s reply (upload_file P payload s).1
  unfolding upload_file UploadM1.make ◌>>=◌
  upload_file-refused name payload reply size short small sent there answered ready =
      let m = UploadM1.make name size in
      let path : Buffer = data_path s.username (until_nul name) in
      let s1 : Session P = (send_message P reply s).1 in
      let read : UploadM1.deserialize P.host payload ≡ ok m =
        >>=-ok (UploadM1.serialize P.host m) (UploadM1.deserialize P.host) sent (
          UploadM1.upload_m1_round_trip P.host P.host m (record {
            command_lt = omega arith;
            size_lt = small;
            name_length = length-strncpy name 256;
          })) in
      let d = (send_message-Delivered C s reply ready).1 in
      rw
        (
          read,
          c_string-strncpy name 256 short,
          there,
          answered,
          send_message-next s reply C ready,
          receive_file_refused path size s1 (ap (λ x. File.exists P.files path x) d.disk ∙ there),
        )
        (refl, d)

  -- A download of a name under which the user has no file is answered with code 1, and then has
  -- no defined behaviour, because it goes on with a file size that was never set. The name leaves
  -- room for its terminator, the answer can be sent, the test of the disk does not throw, and
  -- OpenSSL is assumed to be lawful.
  pub download_file-missing :
      (name payload reply : Buffer)
      → length (until_nul name) < name_array
      → DownloadM1.serialize (DownloadM1.make name) ≡ ok payload
      → File.exists P.files (data_path s.username (until_nul name)) s.disk ≡ ok false
      → DownloadAck.serialize P.host (DownloadAck.make_failed 1) ≡ ok reply
      → Ready s reply
      → ((download_file P payload s).0 ≡ faulted) × Delivered s reply (download_file P payload s).1
  unfolding download_file send_contents send_file DownloadM1.make File.get_file_size File.make ◌>>=◌
  download_file-missing name payload reply short sent missing answered ready =
      let m = DownloadM1.make name in
      let opened : DownloadM1.deserialize payload ≡ ok m =
        >>=-ok (DownloadM1.serialize m) DownloadM1.deserialize sent
          (DownloadM1.deserialize-serialize m (record { name_length = length-strncpy name 256 })) in
      rw
        (
          opened,
          c_string-strncpy name 256 short,
          File_laws.read_missing P.files (data_path s.username (until_nul name)) s.disk missing,
          answered,
          send_message-next s reply C ready,
        )
        (refl, (send_message-Delivered C s reply ready).1)
