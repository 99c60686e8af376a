-- ===== src/Tests/Upload.antt =====
-- A client and a worker that go through an upload.
use foc_project.Prelude.{◌≡◌, refl, some, List, [], ◌∷◌, ◌++◌, take, drop, replicate, arith}
use foc_project.Memory as M
use foc_project.Words as W
use foc_project.Packets.Wrapper as Wrapper
use foc_project.Security.Evp as Evp
use foc_project.Security.Ccm as Ccm
use foc_project.Security.Counter as Counter
use foc_project.Packets.Upload.M1 as UploadM1
use foc_project.Packets.Upload.M2 as UploadM2
use foc_project.Packets.Upload.Ack as UploadAck
use foc_project.Files.Names as Names
use foc_project.Files.Paths as Paths
use foc_project.Files.File as File
use foc_project.Session as S
use foc_project.Server.Transfers as T
use foc_project.Server.Loop as L
use foc_project.Chunks.Send as Send
use foc_project.Memory.{Buffer, until_nul}
use foc_project.Packets.Codes.{upload_req, upload_chunk}
use foc_project.Files.Paths.{data_path}
use foc_project.Session.{Session, next, returned, one}
use foc_project.Chunks.Send.Laws.{payload_of}
use foc_project.Server.Loop.{serve_request}
use foc_project.Client.Transfers as ClientTransfers
use foc_project.Client.Transfers.{request_upload}
use foc_project.Client.Transfers.Upload.{opened_file, upload_reply}
use foc_project.Exchange.{Paired}
use foc_project.Exchange.Upload.{upload_payload, Grows, Uploads}
use foc_project.Exchange.Upload.Run.{upload_exchange}
use foc_project.Tests.Toy.{toy_platform, toy-IsCcm, toy-IsLawful, toy_files, Disk, blank, put}
use foc_project.Tests.Ends.{a_name, a_path, chunk, last_chunk, iv, end, short_a}
use foc_project.Tests.Ready.{toy_Ready, toy_packet}

-- The server's disk: with the file empty, half and whole.
abbrev opened : Disk
opened = put a_path (some []) blank

abbrev half : Disk
half = put a_path (some chunk) opened

abbrev whole : Disk
whole = put a_path (some (chunk ++ last_chunk)) half

abbrev ups : List Buffer
ups =
    toy_packet 1 (payload_of upload_chunk chunk)
    ∷ toy_packet 2 (payload_of upload_chunk last_chunk)
    ∷ []

abbrev uploading : Session toy_platform
uploading = end (some (toy_packet 0 upload_reply) ∷ some (toy_packet 1 upload_reply) ∷ []) blank

abbrev uploader : Session toy_platform
uploader =
    end
      (some (toy_packet 0 (upload_payload a_name 17))
        ∷ some (toy_packet 1 (payload_of upload_chunk chunk))
        ∷ some (toy_packet 2 (payload_of upload_chunk last_chunk))
        ∷ [])
      blank

ends-Paired : Paired uploading uploader
ends-Paired = record {
  user = refl;
  up = record { key = refl; due = refl };
  down = record { key = refl; due = refl };
}

a-Grows :
    Grows toy_files
      (data_path uploader.username (until_nul a_name))
      (chunk ∷ last_chunk ∷ [])
      blank
      opened
      whole
unfolding File.exists Paths.data_path Paths.data_folder M.until_nul Paths.filename
    Paths.last_component File.is_accepted_name Names.is_valid_file_name Names.all_name_chars
    Names.is_name_char Names.is_word
a-Grows = record {
  missing = refl;
  accepted_name = refl;
  created = refl;
  written = (half, refl, (whole, refl, refl));
}

uploads : Uploads uploading uploader a_name (chunk ∷ []) last_chunk opened whole
unfolding M.zeros M.read M.write M.read_byte M.until_nul M.strncpy M.c_string M.allocate
    Wrapper.make Wrapper.create_aad Wrapper.serialize Wrapper.deserialize Wrapper.get_size
    Evp.encrypt_start Evp.encrypt_ready Evp.decrypt_start Evp.decrypt_ready Evp.seal Evp.unseal
    Ccm.encrypt_aes_ccm Ccm.decrypt_aes_ccm S.pure S.return_code S.attempt S.get_state S.set_disk
    S.◌>>=◌ S.send_data S.receive_data S.random_value S.wrap S.transmit S.send_message
    S.check_counter S.advance_received L.handle L.settle L.serve_packet L.serve_request W.store32
    W.load32 W.htonl W.sub64 W.widen W.rounds Counter.increment_counter Paths.data_folder
    Paths.data_path Paths.filename Paths.last_component Names.is_valid_file_name
    Names.all_name_chars Names.is_name_char Names.is_word File.exists File.is_accepted_name
    File.create File.make File.read_chunk File.write_chunk File.get_file_size T.upload_file
    T.create_file T.receive_file T.receive_chunks T.receive_chunk T.receive_last_chunk
    Send.send_file Send.send_chunks Send.send_chunk Send.send_last_chunk ClientTransfers.pack_chunk
    UploadM1.deserialize UploadM2.make UploadM2.serialize UploadM2.deserialize UploadM2.get_size
    UploadAck.make UploadAck.serialize take drop replicate
uploads = record {
  up = toy_packet 0 (upload_payload a_name 17);
  down = toy_packet 0 upload_reply;
  ups = ups;
  last_down = toy_packet 1 upload_reply;
  later_up = [];
  later_down = [];
  arrives = refl;
  returns = refl;
  asks =
      toy_Ready uploading (upload_payload a_name 17) iv (some iv ∷ some iv ∷ [])
        (some 2_000_000 ∷ some 2_000_000 ∷ []) refl refl (omega arith) refl refl (omega arith);
  asked = refl;
  accepts =
      toy_Ready _ upload_reply iv (some iv ∷ some iv ∷ []) (some 2_000_000 ∷ some 2_000_000 ∷ [])
        refl refl (omega arith) refl refl (omega arith);
  accepted = refl;
  sends = (
    toy_Ready _ (payload_of upload_chunk chunk) iv (some iv ∷ []) (some 2_000_000 ∷ []) refl refl
        (omega arith) refl refl (omega arith),
    (
      toy_Ready _ (payload_of upload_chunk last_chunk) iv [] [] refl refl (omega arith) refl refl
          (omega arith),
      tt,
    ),
  );
  sent = refl;
  answers =
      toy_Ready _ upload_reply iv (some iv ∷ []) (some 2_000_000 ∷ []) refl refl (omega arith) refl
        refl (omega arith);
  answered = refl;
}

upload_exchange_example :
    let t = serve_request toy_platform uploader in
    let u = request_upload toy_platform (opened_file a_name (chunk ++ last_chunk)) uploading in
    (t.0 ≡ next upload_req)
    × (toy_files.open_input (data_path uploader.username (until_nul a_name)) t.1.disk
        ≡ some (chunk ++ last_chunk))
    × (u.0 ≡ returned one)
    × (u.1.disk ≡ blank)
    × Paired u.1 t.1
upload_exchange_example =
    upload_exchange toy-IsCcm toy-IsLawful uploading uploader a_name (chunk ∷ []) last_chunk opened
      whole ends-Paired short_a (omega arith) (omega arith) (refl, tt) (omega arith) a-Grows uploads
