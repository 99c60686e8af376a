-- ===== src/Tests/Download.antt =====
-- A client and a worker that go through a download.
use foc_project.Prelude.{◌≡◌, refl, some, List, [], ◌∷◌, ◌++◌, take, drop, replicate, arith}
use foc_project.Memory as M
use foc_project.Words as W
use foc_project.Packets.Wrapper as Wrapper
use foc_project.Security.Evp as Evp
use foc_project.Security.Ccm as Ccm
use foc_project.Security.Counter as Counter
use foc_project.Packets.Download.M1 as DownloadM1
use foc_project.Packets.Download.M2 as DownloadM2
use foc_project.Packets.Download.Ack as DownloadAck
use foc_project.Files.Names as Names
use foc_project.Files.Paths as Paths
use foc_project.Files.File as File
use foc_project.Session as S
use foc_project.Server.Transfers as T
use foc_project.Server.Loop as L
use foc_project.Chunks.Send as Send
use foc_project.Memory.{Buffer, until_nul}
use foc_project.Packets.Codes.{download_req, download_chunk}
use foc_project.Files.Paths.{data_path}
use foc_project.Session.{Session, next, returned, one, send_message}
use foc_project.Session.Delivery.{ReadyAll}
use foc_project.Chunks.Send.Laws.{payload_of}
use foc_project.Chunks.Receive.{Written}
use foc_project.Server.Loop.{serve_request}
use foc_project.Client.Transfers.{request_download, downloads_path}
use foc_project.Client.Transfers.Download.{target, Takes}
use foc_project.Exchange.{Paired, taken}
use foc_project.Exchange.Streams.{Streams}
use foc_project.Exchange.Download.{download_payload, download_reply, Holds}
use foc_project.Exchange.Download.Run.{download_exchange}
use foc_project.Tests.Toy.{toy_platform, toy-IsCcm, toy-IsLawful, toy_files, Disk, blank, put}
use foc_project.Tests.Ends.{a_name, a_path, chunk, last_chunk, iv, end, short_a}
use foc_project.Tests.Ready.{toy_Ready, toy_packet}

abbrev downs : List Buffer
downs =
    toy_packet 0 (download_reply 17)
    ∷ toy_packet 1 (payload_of download_chunk chunk)
    ∷ toy_packet 2 (payload_of download_chunk last_chunk)
    ∷ []

-- The server's disk, with the file.
abbrev disk : Disk
disk = put a_path (some (chunk ++ last_chunk)) blank

-- The client's disk, with the folder for downloads; then with the file, empty, half and whole.
abbrev mine : Disk
mine = put downloads_path (some []) blank

abbrev opened : Disk
opened = put (target a_name) (some []) mine

abbrev half : Disk
half = put (target a_name) (some chunk) opened

abbrev whole : Disk
whole = put (target a_name) (some (chunk ++ last_chunk)) half

abbrev downloading : Session toy_platform
downloading =
    end
      (some (toy_packet 0 (download_reply 17))
        ∷ some (toy_packet 1 (payload_of download_chunk chunk))
        ∷ some (toy_packet 2 (payload_of download_chunk last_chunk))
        ∷ [])
      mine

abbrev downloader : Session toy_platform
downloader = end (some (toy_packet 0 (download_payload a_name)) ∷ []) disk

ends-Paired : Paired downloading downloader
ends-Paired = record {
  user = refl;
  up = record { key = refl; due = refl };
  down = record { key = refl; due = refl };
}

a-Holds :
    Holds toy_files (data_path downloader.username (until_nul a_name)) (chunk ++ last_chunk) disk
unfolding File.exists Paths.data_path Paths.data_folder M.until_nul Paths.filename
    Paths.last_component File.is_accepted_name Names.is_valid_file_name Names.all_name_chars
    Names.is_name_char Names.is_word
a-Holds = record {
  there = refl;
  accepted_name = refl;
  contents = refl;
  not_empty = omega arith;
  small = omega arith;
}

a-Takes : Takes toy_files (target a_name) mine opened
unfolding File.exists Paths.filename Paths.last_component downloads_path File.is_accepted_name
    Names.is_valid_file_name Names.all_name_chars Names.is_name_char Names.is_word
a-Takes = record {
  folder = refl;
  directory = refl;
  missing = refl;
  accepted_name = refl;
  opened = refl;
}

a-Written : Written toy_files (target a_name) opened (chunk ∷ last_chunk ∷ []) whole
unfolding downloads_path
a-Written = (half, refl, (whole, refl, refl))

answers : ReadyAll (taken downloader []) (
    download_reply 17 ∷ payload_of download_chunk chunk ∷ payload_of download_chunk last_chunk ∷ [])
unfolding M.zeros M.read M.write M.read_byte M.allocate Wrapper.make Wrapper.create_aad
    Wrapper.serialize Wrapper.get_size Evp.encrypt_start Evp.encrypt_ready Evp.seal
    Ccm.encrypt_aes_ccm S.pure S.return_code S.attempt S.get_state S.◌>>=◌ S.send_data
    S.random_value S.wrap S.transmit S.send_message W.store32 W.htonl W.sub64 W.widen
    Counter.increment_counter take drop replicate
answers = (
  toy_Ready _ (download_reply 17) iv (some iv ∷ some iv ∷ []) (some 2_000_000 ∷ some 2_000_000 ∷ [])
      refl refl (omega arith) refl refl (omega arith),
  (
    toy_Ready _ (payload_of download_chunk chunk) iv (some iv ∷ []) (some 2_000_000 ∷ []) refl refl
        (omega arith) refl refl (omega arith),
    (
      toy_Ready _ (payload_of download_chunk last_chunk) iv [] [] refl refl (omega arith) refl refl
          (omega arith),
      tt,
    ),
  ),
)

downloads : Streams downloading downloader (download_payload a_name) (
    download_reply 17 ∷ payload_of download_chunk chunk ∷ payload_of download_chunk last_chunk ∷ [])
unfolding M.zeros M.read M.write M.read_byte M.until_nul M.strncpy M.c_string M.allocate
    Wrapper.make Wrapper.create_aad Wrapper.serialize Wrapper.deserialize Wrapper.get_size
    Evp.encrypt_start Evp.encrypt_ready Evp.decrypt_start Evp.decrypt_ready Evp.seal Evp.unseal
    Ccm.encrypt_aes_ccm Ccm.decrypt_aes_ccm S.pure S.return_code S.attempt S.get_state S.set_disk
    S.◌>>=◌ S.send_data S.receive_data S.random_value S.wrap S.transmit S.send_message
    S.check_counter S.advance_received L.handle L.settle L.serve_packet L.serve_request W.store32
    W.load32 W.htonl W.sub64 W.widen W.rounds Counter.increment_counter Paths.data_folder
    Paths.data_path Paths.filename Paths.last_component Names.is_valid_file_name
    Names.all_name_chars Names.is_name_char Names.is_word File.exists File.is_accepted_name
    File.read File.make File.read_chunk File.get_file_size T.download_file T.download_ack
    T.send_contents Send.send_file Send.send_chunks Send.send_chunk Send.send_last_chunk
    DownloadM1.deserialize DownloadM2.make DownloadM2.serialize DownloadM2.get_size DownloadAck.make
    DownloadAck.serialize take drop replicate
downloads = record {
  up = toy_packet 0 (download_payload a_name);
  downs = downs;
  later_up = [];
  later_down = [];
  asks =
      toy_Ready downloading (download_payload a_name) iv (some iv ∷ some iv ∷ [])
        (some 2_000_000 ∷ some 2_000_000 ∷ []) refl refl (omega arith) refl refl (omega arith);
  asked = refl;
  arrives = refl;
  answers = answers;
  answered = refl;
  returns = refl;
}

download_exchange_example :
    let t = serve_request toy_platform downloader in
    let u = request_download toy_platform a_name downloading in
    (t.0 ≡ next download_req)
    × (t.1.disk ≡ disk)
    × (u.0 ≡ returned one)
    × (toy_files.open_input (target a_name) u.1.disk ≡ some (chunk ++ last_chunk))
    × Paired u.1 t.1
download_exchange_example =
    download_exchange toy-IsCcm toy-IsLawful downloading downloader a_name (chunk ∷ []) last_chunk
      ends-Paired short_a a-Holds (refl, tt) (omega arith) downloads opened whole a-Takes a-Written
