-- ===== src/Server/Transfers/Download.antt =====
-- The messages of `Worker::download_file` in server/worker.cpp, and the file behind them.
use foc_project.Prelude.{
  ℕ, ◌%◌, ◌<◌, ◌^◌, ◌≡◌, refl, true, false, none, some, ◌==◌, List, ◌∷◌, ◌++◌, arith, length,
}
use foc_project.Memory.{Buffer, ok, until_nul}
use foc_project.Memory.Laws.{>>=-ok, length-strncpy, c_string-strncpy}
use foc_project.Security.Evp.{IsCcm}
use foc_project.Packets.Codes.{max_file_chunk, download_chunk, name_array}
use foc_project.Packets.Download.M1 as DownloadM1
use foc_project.Packets.Download.Ack as DownloadAck
use foc_project.Packets.Download.M2 as DownloadM2
use foc_project.Files.Paths.{data_path, filename}
use foc_project.Files.FileSystem.{IsLawful}
use foc_project.Files.File
use foc_project.Files.File.Laws as File_laws
use foc_project.Files.File.{File}
use foc_project.Platform.{Platform}
use foc_project.Session.{Session, one, returned, ◌>>=◌, send_message}
use foc_project.Session.Delivery.{ReadyAll, Sends, step, send_message-next, send_message-Delivered}
use foc_project.Chunks.Sizes.{concat, AreFull}
use foc_project.Chunks.Send.Laws.{payloads, Packs, send_file-Sends}
use foc_project.Server.Transfers.{send_contents, download_file}

abbrev pub answer_code : ℕ → DownloadAck.DownloadAck
answer_code size = DownloadAck.make 0 (size % 2 ^ 32)

Packs-m2 : Packs (λ chunk. DownloadM2.serialize (DownloadM2.make chunk)) download_chunk
unfolding DownloadM2.make
Packs-m2 chunk small = DownloadM2.serialize_lem (DownloadM2.make chunk) (omega arith)

module _ {P : Platform} (C : IsCcm P.evp) where
  -- A download of a file of the user that has an accepted name and is not empty returns 1 and
  -- sends, under consecutive counters, the acknowledgement with code 0 and the size modulo 2^32
  -- and then chunks whose bytes in order are the whole file. All messages can be sent, the file
  -- has fewer than 2^31 whole chunks, and the laws of the disk and of OpenSSL are assumed.
  pub download_file-Sends :
      IsLawful P.files
      → (name payload reply : Buffer) (chunks : List Buffer) (last : Buffer) (s : Session P)
      → length (until_nul name) < name_array
      → DownloadM1.serialize (DownloadM1.make name) ≡ ok payload
      → let path = data_path s.username (until_nul name) in
        let bytes = concat chunks ++ last in
        File.exists P.files path s.disk ≡ ok true
        → File.is_accepted_name (filename path) ≡ true
        → P.files.open_input path s.disk ≡ some bytes
        → 0 < length bytes
        → AreFull chunks
        → length last < max_file_chunk
        → length chunks < 2 ^ 31
        → DownloadAck.serialize P.host (answer_code (length bytes)) ≡ ok reply
        → ReadyAll s (reply ∷ payloads download_chunk chunks last)
        → ((download_file P payload s).0 ≡ returned one)
          × Sends s (reply ∷ payloads download_chunk chunks last) (download_file P payload s).1
  unfolding download_file send_contents DownloadM1.make ◌>>=◌
  download_file-Sends law name payload reply chunks last s short sent there accepted input some'
        full small few answered (r, rs) =
      let m = DownloadM1.make name in
      let path : Buffer = data_path s.username (until_nul name) in
      let bytes : Buffer = concat chunks ++ last in
      let size : P.files.file_size path s.disk ≡ some (length bytes) =
        law.file_size-open_input path s.disk input in
      let file : File = record {
        file_name = filename path;
        file_size = some (length bytes);
        input = some bytes;
        output = none;
      } in
      let opened : DownloadM1.deserialize payload ≡ ok m =
        >>=-ok (DownloadM1.serialize m) DownloadM1.deserialize sent
          (DownloadM1.deserialize-serialize m (record { name_length = length-strncpy name 256 })) in
      let read : File.read P.files path File.make s.disk ≡ (ok tt, file) =
        File_laws.read_lem P.files path s.disk there size accepted input in
      let nonempty : (length bytes == 0) ≡ false = ground (arith, some') in
      let (e, t) =
        send_file-Sends C (λ chunk. DownloadM2.serialize (DownloadM2.make chunk)) download_chunk
          Packs-m2 file chunks last (send_message P reply s).1 full small few refl refl rs in
      rw
        (
          opened,
          c_string-strncpy name 256 short,
          read,
          nonempty,
          answered,
          send_message-next s reply C r,
          e,
        )
        (refl, step (send_message-Delivered C s reply r).1 t)
