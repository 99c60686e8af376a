-- ===== src/Exchange/Download.antt =====
-- A download, from `Client::download_file` of client/Client.cpp to `Worker::download_file` of
-- server/worker.cpp and back.
pub mod Run
use foc_project.Prelude.{
  ℕ, suc, ◌+◌, ◌%◌, ◌^◌, ◌<◌, ◌≤◌, ◌≡◌, refl, sym, ap, subst, ◌∙◌, true, Option, some, List, [],
  ◌∷◌, ◌++◌, map, map-append, length-map, ◌==◌, arith, length, length-append, if◌then◌else◌,
}
use foc_project.Memory.{Buffer, ok, until_nul, strncpy, zeros, read_byte}
use foc_project.Memory.Laws.{>>=-ok, length-strncpy, length-zeros}
use foc_project.Words.{be_bytes}
use foc_project.Security.Evp.{IsCcm}
use foc_project.Packets.Codes.{
  download_req, download_chunk, initial_request_length, name_array, max_file_chunk,
  counter_max_value,
}
use foc_project.Packets.Download.M1 as DownloadM1
use foc_project.Packets.Download.Ack as DownloadAck
use foc_project.Files.Paths.{data_path, filename}
use foc_project.Files.FileSystem.{FileSystem, IsLawful}
use foc_project.Files.File
use foc_project.Platform.{Platform}
use foc_project.Session.{
  Session, one, nil, next, returned, return_code, attempt, Exec, ◌>>=◌, send_message,
}
use foc_project.Session.Delivery.{Delivered, Sends, step, send_message-Delivered, send_message-next}
use foc_project.Chunks.Sizes.{concat, remainder, AreFull, length-concat}
use foc_project.Chunks.Send.Laws.{payload_of, payloads}
use foc_project.Chunks.Receive.{Written}
use foc_project.Server.Transfers.{download_file}
use foc_project.Server.Transfers.Download.{answer_code, download_file-Sends}
use foc_project.Server.Loop.{handle, serve_request}
use foc_project.Client.Messages.{receive_message}
use foc_project.Client.Transfers.{receive_file, request_download}
use foc_project.Client.Transfers.Download.{target, Takes, receive_file_lem}
use foc_project.Exchange.{
  Linked, Paired, taken, ask, Delivered-Arrives, receive_message-Arrives, serve_request-Arrives,
}
use foc_project.Exchange.Streams.{
  packets, packets-sent, Sends-Kept, ReadyAll-room, Sends-Arriving, stored, Streams,
}

-- The request and the first answer, as bytes.
abbrev pub download_payload : Buffer → Buffer
download_payload name = (download_req ∷ strncpy name name_array) ++ zeros 263

abbrev pub download_reply : ℕ → Buffer
download_reply size = download_req ∷ (be_bytes size ++ (0 ∷ []))

download_payload_lem :
    (name : Buffer) → DownloadM1.serialize (DownloadM1.make name) ≡ ok (download_payload name)
unfolding DownloadM1.make
download_payload_lem name =
    DownloadM1.serialize_lem (DownloadM1.make name)
      (record { name_length = length-strncpy name 256 })

length-download_payload : (name : Buffer) → length (download_payload name) ≡ initial_request_length
length-download_payload name = omega (
  arith,
  length-strncpy name 256,
  length-zeros 263,
  length-append (download_req ∷ strncpy name 256) (zeros 263),
)

module _ (P : Platform) where
  download_reply_lem :
      (size : ℕ)
      → size < 2 ^ 32
      → DownloadAck.serialize P.host (answer_code size) ≡ ok (download_reply size)
  unfolding DownloadAck.make
  download_reply_lem size small =
      let same : size % 2 ^ 32 ≡ size = omega (arith, small) in
      rw same (DownloadAck.serialize_lem P.host (DownloadAck.make 0 size) small)

  read_reply :
      (size : ℕ)
      → size < 2 ^ 32
      → DownloadAck.deserialize P.host (download_reply size) ≡ ok (DownloadAck.make 0 size)
  unfolding DownloadAck.make
  read_reply size small =
      >>=-ok (DownloadAck.serialize P.host (DownloadAck.make 0 size))
        (DownloadAck.deserialize P.host)
        (DownloadAck.serialize_lem P.host (DownloadAck.make 0 size) small)
        (DownloadAck.download_ack_round_trip P.host P.host (DownloadAck.make 0 size) small)

  -- What the client does with the first answer.
  abbrev keep_file : Buffer → Buffer → Exec P (Unit {0})
  keep_file name payload = attempt P nil (DownloadAck.deserialize P.host payload) >>= λ ack.
      if ack.ack_code == 0 then receive_file P ack.file_size name else return_code P nil

-- A disk has a file that can be downloaded.
pub record Holds (F : FileSystem) (path bytes : Buffer) (disk : F.State) : Type 0 where
  pub there : File.exists F path disk ≡ ok true
  pub accepted_name : File.is_accepted_name (filename path) ≡ true
  pub contents : F.open_input path disk ≡ some bytes
  pub not_empty : 0 < length bytes
  pub small : length bytes < 2 ^ 32

module _ {P : Platform} where
  request_download-eq-ask :
      (name : Buffer) (c : Session P)
      → request_download P name c ≡ ask (download_payload name) 6 (keep_file P name) c
  unfolding request_download ◌>>=◌
  request_download-eq-ask name c = rw (download_payload_lem name) refl

  -- What the answers of `a` do to `b`.
  keep_file_lem :
      IsLawful P.files
      → (name : Buffer) (chunks : List Buffer) (last : Buffer) {a b t : Session P}
      → let size = length (concat chunks ++ last) in
        let pieces = chunks ++ remainder last in
        (h : Sends a (download_reply size ∷ map (payload_of download_chunk) pieces) t)
        (rest : List (Option Buffer)) (disk disk' : P.files.State)
        → size < 2 ^ 32
        → a.s_counter + suc (length pieces) ≤ counter_max_value
        → Linked a b
        → b.received ≡ map (λ p. some p) (packets h) ++ rest
        → Takes P.files (target name) b.disk disk
        → Written P.files (target name) disk pieces disk'
        → AreFull chunks
        → length last < max_file_chunk
        → length chunks < 2 ^ 31
        → ((receive_message P 6 >>= keep_file P name) b
            ≡ (returned one, stored b rest (b.r_counter + suc (length pieces)) disk'))
          × (P.files.open_input (target name) disk' ≡ some (concat chunks ++ last))
  unfolding DownloadAck.make ◌>>=◌
  keep_file_lem law name chunks last {a} {b} (step d h) rest disk disk' little room l came takes
        written full small few =
      let size : ℕ = length (concat chunks ++ last) in
      let pieces : List Buffer = chunks ++ remainder last in
      let (x, later) =
        Delivered-Arrives (map (λ p. some p) (packets h) ++ rest) l d (omega (arith, room)) d.sent
          came in
      let link : Linked _ (record (taken b x.rest) { disk = disk }) = record {
        key = d.key ∙ l.key;
        due = d.counter ∙ ap (λ n. n + 1) l.due;
      } in
      let (e, o) = receive_file_lem law name chunks last (taken b x.rest) _ takes full small few (
        Sends-Arriving download_chunk (target name) pieces h rest
          (b.r_counter + suc (length pieces)) {disk = disk'} (omega (arith, room, d.counter)) link
          later written (omega arith)) in
      rw (receive_message-Arrives b (download_reply size) x, read_reply P size little, e) (refl, o)
