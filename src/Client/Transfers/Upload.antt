-- ===== src/Client/Transfers/Upload.antt =====
-- The messages of `Client::upload_file` in client/Client.cpp, and the file behind them.
use foc_project.Prelude.{
  ◌%◌, ◌<◌, ◌^◌, ◌≡◌, refl, false, none, some, [], ◌∷◌, ◌==◌, leb, arith, length, if◌then◌else◌,
}
use foc_project.Memory.{Buffer, ok, read_byte}
use foc_project.Packets.Codes.{upload_req, upload_chunk, max_file_size}
use foc_project.Packets.Upload.M1 as UploadM1
use foc_project.Packets.Upload.M2 as UploadM2
use foc_project.Packets.Upload.Ack as UploadAck
use foc_project.Files.File
use foc_project.Files.File.{File}
use foc_project.Platform.{Platform}
use foc_project.Session.{
  Session, one, nil, next, returned, return_code, attempt, Exec, ◌>>=◌, send_message,
}
use foc_project.Chunks.Send.{send_file}
use foc_project.Chunks.Send.Laws.{Packs}
use foc_project.Client.Messages.{receive_message}
use foc_project.Client.Transfers.{pack_chunk, send_contents, request_upload}

-- A file that was opened for reading, as `File.read` leaves it.
abbrev pub opened_file : Buffer → Buffer → File
opened_file name bytes = record {
  file_name = name;
  file_size = some (length bytes);
  input = some bytes;
  output = none;
}

-- Both answers of an upload that succeeds.
abbrev pub upload_reply : Buffer
upload_reply = upload_req ∷ 1 ∷ []

module _ (P : Platform) where
  pub pack_chunk-Packs : Packs (pack_chunk P) upload_chunk
  unfolding pack_chunk UploadM2.make
  pack_chunk-Packs chunk small = UploadM2.serialize_lem (UploadM2.make chunk) (omega arith)

  -- What follows the first answer.
  abbrev pub begin : File → Buffer → Exec P (Unit {0})
  begin file payload = attempt P nil (UploadAck.deserialize payload) >>= λ ack.
      if ack.ack_code == 0 then return_code P nil else send_contents P file

  pub request_upload-eq :
      (name bytes request : Buffer) (c : Session P)
      → 0 < length bytes
      → length bytes < 2 ^ 32
      → UploadM1.serialize P.host (UploadM1.make name (length bytes)) ≡ ok request
      → request_upload P (opened_file name bytes) c
        ≡ (send_message P request >>= λ _. receive_message P 2 >>= begin (opened_file name bytes)) c
  unfolding request_upload File.get_file_size ◌>>=◌
  request_upload-eq name bytes request c some' small made =
      let whole : length bytes % 2 ^ 32 ≡ length bytes = omega (arith, small) in
      let nonempty : (length bytes == 0) ≡ false = ground (arith, some') in
      let fits : leb max_file_size (length bytes) ≡ false = ground (arith, small) in
      rw (nonempty, fits, whole, made) refl

  pub begin_lem : (file : File) (s : Session P) → begin file upload_reply s ≡ send_contents P file s
  unfolding UploadAck.deserialize read_byte ◌>>=◌
  begin_lem file s = refl

  -- What follows the last chunk.
  pub send_contents_lem :
      (file : File) (s t u : Session P)
      → send_file P (pack_chunk P) file s ≡ (next tt, t)
      → receive_message P 2 t ≡ (next upload_reply, u)
      → send_contents P file s ≡ (returned one, u)
  unfolding send_contents UploadAck.deserialize read_byte ◌>>=◌
  send_contents_lem file s t u sent came = rw (sent, came) refl
