-- ===== src/Exchange/Upload.antt =====
-- An upload, from `Client::upload_file` of client/Client.cpp to `Worker::upload_file` of
-- server/worker.cpp and back.
pub mod Run
use foc_project.Prelude.{
  ℕ, suc, ◌+◌, ◌^◌, ◌<◌, ◌≤◌, ◌≡◌, refl, sym, ap, subst, ◌∙◌, false, true, Option, some, List, [],
  ◌∷◌, ◌++◌, map, map-append, length-map, append_assoc, ◌==◌, arith, length, length-append,
  if◌then◌else◌,
}
use foc_project.Memory.{Buffer, ok, until_nul, strncpy, zeros, read_byte}
use foc_project.Memory.Laws.{length-strncpy, length-zeros}
use foc_project.Words.{be_bytes}
use foc_project.Security.Evp.{IsCcm}
use foc_project.Packets.Codes.{
  upload_req, upload_chunk, initial_request_length, name_array, max_file_chunk, counter_max_value,
}
use foc_project.Packets.Upload.M1 as UploadM1
use foc_project.Packets.Upload.Ack as UploadAck
use foc_project.Files.Paths.{data_path, filename}
use foc_project.Files.FileSystem.{FileSystem, IsLawful}
use foc_project.Files.File
use foc_project.Platform.{Platform}
use foc_project.Session.{Session, one, next, returned, ◌>>=◌, send_message}
use foc_project.Session.Arrival.{Arrives}
use foc_project.Session.Delivery.{
  Ready, ReadyAll, Delivered, Sends, send_message-Delivered, send_message-next,
}
use foc_project.Chunks.Sizes.{concat, remainder, AreFull, length-concat}
use foc_project.Chunks.Send.{send_file}
use foc_project.Chunks.Send.Laws.{payload_of, payloads, send_file-Sends}
use foc_project.Chunks.Receive.{Arriving, Written}
use foc_project.Server.Transfers.{upload_file}
use foc_project.Server.Transfers.Upload.{waiting, Stored, upload_file-Stored}
use foc_project.Server.Loop.{handle, serve_request}
use foc_project.Client.Messages.{receive_message}
use foc_project.Client.Transfers.{pack_chunk, send_contents, request_upload}
use foc_project.Client.Transfers.Upload.{
  opened_file, upload_reply, pack_chunk-Packs, begin, request_upload-eq, begin_lem,
  send_contents_lem,
}
use foc_project.Exchange.{
  Linked, Paired, taken, Delivered-Arrives, receive_message-Arrives, serve_request-Arrives,
}
use foc_project.Exchange.Streams.{
  packets, packets-sent, Sends-Kept, ReadyAll-room, Sends-Arriving, stored,
}

-- The request, as bytes.
abbrev pub upload_payload : Buffer → ℕ → Buffer
upload_payload name size = ((upload_req ∷ strncpy name name_array) ++ be_bytes size) ++ zeros 259

module _ (P : Platform) where
  upload_payload_lem :
      (name : Buffer) (size : ℕ)
      → size < 2 ^ 32
      → UploadM1.serialize P.host (UploadM1.make name size) ≡ ok (upload_payload name size)
  unfolding UploadM1.make
  upload_payload_lem name size small =
      UploadM1.serialize_lem P.host (UploadM1.make name size) (record {
        command_lt = omega arith;
        size_lt = small;
        name_length = length-strncpy name 256;
      })

length-upload_payload :
    (name : Buffer) (size : ℕ) → length (upload_payload name size) ≡ initial_request_length
length-upload_payload name size = omega (
  arith,
  length-strncpy name 256,
  length-zeros 259,
  length-append ((upload_req ∷ strncpy name 256) ++ be_bytes size) (zeros 259),
  length-append (upload_req ∷ strncpy name 256) (be_bytes size),
)

upload_reply_lem : UploadAck.serialize (UploadAck.make 1) ≡ ok upload_reply
unfolding UploadAck.make
upload_reply_lem = UploadAck.serialize_lem (UploadAck.make 1)

-- A disk takes a new file at `path`, and all of its chunks.
pub record Grows (F : FileSystem) (path : Buffer) (pieces : List Buffer)
    (disk opened filled : F.State) : Type 0 where
  pub missing : File.exists F path disk ≡ ok false
  pub accepted_name : File.is_accepted_name (filename path) ≡ true
  pub created : F.open_output path disk ≡ some opened
  pub written : Written F path opened pieces filled

abbrev pub request_of : Buffer → List Buffer → Buffer → Buffer
request_of name chunks last = upload_payload name (length (concat chunks ++ last))

module _ {P : Platform} where
  -- A client and a worker that go through an upload together: `up` and `ups` are the packets of the
  -- client, `down` and `last_down` those of the worker.
  pub record Uploads (c w : Session P) (name : Buffer) (chunks : List Buffer) (last : Buffer)
      (opened filled : P.files.State) : Type 0 where
    pub up : Buffer
    pub down : Buffer
    pub ups : List Buffer
    pub last_down : Buffer
    pub later_up : List (Option Buffer)
    pub later_down : List (Option Buffer)
    pub arrives : w.received ≡ some up ∷ (map (λ p. some p) ups ++ later_up)
    pub returns : c.received ≡ some down ∷ some last_down ∷ later_down
    pub asks : Ready c (request_of name chunks last)
    pub asked : (send_message P (request_of name chunks last) c).1.sent ≡ c.sent ++ (up ∷ [])
    pub accepts : Ready (taken w (map (λ p. some p) ups ++ later_up)) upload_reply
    pub accepted :
        (send_message P upload_reply (taken w (map (λ p. some p) ups ++ later_up))).1.sent
        ≡ w.sent ++ (down ∷ [])
    pub sends :
        ReadyAll
          (taken (send_message P (request_of name chunks last) c).1 (some last_down ∷ later_down))
          (payloads upload_chunk chunks last)
    pub sent :
        (send_file P (pack_chunk P) (opened_file name (concat chunks ++ last)) (
          taken
            (send_message P (request_of name chunks last) c).1
            (some last_down ∷ later_down))).1.sent
        ≡ (send_message P (request_of name chunks last) c).1.sent ++ ups
    pub answers :
        Ready
          (stored
            (waiting (taken w (map (λ p. some p) ups ++ later_up)) upload_reply opened)
            later_up
            (w.r_counter + 1 + length (chunks ++ remainder last))
            filled)
          upload_reply
    pub answered : (serve_request P w).1.sent ≡ (w.sent ++ (down ∷ [])) ++ (last_down ∷ [])
