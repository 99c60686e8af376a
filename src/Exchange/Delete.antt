-- ===== src/Exchange/Delete.antt =====
-- A deletion, from `Client::delete_file` of client/Client.cpp to `Worker::delete_file` of
-- server/worker.cpp and back.
use foc_project.Prelude.{ℕ, ◌<◌, ◌≤◌, ◌≡◌, refl, ◌∙◌, [], ◌∷◌, ◌++◌, arith, length, length-append}
use foc_project.Memory.{Buffer, ok, until_nul, strncpy, zeros, read_byte}
use foc_project.Memory.Laws.{length-strncpy, length-zeros}
use foc_project.Security.Evp.{IsCcm}
use foc_project.Packets.Codes.{delete_req, initial_request_length, name_array}
use foc_project.Packets.Delete.M1 as DeleteM1
use foc_project.Packets.Delete.Ack as DeleteAck
use foc_project.Files.Paths.{data_path}
use foc_project.Platform.{Platform}
use foc_project.Session.{Session, nil, next, returned, attempt, ◌>>=◌}
use foc_project.Server.Disk.{delete_on_disk}
use foc_project.Server.Requests.Laws.{delete_file-Delivered}
use foc_project.Server.Loop.{handle, serve_request}
use foc_project.Client.Requests.{report, request_delete}
use foc_project.Client.Requests.Laws.{told_code, report_lem}
use foc_project.Exchange.{Paired, Together, taken, ask, served, asks_and_reads, told-Paired}

-- The request and the answer, as bytes.
abbrev pub delete_payload : Buffer → Buffer
delete_payload name = (delete_req ∷ strncpy name name_array) ++ zeros 263

abbrev pub delete_reply : ℕ → Buffer
delete_reply code = delete_req ∷ code ∷ []

delete_payload_lem :
    (name : Buffer) → DeleteM1.serialize (DeleteM1.make name) ≡ ok (delete_payload name)
unfolding DeleteM1.make
delete_payload_lem name =
    DeleteM1.serialize_lem (DeleteM1.make name) (record { name_length = length-strncpy name 256 })

length-delete_payload : (name : Buffer) → length (delete_payload name) ≡ initial_request_length
length-delete_payload name = omega (
  arith,
  length-strncpy name 256,
  length-zeros 263,
  length-append (delete_req ∷ strncpy name 256) (zeros 263),
)

delete_reply_lem : (code : ℕ) → DeleteAck.serialize (DeleteAck.make code) ≡ ok (delete_reply code)
unfolding DeleteAck.make
delete_reply_lem code = DeleteAck.serialize_lem (DeleteAck.make code)

delete_on_disk-le :
    (P : Platform) (path : Buffer) (disk : P.files.State) {r : ℕ × P.files.State}
    → delete_on_disk P path disk ≡ ok r
    → r.0 ≤ 2
unfolding delete_on_disk
delete_on_disk-le P path disk {r} done = ground arith

module _ {P : Platform} where
  request_delete-eq-ask :
      (name : Buffer) (c : Session P)
      → request_delete P name c
        ≡ ask
            (delete_payload name)
            2
            (λ payload.
              attempt P nil (DeleteAck.deserialize payload) >>= λ ack. report P ack.ack_code)
            c
  unfolding request_delete ◌>>=◌
  request_delete-eq-ask name c = rw (delete_payload_lem name) refl

  read_reply :
      (code : ℕ) (u : Session P)
      → code ≤ 2
      → (attempt P nil (DeleteAck.deserialize (delete_reply code)) >>= λ ack. report P ack.ack_code)
          u
        ≡ (returned (told_code code), u)
  unfolding DeleteAck.deserialize read_byte ◌>>=◌
  read_reply code u h = report_lem code u h

  -- A client and a worker with the same user and key and matching counters carry out a delete
  -- together: the worker serves the request that the client sent as a delete, the disk changes as
  -- `delete_on_disk` says for the path in the folder of the user, the client returns 1 if the
  -- code of that was 0 and else 0, and the two still match. The name leaves room for its
  -- terminator, the test of the worker's disk does not throw, both messages can be sent and reach
  -- the other side as they were sent, and OpenSSL is assumed to be lawful.
  pub delete_exchange :
      IsCcm P.evp
      → (c w : Session P) (name : Buffer) {r : ℕ × P.files.State} → Paired c w
      → length (until_nul name) < name_array
      → delete_on_disk P (data_path w.username (until_nul name)) w.disk ≡ ok r
      → Together c w (delete_payload name) (delete_reply r.0) r.1
      → let t = serve_request P w in
        let u = request_delete P name c in
        (t.0 ≡ next delete_req)
        × (t.1.disk ≡ r.1)
        × (u.0 ≡ returned (told_code r.0))
        × Paired u.1 t.1
  unfolding handle read_byte
  delete_exchange C c w name {r} paired short changed g =
      let done =
        delete_file-Delivered C (taken w g.later_up) name (delete_payload name) (delete_reply r.0)
          short (delete_payload_lem name) changed (delete_reply_lem r.0) g.answers in
      let size = length-delete_payload name in
      let answered = served C paired g size refl done in
      let asked =
        request_delete-eq-ask name c
        ∙ (asks_and_reads C paired g size refl done _
            ∙ read_reply r.0 _ (delete_on_disk-le P _ w.disk changed)) in
      rw (answered, asked) (refl, done.1.disk, refl, told-Paired C paired g size refl done)
