-- ===== src/Exchange/Rename.antt =====
-- A rename, from `Client::rename_file` of client/Client.cpp to `Worker::rename_file` of
-- server/worker.cpp and back.
use foc_project.Prelude.{ℕ, ◌<◌, ◌≤◌, ◌≡◌, refl, ◌∙◌, [], ◌∷◌, ◌++◌, arith, length, length-append}
use foc_project.Memory.{Buffer, ok, until_nul, strncpy, zeros, read_byte}
use foc_project.Memory.Laws.{length-strncpy, length-zeros}
use foc_project.Security.Evp.{IsCcm}
use foc_project.Packets.Codes.{rename_req, initial_request_length, name_array}
use foc_project.Packets.Rename.M1 as RenameM1
use foc_project.Packets.Rename.Ack as RenameAck
use foc_project.Files.Paths.{data_path}
use foc_project.Platform.{Platform}
use foc_project.Session.{Session, nil, next, returned, attempt, ◌>>=◌}
use foc_project.Server.Disk.{rename_on_disk}
use foc_project.Server.Requests.Laws.{rename_file-Delivered}
use foc_project.Server.Loop.{handle, serve_request}
use foc_project.Client.Requests.{report, request_rename}
use foc_project.Client.Requests.Laws.{told_code, report_lem}
use foc_project.Exchange.{Paired, Together, taken, ask, served, asks_and_reads, told-Paired}

-- The request and the answer, as bytes.
abbrev pub rename_payload : Buffer → Buffer → Buffer
rename_payload old new =
    ((rename_req ∷ strncpy old name_array) ++ strncpy new name_array) ++ zeros 7

abbrev pub rename_reply : ℕ → Buffer
rename_reply code = rename_req ∷ code ∷ []

rename_payload_lem :
    (old new : Buffer) → RenameM1.serialize (RenameM1.make old new) ≡ ok (rename_payload old new)
unfolding RenameM1.make
rename_payload_lem old new =
    RenameM1.serialize_lem (RenameM1.make old new)
      (record { name_length = length-strncpy old 256; new_name_length = length-strncpy new 256 })

length-rename_payload :
    (old new : Buffer) → length (rename_payload old new) ≡ initial_request_length
length-rename_payload old new = omega (
  arith,
  length-strncpy old 256,
  length-strncpy new 256,
  length-zeros 7,
  length-append ((rename_req ∷ strncpy old 256) ++ strncpy new 256) (zeros 7),
  length-append (rename_req ∷ strncpy old 256) (strncpy new 256),
)

rename_reply_lem : (code : ℕ) → RenameAck.serialize (RenameAck.make code) ≡ ok (rename_reply code)
unfolding RenameAck.make
rename_reply_lem code = RenameAck.serialize_lem (RenameAck.make code)

rename_on_disk-le :
    (P : Platform) (path new_path : Buffer) (disk : P.files.State) {r : ℕ × P.files.State}
    → rename_on_disk P path new_path disk ≡ ok r
    → r.0 ≤ 2
unfolding rename_on_disk
rename_on_disk-le P path new_path disk {r} done = ground arith

module _ {P : Platform} where
  request_rename-eq-ask :
      (old new : Buffer) (c : Session P)
      → request_rename P old new c
        ≡ ask
            (rename_payload old new)
            2
            (λ payload.
              attempt P nil (RenameAck.deserialize payload) >>= λ ack. report P ack.ack_code)
            c
  unfolding request_rename ◌>>=◌
  request_rename-eq-ask old new c = rw (rename_payload_lem old new) refl

  read_reply :
      (code : ℕ) (u : Session P)
      → code ≤ 2
      → (attempt P nil (RenameAck.deserialize (rename_reply code)) >>= λ ack. report P ack.ack_code)
          u
        ≡ (returned (told_code code), u)
  unfolding RenameAck.deserialize read_byte ◌>>=◌
  read_reply code u h = report_lem code u h

  -- A client and a worker with the same user and key and matching counters carry out a rename
  -- together: the worker serves the request that the client sent as a rename, the disk changes as
  -- `rename_on_disk` says for the paths in the folder of the user, the client returns 1 if the
  -- code of that was 0 and else 0, and the two still match. The names leave room for their
  -- terminators, the tests of the worker's disk do not throw, both messages can be sent and reach
  -- the other side as they were sent, and OpenSSL is assumed to be lawful.
  pub rename_exchange :
      IsCcm P.evp
      → (c w : Session P) (old new : Buffer) {r : ℕ × P.files.State} → Paired c w
      → length (until_nul old) < name_array
      → length (until_nul new) < name_array
      → rename_on_disk P
          (data_path w.username (until_nul old))
          (data_path w.username (until_nul new))
          w.disk
        ≡ ok r
      → Together c w (rename_payload old new) (rename_reply r.0) r.1
      → let t = serve_request P w in
        let u = request_rename P old new c in
        (t.0 ≡ next rename_req)
        × (t.1.disk ≡ r.1)
        × (u.0 ≡ returned (told_code r.0))
        × Paired u.1 t.1
  unfolding handle read_byte
  rename_exchange C c w old new {r} paired short short' changed g =
      let request : Buffer = rename_payload old new in
      let done =
        rename_file-Delivered C (taken w g.later_up) old new request (rename_reply r.0) short short'
          (rename_payload_lem old new) changed (rename_reply_lem r.0) g.answers in
      let size = length-rename_payload old new in
      let answered = served C paired g size refl done in
      let asked =
        request_rename-eq-ask old new c
        ∙ (asks_and_reads C paired g size refl done _
            ∙ read_reply r.0 _ (rename_on_disk-le P _ _ w.disk changed)) in
      rw (answered, asked) (refl, done.1.disk, refl, told-Paired C paired g size refl done)
