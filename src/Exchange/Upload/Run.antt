-- ===== src/Exchange/Upload/Run.antt =====
-- The run of a client and its worker through an upload.
use foc_project.Prelude.{
  ◌+◌, ◌^◌, ◌<◌, ◌≤◌, ◌≡◌, refl, sym, ap, subst, ◌∙◌, some, List, [], ◌∷◌, ◌++◌, map, map-append,
  length-map, arith, length, length-append,
}
use foc_project.Memory.{Buffer, until_nul, read_byte}
use foc_project.Security.Evp.{IsCcm}
use foc_project.Packets.Codes.{
  upload_req, upload_chunk, name_array, max_file_chunk, counter_max_value,
}
use foc_project.Files.Paths.{data_path}
use foc_project.Files.FileSystem.{IsLawful}
use foc_project.Platform.{Platform}
use foc_project.Session.{Session, one, next, returned, ◌>>=◌, send_message}
use foc_project.Session.Delivery.{Delivered, Sends, send_message-Delivered, send_message-next}
use foc_project.Chunks.Sizes.{concat, remainder, AreFull, length-concat}
use foc_project.Chunks.Send.{send_file}
use foc_project.Chunks.Send.Laws.{payload_of, payloads, send_file-Sends}
use foc_project.Chunks.Receive.{Arriving}
use foc_project.Server.Transfers.{upload_file}
use foc_project.Server.Transfers.Upload.{waiting, Stored, upload_file-Stored}
use foc_project.Server.Loop.{handle, serve_request}
use foc_project.Client.Messages.{receive_message}
use foc_project.Client.Transfers.{pack_chunk, request_upload}
use foc_project.Client.Transfers.Upload.{
  opened_file, upload_reply, pack_chunk-Packs, request_upload-eq, begin_lem, send_contents_lem,
}
use foc_project.Exchange.{
  Linked, Paired, taken, Delivered-Arrives, receive_message-Arrives, serve_request-Arrives,
}
use foc_project.Exchange.Streams.{packets-sent, Sends-Kept, ReadyAll-room, Sends-Arriving, stored}
use foc_project.Exchange.Upload.{
  upload_payload_lem, length-upload_payload, upload_reply_lem, Grows, request_of, Uploads,
}

module _ {P : Platform} where
  module _ (C : IsCcm P.evp) (law : IsLawful P.files) (c w : Session P) (name : Buffer)
      (chunks : List Buffer) (last : Buffer) (opened filled : P.files.State) (paired : Paired c w)
      (short : length (until_nul name) < name_array)
      (some_bytes : 0 < length (concat chunks ++ last))
      (few_bytes : length (concat chunks ++ last) < 2 ^ 32) (full : AreFull chunks)
      (small : length last < max_file_chunk)
      (grows : Grows P.files
        (data_path w.username (until_nul name))
        (chunks ++ remainder last)
        w.disk
        opened
        filled)
      (g : Uploads c w name chunks last opened filled) where
    abbrev asked_state : Session P
    asked_state = (send_message P (request_of name chunks last) c).1

    abbrev begun : Session P
    begun = taken w (map (λ p. some p) g.ups ++ g.later_up)

    abbrev accepted_state : Session P
    accepted_state = (send_message P upload_reply begun).1

    -- The client as it sends the first chunk, and after the last one.
    abbrev ready_state : Session P
    ready_state = taken asked_state (some g.last_down ∷ g.later_down)

    abbrev sent_state : Session P
    sent_state =
        (send_file P (pack_chunk P) (opened_file name (concat chunks ++ last)) ready_state).1

    abbrev filled_state : Session P
    filled_state =
        stored (waiting begun upload_reply opened) g.later_up
          (w.r_counter + 1 + length (chunks ++ remainder last)) filled

    abbrev answered_state : Session P
    answered_state = (upload_file P (request_of name chunks last) begun).1

    asked-Delivered : Delivered c (request_of name chunks last) asked_state
    asked-Delivered = (send_message-Delivered C c (request_of name chunks last) g.asks).1

    accepted-Delivered : Delivered begun upload_reply accepted_state
    accepted-Delivered = (send_message-Delivered C begun upload_reply g.accepts).1

    few : length chunks < 2 ^ 31
    few = omega (arith, few_bytes, length-append (concat chunks) last, length-concat chunks full)

    contents-Sends :
        (send_file P (pack_chunk P) (opened_file name (concat chunks ++ last)) ready_state
          ≡ (next tt, sent_state))
        × Sends ready_state (map (payload_of upload_chunk) (chunks ++ remainder last)) sent_state
    contents-Sends =
        let (e, h) =
          send_file-Sends C (pack_chunk P) upload_chunk (pack_chunk-Packs P)
            (opened_file name (concat chunks ++ last)) chunks last ready_state full small few refl
            refl g.sends in
        (
          ap (λ f. (f, sent_state)) e,
          subst (λ ms. Sends ready_state ms sent_state)
              (sym (map-append (payload_of upload_chunk) chunks (remainder last))) h,
        )

    room : ready_state.s_counter + length (chunks ++ remainder last) ≤ counter_max_value
    room =
        let r =
          ReadyAll-room C ready_state (payloads upload_chunk chunks last)
            (omega (arith, g.asks.counter, asked-Delivered.counter)) g.sends in
        omega (
          arith,
          r,
          ap length (map-append (payload_of upload_chunk) chunks (remainder last)),
          length-map (chunks ++ remainder last) (payload_of upload_chunk),
        )

    contents-Arriving :
        Arriving upload_chunk
          (data_path w.username (until_nul name))
          (waiting begun upload_reply opened)
          (chunks ++ remainder last)
          filled_state
    contents-Arriving =
        let a = asked-Delivered in
        let d = accepted-Delivered in
        let link : Linked ready_state (waiting begun upload_reply opened) = record {
          key = a.key ∙ paired.up.key ∙ sym d.key;
          due = a.counter ∙ ap (λ n. n + 1) paired.up.due ∙ sym d.expected;
        } in
        let packets' = packets-sent contents-Sends.1 g.sent in
        Sends-Arriving upload_chunk (data_path w.username (until_nul name))
          (chunks ++ remainder last) contents-Sends.1 g.later_up
          (w.r_counter + 1 + length (chunks ++ remainder last)) room link
          (d.left ∙ ap (λ ps. map (λ p. some p) ps ++ g.later_up) (sym packets')) grows.written
          (omega (arith, d.expected))

    worked :
        Stored filled_state
          (data_path w.username (until_nul name))
          upload_reply
          (concat chunks ++ last)
          (upload_file P (request_of name chunks last) begun)
    worked =
        upload_file-Stored C law name (request_of name chunks last) upload_reply upload_reply chunks
          last begun filled_state short few_bytes (upload_payload_lem P name _ few_bytes)
          grows.missing grows.accepted_name grows.created upload_reply_lem g.accepts full small
          contents-Arriving upload_reply_lem g.answers

    answered : serve_request P w ≡ (next upload_req, answered_state)
    unfolding handle read_byte
    answered =
        let (x, e) =
          Delivered-Arrives (map (λ p. some p) g.ups ++ g.later_up) paired.up asked-Delivered
            g.asks.counter g.asked g.arrives in
        serve_request-Arrives w (request_of name chunks last) x
          (length-upload_payload name (length (concat chunks ++ last))) refl
          (subst
            (λ rest.
              handle P upload_req (request_of name chunks last) (taken w rest)
              ≡ (returned one, answered_state))
            (sym e) (ap (λ f. (f, answered_state)) worked.0))

    first_answer : receive_message P 2 asked_state ≡ (next upload_reply, ready_state)
    first_answer =
        let a = asked-Delivered in
        let link : Linked begun asked_state = record {
          key = paired.down.key ∙ sym a.key;
          due = paired.down.due ∙ sym a.expected;
        } in
        let (x, e) =
          Delivered-Arrives (some g.last_down ∷ g.later_down) link accepted-Delivered
            g.accepts.counter g.accepted (a.left ∙ g.returns) in
        receive_message-Arrives asked_state upload_reply x
        ∙ ap (λ rest. (next upload_reply, taken asked_state rest)) e

    last_answer :
        receive_message P 2 sent_state ≡ (next upload_reply, taken sent_state g.later_down)
    last_answer =
        let a = asked-Delivered in
        let d = accepted-Delivered in
        let k = Sends-Kept contents-Sends.1 in
        let link : Linked filled_state sent_state = record {
          key = d.key ∙ paired.down.key ∙ sym a.key ∙ sym k.key;
          due = d.counter ∙ ap (λ n. n + 1) (paired.down.due ∙ sym a.expected) ∙ sym k.expected;
        } in
        let sent =
          sym (ap (λ r. r.1.sent) answered)
          ∙ g.answered
          ∙ ap (λ xs. xs ++ (g.last_down ∷ [])) (sym g.accepted) in
        let (x, e) = Delivered-Arrives g.later_down link worked.1 g.answers.counter sent k.left in
        receive_message-Arrives sent_state upload_reply x
        ∙ ap (λ rest. (next upload_reply, taken sent_state rest)) e

    asks :
        request_upload P (opened_file name (concat chunks ++ last)) c
        ≡ (returned one, taken sent_state g.later_down)
    unfolding ◌>>=◌
    asks =
        request_upload-eq P name (concat chunks ++ last) (request_of name chunks last) c some_bytes
          few_bytes (upload_payload_lem P name _ few_bytes)
        ∙ rw (send_message-next c (request_of name chunks last) C g.asks, first_answer)
            (begin_lem P (opened_file name (concat chunks ++ last)) ready_state
              ∙ send_contents_lem P (opened_file name (concat chunks ++ last)) ready_state
                  sent_state _ contents-Sends.0 last_answer)

    -- A client and a worker with the same user and key and matching counters carry out an upload
    -- together: the worker serves the request as an upload and ends with a file of the user that
    -- holds exactly the bytes of the client's file, the client returns 1 with its disk as it was,
    -- and the two still match. The file is not empty and shorter than 2^32 bytes, its name leaves
    -- room for its terminator, the server's disk takes the new file and its chunks (`Grows`), all
    -- messages can be sent and reach the other side as they were sent (`Uploads`), and the laws
    -- of the disk and of OpenSSL are assumed.
    pub upload_exchange :
        let t = serve_request P w in
        let u = request_upload P (opened_file name (concat chunks ++ last)) c in
        (t.0 ≡ next upload_req)
        × (P.files.open_input (data_path w.username (until_nul name)) t.1.disk
            ≡ some (concat chunks ++ last))
        × (u.0 ≡ returned one)
        × (u.1.disk ≡ c.disk)
        × Paired u.1 t.1
    upload_exchange =
        let a = asked-Delivered in
        let d = accepted-Delivered in
        let e = worked.1 in
        let k = Sends-Kept contents-Sends.1 in
        rw (answered, asks)
          (
            refl,
            worked.2,
            refl,
            k.disk ∙ a.disk,
            record {
              user = k.user ∙ a.user ∙ paired.user ∙ sym d.user ∙ sym e.user;
              up = record {
                key = k.key ∙ a.key ∙ paired.up.key ∙ sym d.key ∙ sym e.key;
                due = omega (
                  arith,
                  k.counter,
                  a.counter,
                  paired.up.due,
                  e.expected,
                  length-map (chunks ++ remainder last) (payload_of upload_chunk),
                );
              };
              down = record {
                key = e.key ∙ d.key ∙ paired.down.key ∙ sym a.key ∙ sym k.key;
                due = omega (arith, e.counter, d.counter, paired.down.due, a.expected, k.expected);
              };
            },
          )
