-- ===== src/Exchange/Download/Run.antt =====
-- The run of a client and its worker through a download.
use foc_project.Prelude.{
  suc, ◌+◌, ◌^◌, ◌<◌, ◌≤◌, ◌≡◌, refl, sym, ap, subst, ◌∙◌, some, List, ◌∷◌, ◌++◌, map, map-append,
  length-map, arith, length, length-append,
}
use foc_project.Memory.{Buffer, until_nul, read_byte}
use foc_project.Security.Evp.{IsCcm}
use foc_project.Packets.Codes.{
  download_req, download_chunk, name_array, max_file_chunk, counter_max_value,
}
use foc_project.Files.Paths.{data_path}
use foc_project.Files.FileSystem.{IsLawful}
use foc_project.Platform.{Platform}
use foc_project.Session.{Session, one, next, returned, ◌>>=◌, send_message}
use foc_project.Session.Delivery.{Delivered, Sends, send_message-Delivered, send_message-next}
use foc_project.Chunks.Sizes.{concat, remainder, AreFull, length-concat}
use foc_project.Chunks.Send.Laws.{payload_of, payloads}
use foc_project.Chunks.Receive.{Written}
use foc_project.Server.Transfers.{download_file}
use foc_project.Server.Transfers.Download.{download_file-Sends}
use foc_project.Server.Loop.{handle, serve_request}
use foc_project.Client.Transfers.{request_download}
use foc_project.Client.Transfers.Download.{target, Takes}
use foc_project.Exchange.{Linked, Paired, taken, Delivered-Arrives, serve_request-Arrives}
use foc_project.Exchange.Streams.{packets-sent, Sends-Kept, ReadyAll-room, stored, Streams}
use foc_project.Exchange.Download.{
  download_payload, download_reply, download_payload_lem, length-download_payload,
  download_reply_lem, Holds, request_download-eq-ask, keep_file_lem,
}

module _ {P : Platform} where
  module _ (C : IsCcm P.evp) (law : IsLawful P.files) (c w : Session P) (name : Buffer)
      (chunks : List Buffer) (last : Buffer) (paired : Paired c w)
      (short : length (until_nul name) < name_array)
      (holds : Holds P.files (data_path w.username (until_nul name)) (concat chunks ++ last) w.disk)
      (full : AreFull chunks) (small : length last < max_file_chunk)
      (g : Streams c w (download_payload name) (
        download_reply (length (concat chunks ++ last))
        ∷ payloads download_chunk chunks last)) where
    abbrev answered_state : Session P
    answered_state = (download_file P (download_payload name) (taken w g.later_up)).1

    abbrev asked_state : Session P
    asked_state = (send_message P (download_payload name) c).1

    few : length chunks < 2 ^ 31
    few = omega (arith, holds.small, length-append (concat chunks) last, length-concat chunks full)

    worked :
        (download_file P (download_payload name) (taken w g.later_up)
          ≡ (returned one, answered_state))
        × Sends
            (taken w g.later_up)
            (download_reply (length (concat chunks ++ last))
              ∷ map (payload_of download_chunk) (chunks ++ remainder last))
            answered_state
    worked =
        let (e, h) =
          download_file-Sends C law name (download_payload name)
            (download_reply (length (concat chunks ++ last))) chunks last (taken w g.later_up) short
            (download_payload_lem name) holds.there holds.accepted_name holds.contents
            holds.not_empty full small few (download_reply_lem P _ holds.small) g.answers in
        (
          ap (λ f. (f, answered_state)) e,
          subst
              (λ ms.
                Sends (taken w g.later_up) (download_reply (length (concat chunks ++ last)) ∷ ms)
                  answered_state)
              (sym (map-append (payload_of download_chunk) chunks (remainder last))) h,
        )

    asked-Delivered : Delivered c (download_payload name) asked_state
    asked-Delivered = (send_message-Delivered C c (download_payload name) g.asks).1

    answered : serve_request P w ≡ (next download_req, answered_state)
    unfolding handle read_byte
    answered =
        let (x, e) =
          Delivered-Arrives g.later_up paired.up asked-Delivered g.asks.counter g.asked g.arrives in
        serve_request-Arrives w (download_payload name) x (length-download_payload name) refl (
          subst
            (λ rest.
              handle P download_req (download_payload name) (taken w rest)
              ≡ (returned one, answered_state))
            (sym e) worked.0)

    room : w.s_counter + suc (length (chunks ++ remainder last)) ≤ counter_max_value
    room =
        let r =
          ReadyAll-room C (taken w g.later_up)
            (download_reply (length (concat chunks ++ last)) ∷ payloads download_chunk chunks last)
            (omega (arith, g.answers.0.counter)) g.answers in
        omega (
          arith,
          r,
          ap length (map-append (payload_of download_chunk) chunks (remainder last)),
          length-map (chunks ++ remainder last) (payload_of download_chunk),
        )

    -- A client and a worker with the same user and key and matching counters carry out a download
    -- together: the worker serves the request as a download with its disk as it was, the client
    -- returns 1 and ends with a file among its downloads that holds exactly the bytes of the file
    -- of the user, and the two still match. The file is not empty and shorter than 2^32 bytes
    -- (`Holds`), its name leaves room for its terminator, the client's disk takes the new file
    -- (`Takes`) and its chunks, all messages can be sent and reach the other side as they were
    -- sent (`Streams`), and the laws of the disk and of OpenSSL are assumed.
    pub download_exchange :
        (disk disk' : P.files.State)
        → Takes P.files (target name) c.disk disk
        → Written P.files (target name) disk (chunks ++ remainder last) disk'
        → let t = serve_request P w in
          let u = request_download P name c in
          (t.0 ≡ next download_req)
          × (t.1.disk ≡ w.disk)
          × (u.0 ≡ returned one)
          × (P.files.open_input (target name) u.1.disk ≡ some (concat chunks ++ last))
          × Paired u.1 t.1
    unfolding ◌>>=◌
    download_exchange disk disk' takes written =
        let k = Sends-Kept worked.1 in
        let d = asked-Delivered in
        let link : Linked (taken w g.later_up) asked_state = record {
          key = paired.down.key ∙ sym d.key;
          due = paired.down.due ∙ sym d.expected;
        } in
        let sent = packets-sent worked.1 (sym (ap (λ r. r.1.sent) answered) ∙ g.answered) in
        let came =
          d.left ∙ g.returns ∙ ap (λ ps. map (λ p. some p) ps ++ g.later_down) (sym sent) in
        let (e, o) =
          keep_file_lem law name chunks last worked.1 g.later_down disk disk' holds.small room link
            came (subst (λ x. Takes P.files (target name) x disk) (sym d.disk) takes) written full
            small few in
        let ran : request_download P name c ≡ (
          returned one,
          stored asked_state g.later_down
              (asked_state.r_counter + suc (length (chunks ++ remainder last))) disk',
        ) =
          request_download-eq-ask name c
          ∙ rw (send_message-next c (download_payload name) C g.asks) e in
        rw (answered, ran)
          (
            refl,
            k.disk,
            refl,
            o,
            record {
              user = d.user ∙ paired.user ∙ sym k.user;
              up = record {
                key = d.key ∙ paired.up.key ∙ sym k.key;
                due = d.counter ∙ ap (λ n. n + 1) paired.up.due ∙ sym k.expected;
              };
              down = record {
                key = k.key ∙ paired.down.key ∙ sym d.key;
                due = omega (
                  arith,
                  k.counter,
                  paired.down.due,
                  d.expected,
                  length-map (chunks ++ remainder last) (payload_of download_chunk),
                );
              };
            },
          )
