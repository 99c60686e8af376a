-- ===== src/Server/Transfers/Upload.antt =====
-- The chunks that `Worker::upload_file` of server/worker.cpp receives, and the file behind them.
use foc_project.Prelude.{
  ◌<◌, ◌≤◌, ◌^◌, ◌≡◌, refl, ap, ◌∙◌, Bool, true, false, ◌||◌, none, some, List, [], ◌∷◌, ◌++◌,
  arith, length, length-append,
}
use foc_project.Memory.{Buffer, ok, until_nul}
use foc_project.Memory.Laws.{>>=-ok, length-strncpy, c_string-strncpy}
use foc_project.Security.Evp.{IsCcm}
use foc_project.Packets.Codes.{max_file_chunk, upload_chunk, name_array}
use foc_project.Packets.Wrapper
use foc_project.Packets.Wrapper.{Wrapper}
use foc_project.Packets.Upload.M1 as UploadM1
use foc_project.Packets.Upload.M2 as UploadM2
use foc_project.Packets.Upload.Ack as UploadAck
use foc_project.Files.Paths.{data_path, filename}
use foc_project.Files.FileSystem.{IsLawful}
use foc_project.Files.File
use foc_project.Files.File.{File}
use foc_project.Files.File.Laws as File_laws
use foc_project.Platform.{Platform}
use foc_project.Session.{Session, one, Flow, next, returned, pure, ◌>>=◌, send_message}
use foc_project.Session.Arrival.{Arrives, receive_data-Arrives, check_counter_expected}
use foc_project.Session.Delivery.{
  Ready, Delivered, answer-Delivered, send_message-Delivered, send_message-next,
}
use foc_project.Server.Transfers.{
  write_payload, open_packet, accept_packet, receive_chunk, receive_chunks, receive_last_chunk,
  keep_created, create_file, receive_file, upload_file,
}
use foc_project.Chunks.Send.Laws.{payload_of}
use foc_project.Chunks.Receive.{
  accepted, Arriving, done, more, Arriving-append, Arriving-open_input,
}
use foc_project.Chunks.Sizes.{
  concat, remainder, AreFull, rounds-size, last-size, length-concat, concat-remainder,
}

module _ {P : Platform} where
  receive_chunk_lem :
      (file : File) (path chunk : Buffer) (s : Session P)
      (a : Arrives s (payload_of upload_chunk chunk)) {disk : P.files.State}
      → length chunk ≤ max_file_chunk
      → file.output ≡ some path
      → P.files.append path chunk s.disk ≡ some disk
      → receive_chunk P (length chunk) file s ≡ (next true, accepted s a.rest disk)
  unfolding receive_chunk accept_packet open_packet write_payload ◌>>=◌ Wrapper.make
  receive_chunk_lem file path chunk s a {disk} small open' written =
      rw
        (
          UploadM2.get_size_small (length chunk) (omega arith),
          receive_data-Arrives s (payload_of upload_chunk chunk) a,
          a.opens,
          check_counter_expected (record s { received = a.rest }) a.counter,
          UploadM2.deserialize_lem upload_chunk chunk (omega arith),
          File_laws.write_chunk_lem P.files path chunk file s.disk open' written,
        )
        refl

  receive_chunks_lem :
      (file : File) (path : Buffer) (chunks : List Buffer) (s u : Session P) (error_occured : Bool)
      → file.output ≡ some path
      → AreFull chunks
      → Arriving upload_chunk path s chunks u
      → receive_chunks P (length chunks) file error_occured s ≡ (next error_occured, u)
  unfolding receive_chunks pure ◌>>=◌
  receive_chunks_lem file path [] s u error o full done = refl
  receive_chunks_lem file path (c ∷ cs) s u error o (e, full) (more {disk = disk} a w rest) =
      let same : (error || false) ≡ error = ground arith in
      rw (← e, receive_chunk_lem file path c s a (omega (arith, e)) o w, same)
        (receive_chunks_lem file path cs _ u error o full rest)

  receive_last_chunk_lem :
      (file : File) (path last : Buffer) (s u : Session P)
      → length last < max_file_chunk
      → file.output ≡ some path
      → Arriving upload_chunk path s (remainder last) u
      → receive_last_chunk P (length last) file s ≡ (next tt, u)
  unfolding receive_last_chunk pure ◌>>=◌
  receive_last_chunk_lem file path [] s u small o done = refl
  receive_last_chunk_lem file path (b ∷ bs) s u small o (more a w done) =
      rw (receive_chunk_lem file path (b ∷ bs) s a (omega (arith, small)) o w) refl

  create_file_lem :
      (path : Buffer) (s : Session P) {disk : P.files.State}
      → File.exists P.files path s.disk ≡ ok false
      → File.is_accepted_name (filename path) ≡ true
      → P.files.open_output path s.disk ≡ some disk
      → create_file P path s ≡ (
        next (record {
          file_name = filename path;
          file_size = none;
          input = none;
          output = some path;
        }),
        record s { disk = disk },
      )
  unfolding create_file ◌>>=◌
  create_file_lem path s new accepted' opened =
      ap (λ r. keep_created P r.0 r.1 r.2 s)
        (File_laws.create_lem P.files path s.disk new accepted' opened)

  abbrev pub Stored : Session P → Buffer → Buffer → Buffer → Flow (Unit {0}) × Session P → Type 0
  Stored u path reply bytes (r, t) =
      (r ≡ returned one) × Delivered u reply t × (P.files.open_input path t.disk ≡ some bytes)

  receive_file_lem :
      IsCcm P.evp
      → IsLawful P.files
      → (path reply : Buffer) (chunks : List Buffer) (last : Buffer) (s u : Session P)
        {disk : P.files.State}
      → File.exists P.files path s.disk ≡ ok false
      → File.is_accepted_name (filename path) ≡ true
      → P.files.open_output path s.disk ≡ some disk
      → AreFull chunks
      → length last < max_file_chunk
      → length chunks < 2 ^ 31
      → Arriving upload_chunk path (record s { disk = disk }) (chunks ++ remainder last) u
      → UploadAck.serialize (UploadAck.make 1) ≡ ok reply
      → Ready u reply
      → Stored u path reply
          (concat chunks ++ last)
          (receive_file P (length (concat chunks ++ last)) path s)
  unfolding receive_file ◌>>=◌
  receive_file_lem c law path reply chunks last s u {disk} new accepted' opened full small few
        arriving answered ready =
      let file : File = record {
        file_name = filename path;
        file_size = none;
        input = none;
        output = some path;
      } in
      let (m, whole, end) = Arriving-append chunks (remainder last) arriving in
      let stored =
        Arriving-open_input law path arriving (law.open_input-open_output path s.disk opened) in
      let (e, d) = answer-Delivered c u reply ready in
      rw
        (
          create_file_lem path s new accepted' opened,
          rounds-size chunks last full small few,
          last-size chunks last full small,
          receive_chunks_lem file path chunks (record s { disk = disk }) m false refl full whole,
          receive_last_chunk_lem file path last m u small refl end,
          answered,
        )
        (
          e,
          d,
          ap (λ x. P.files.open_input path x) d.disk
              ∙ stored
              ∙ ap (λ b. some b) (concat-remainder chunks last),
        )

  -- The state in which the first chunk is awaited.
  abbrev pub waiting : Session P → Buffer → P.files.State → Session P
  waiting s reply disk = record (send_message P reply s).1 { disk = disk }

  -- An upload to a new file with an accepted name, whose chunks arrive in order with the expected
  -- counters and are all written by the disk, returns 1, leaves the bytes of the chunks in order
  -- as the contents of the file, and sends the final acknowledgement with code 1 under the
  -- counter that is due. The name leaves room for its terminator, the size is below 2^32, and
  -- both acknowledgements can be sent; the laws of the disk and of OpenSSL are assumed.
  pub upload_file-Stored :
      IsCcm P.evp
      → IsLawful P.files
      → (name payload accept reply : Buffer) (chunks : List Buffer) (last : Buffer)
        (s u : Session P) {disk : P.files.State}
      → length (until_nul name) < name_array
      → length (concat chunks ++ last) < 2 ^ 32
      → UploadM1.serialize P.host (UploadM1.make name (length (concat chunks ++ last))) ≡ ok payload
      → let path = data_path s.username (until_nul name) in
        File.exists P.files path s.disk ≡ ok false
        → File.is_accepted_name (filename path) ≡ true
        → P.files.open_output path s.disk ≡ some disk
        → UploadAck.serialize (UploadAck.make 1) ≡ ok accept
        → Ready s accept
        → AreFull chunks
        → length last < max_file_chunk
        → Arriving upload_chunk path (waiting s accept disk) (chunks ++ remainder last) u
        → UploadAck.serialize (UploadAck.make 1) ≡ ok reply
        → Ready u reply
        → Stored u path reply (concat chunks ++ last) (upload_file P payload s)
  unfolding upload_file UploadM1.make ◌>>=◌
  upload_file-Stored c law name payload accept reply chunks last s u {disk} short size sent new
        accepted' opened answered ready full small arriving answered' ready' =
      let m = UploadM1.make name (length (concat chunks ++ last)) in
      let path : Buffer = data_path s.username (until_nul name) in
      let s1 : Session P = (send_message P accept s).1 in
      let read : UploadM1.deserialize P.host payload ≡ ok m =
        >>=-ok (UploadM1.serialize P.host m) (UploadM1.deserialize P.host) sent (
          UploadM1.upload_m1_round_trip P.host P.host m (record {
            command_lt = omega arith;
            size_lt = size;
            name_length = length-strncpy name 256;
          })) in
      let same : s1.disk ≡ s.disk = (send_message-Delivered c s accept ready).1.disk in
      let few : length chunks < 2 ^ 31 =
        omega (arith, size, length-append (concat chunks) last, length-concat chunks full) in
      rw (read, c_string-strncpy name 256 short, new, answered, send_message-next s accept c ready)
        (receive_file_lem c law path reply chunks last s1 u
          (ap (λ d. File.exists P.files path d) same ∙ new) accepted'
          (ap (λ d. P.files.open_output path d) same ∙ opened) full small few arriving answered'
          ready')
