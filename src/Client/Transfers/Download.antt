-- ===== src/Client/Transfers/Download.antt =====
-- The chunks that `Client::download_file` of client/Client.cpp receives, and the file behind them.
use foc_project.Prelude.{
  ◌<◌, ◌≤◌, ◌^◌, ◌≡◌, refl, ap, ◌∙◌, true, false, none, some, List, [], ◌∷◌, ◌++◌, arith, length,
}
use foc_project.Memory.{Buffer, ok}
use foc_project.Packets.Codes.{max_file_chunk, download_chunk}
use foc_project.Packets.Wrapper
use foc_project.Packets.Wrapper.{Wrapper}
use foc_project.Packets.Download.M2 as DownloadM2
use foc_project.Files.Paths.{filename}
use foc_project.Files.FileSystem.{FileSystem, IsLawful}
use foc_project.Files.File
use foc_project.Files.File.{File}
use foc_project.Files.File.Laws as File_laws
use foc_project.Platform.{Platform}
use foc_project.Session.{Session, one, next, returned, pure, ◌>>=◌}
use foc_project.Session.Arrival.{Arrives, receive_data-Arrives, check_counter_expected}
use foc_project.Chunks.Sizes.{concat, remainder, AreFull, rounds-size, last-size, concat-remainder}
use foc_project.Chunks.Send.Laws.{payload_of}
use foc_project.Chunks.Receive.{
  accepted, Arriving, done, more, Arriving-append, Arriving-open_input,
}
use foc_project.Client.Transfers.{
  downloads_path, keep_chunk, write_payload, open_packet, accept_packet, receive_chunk,
  receive_chunks, receive_last_chunk, make_folder, keep_created, create_file, receive_file,
}

-- The path of a downloaded file.
abbrev pub target : Buffer → Buffer
target name = downloads_path ++ (b'/' ∷ name)

-- The client's disk takes a new file at `path`.
pub record Takes (F : FileSystem) (path : Buffer) (old new : F.State) : Type 0 where
  pub folder : F.exists downloads_path old ≡ some true
  pub directory : F.is_directory downloads_path old ≡ some true
  pub missing : File.exists F path old ≡ ok false
  pub accepted_name : File.is_accepted_name (filename path) ≡ true
  pub opened : F.open_output path old ≡ some new

module _ {P : Platform} where
  receive_chunk_lem :
      (file : File) (path chunk : Buffer) (s : Session P)
      (a : Arrives s (payload_of download_chunk chunk)) {disk : P.files.State}
      → length chunk ≤ max_file_chunk
      → file.output ≡ some path
      → P.files.append path chunk s.disk ≡ some disk
      → receive_chunk P (length chunk) false file s ≡ (next true, accepted s a.rest disk)
  unfolding receive_chunk accept_packet open_packet write_payload keep_chunk ◌>>=◌ Wrapper.make
  receive_chunk_lem file path chunk s a {disk} small open' written =
      rw
        (
          DownloadM2.get_size_small (length chunk) (omega arith),
          receive_data-Arrives s (payload_of download_chunk chunk) a,
          a.opens,
          check_counter_expected (record s { received = a.rest }) a.counter,
          DownloadM2.deserialize_lem download_chunk chunk (omega arith),
          File_laws.write_chunk_lem P.files path chunk file s.disk open' written,
        )
        refl

  receive_chunks_lem :
      (file : File) (path : Buffer) (chunks : List Buffer) (s u : Session P)
      → file.output ≡ some path
      → AreFull chunks
      → Arriving download_chunk path s chunks u
      → receive_chunks P (length chunks) false file s ≡ (next false, u)
  unfolding receive_chunks pure ◌>>=◌
  receive_chunks_lem file path [] s u o full done = refl
  receive_chunks_lem file path (c ∷ cs) s u o (e, full) (more {disk = disk} a w rest) =
      rw (← e, receive_chunk_lem file path c s a (omega (arith, e)) o w)
        (receive_chunks_lem file path cs _ u o full rest)

  receive_last_chunk_lem :
      (file : File) (path last : Buffer) (s u : Session P)
      → length last < max_file_chunk
      → file.output ≡ some path
      → Arriving download_chunk path s (remainder last) u
      → receive_last_chunk P (length last) false file s ≡ (next tt, u)
  unfolding receive_last_chunk pure ◌>>=◌
  receive_last_chunk_lem file path [] s u small o done = refl
  receive_last_chunk_lem file path (b ∷ bs) s u small o (more a w done) =
      rw (receive_chunk_lem file path (b ∷ bs) s a (omega (arith, small)) o w) refl

  create_file_lem :
      (path : Buffer) (s : Session P) {disk : P.files.State}
      → Takes P.files path s.disk disk
      → create_file P path s ≡ (
        next (
          record { file_name = filename path; file_size = none; input = none; output = some path },
          false,
        ),
        record s { disk = disk },
      )
  unfolding create_file ◌>>=◌
  create_file_lem path s k =
      ap (λ r. keep_created P r.0 r.1 r.2 s)
        (File_laws.create_lem P.files path s.disk k.missing k.accepted_name k.opened)

  -- A file whose chunks come in order is stored.
  pub receive_file_lem :
      IsLawful P.files
      → (name : Buffer) (chunks : List Buffer) (last : Buffer) (s u : Session P)
        {disk : P.files.State}
      → Takes P.files (target name) s.disk disk
      → AreFull chunks
      → length last < max_file_chunk
      → length chunks < 2 ^ 31
      → Arriving download_chunk
          (target name)
          (record s { disk = disk })
          (chunks ++ remainder last)
          u
      → (receive_file P (length (concat chunks ++ last)) name s ≡ (returned one, u))
        × (P.files.open_input (target name) u.disk ≡ some (concat chunks ++ last))
  unfolding receive_file make_folder File.is_folder ◌>>=◌
  receive_file_lem law name chunks last s u {disk} k full small few arriving =
      let path : Buffer = target name in
      let file : File = record {
        file_name = filename path;
        file_size = none;
        input = none;
        output = some path;
      } in
      let (m, whole, end) = Arriving-append chunks (remainder last) arriving in
      let stored =
        Arriving-open_input law path arriving (law.open_input-open_output path s.disk k.opened) in
      rw
        (
          k.folder,
          k.directory,
          create_file_lem path s k,
          rounds-size chunks last full small few,
          last-size chunks last full small,
          receive_chunks_lem file path chunks (record s { disk = disk }) m refl full whole,
          receive_last_chunk_lem file path last m u small refl end,
        )
        (refl, stored ∙ ap (λ b. some b) (concat-remainder chunks last))
