-- ===== src/Server/Transfers/Safety.antt =====
-- The transfers of server/worker.cpp under the rules of `Safe`.
use foc_project.Prelude.{ℕ, zero, suc, Bool, true, false, not, ◌||◌, Option, none, some}
use foc_project.Memory.{Buffer, Result, ok, failed, thrown, undefined}
use foc_project.Packets.Codes.{max_file_chunk}
use foc_project.Packets.Wrapper.{Wrapper}
use foc_project.Files.File
use foc_project.Files.File.{File}
use foc_project.Platform.{Platform}
use foc_project.Session.{one, nil}
use foc_project.Session.Ahead.{
  Safe, Safe-bind, Safe-pure, Safe-return, Safe-attempt, Safe-get_state, Safe-set_disk,
}
use foc_project.Session.Ahead.Actions.{Safe-send_message, Safe-receive_data, Safe-check_counter}
use foc_project.Chunks.Send.Safety.{Safe-send_file}
use foc_project.Server.Requests.Safety.{Safe-if}
use foc_project.Server.Transfers.{
  write_payload, open_packet, accept_packet, receive_chunk, receive_chunks, receive_last_chunk,
  keep_created, create_file, receive_file, upload_file, send_contents, download_file,
}

module _ {P : Platform} where
  Safe-write_payload : (file : File) (w : Wrapper) → Safe (write_payload P file w)
  unfolding write_payload
  Safe-write_payload file w = Safe-bind _ _ (Safe-check_counter w.counter) λ _.
      Safe-bind _ _ (Safe-attempt _) λ m2.
        Safe-bind _ _ Safe-get_state λ s.
          Safe-bind _ _ (Safe-set_disk _) λ _. Safe-bind _ _ (Safe-attempt _) λ _. Safe-pure true

  Safe-open_packet : (file : File) (r : Result Wrapper) → Safe (open_packet P file r)
  unfolding open_packet
  Safe-open_packet file (ok w) = Safe-write_payload file w
  Safe-open_packet file failed = Safe-pure false
  Safe-open_packet file thrown = record { at = λ s l. tt }
  Safe-open_packet file undefined = record { at = λ s l. tt }

  Safe-accept_packet : (file : File) (o : Option Buffer) → Safe (accept_packet P file o)
  unfolding accept_packet
  Safe-accept_packet file none = Safe-pure false
  Safe-accept_packet file (some packet) = Safe-bind _ _ Safe-get_state λ s. Safe-open_packet file _

  Safe-receive_chunk : (size : ℕ) (file : File) → Safe (receive_chunk P size file)
  unfolding receive_chunk
  Safe-receive_chunk size file =
      Safe-bind _ _ (Safe-receive_data _) λ packet. Safe-accept_packet file packet

  Safe-receive_chunks : (n : ℕ) (file : File) (e : Bool) → Safe (receive_chunks P n file e)
  unfolding receive_chunks
  Safe-receive_chunks zero file e = Safe-pure e
  Safe-receive_chunks (suc n) file e =
      Safe-bind _ _ (Safe-receive_chunk max_file_chunk file)
        λ came. Safe-receive_chunks n file (e || not came)

  Safe-receive_last_chunk : (n : ℕ) (file : File) → Safe (receive_last_chunk P n file)
  unfolding receive_last_chunk
  Safe-receive_last_chunk zero file = Safe-pure tt
  Safe-receive_last_chunk (suc n) file =
      Safe-bind _ _ (Safe-receive_chunk (suc n) file)
        λ came. Safe-if came _ _ (Safe-pure tt) (Safe-return nil)

  Safe-keep_created :
      (r : Result (Unit {0})) (file : File) (disk : P.files.State)
      → Safe (keep_created P r file disk)
  unfolding keep_created
  Safe-keep_created (ok _) file disk = Safe-bind _ _ (Safe-set_disk disk) λ _. Safe-pure file
  Safe-keep_created failed file disk = Safe-bind _ _ (Safe-set_disk disk) λ _. Safe-return nil
  Safe-keep_created thrown file disk = Safe-bind _ _ (Safe-set_disk disk) λ _. Safe-return nil
  Safe-keep_created undefined file disk = record { at = λ s l. tt }

  Safe-create_file : (path : Buffer) → Safe (create_file P path)
  unfolding create_file
  Safe-create_file path = record {
    at = λ s l.
        let r = File.create P.files path File.make s.disk in (Safe-keep_created r.0 r.1 r.2).at s l;
  }

  Safe-receive_file : (size : ℕ) (path : Buffer) → Safe (receive_file P size path)
  unfolding receive_file
  Safe-receive_file size path = Safe-bind _ _ (Safe-create_file path) λ file.
      Safe-bind _ _ (Safe-receive_chunks _ file false) λ e.
        Safe-bind _ _ (Safe-receive_last_chunk _ file) λ _.
          Safe-bind _ _ (Safe-attempt _)
            λ ack. Safe-bind _ _ (Safe-send_message ack) λ _. Safe-return one

  pub Safe-upload_file : (payload : Buffer) → Safe (upload_file P payload)
  unfolding upload_file
  Safe-upload_file payload = Safe-bind _ _ (Safe-attempt _) λ m1.
      Safe-bind _ _ (Safe-attempt _) λ name. Safe-bind _ _ Safe-get_state λ s.
        Safe-bind _ _ (Safe-attempt _) λ there.
          Safe-bind _ _ (Safe-attempt _)
            λ ack. Safe-bind _ _ (Safe-send_message ack) λ _. Safe-receive_file _ _

  Safe-send_contents : (file : File) → Safe (send_contents P file)
  unfolding send_contents
  Safe-send_contents file = Safe-bind _ _ (Safe-send_file _ file) λ _. Safe-return one

  pub Safe-download_file : (payload : Buffer) → Safe (download_file P payload)
  unfolding download_file
  Safe-download_file payload = Safe-bind _ _ (Safe-attempt _) λ m1.
      Safe-bind _ _ (Safe-attempt _) λ name. Safe-bind _ _ Safe-get_state λ s.
        Safe-bind _ _ (Safe-attempt _) λ answer.
          Safe-bind _ _ (Safe-attempt _)
            λ ack. Safe-bind _ _ (Safe-send_message ack) λ _. Safe-send_contents _
