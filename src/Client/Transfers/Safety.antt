-- ===== src/Client/Transfers/Safety.antt =====
-- The transfers of client/Client.cpp under the rules of `Safe`.
use foc_project.Prelude.{ℕ, zero, suc, Bool, true, false, Option, none, some}
use foc_project.Memory.{Buffer, Result, ok, failed, thrown, undefined}
use foc_project.Packets.Codes.{max_file_chunk}
use foc_project.Packets.Wrapper.{Wrapper}
use foc_project.Files.File
use foc_project.Files.File.{File}
use foc_project.Platform.{Platform}
use foc_project.Session.{one, nil}
use foc_project.Session.Ahead.{
  Safe, Safe-bind, Safe-pure, Safe-return, Safe-attempt, Safe-get_state, Safe-set_disk,
}
use foc_project.Session.Ahead.Actions.{
  Safe-read_line, Safe-ignore_line, Safe-send_message, Safe-receive_data, Safe-check_counter,
}
use foc_project.Server.Requests.Safety.{Safe-if}
use foc_project.Chunks.Send.Safety.{Safe-send_file}
use foc_project.Client.Messages.Safety.{Safe-receive_message, Safe-read_name}
use foc_project.Client.Transfers.{
  take_path, keep_opened, open_file, send_contents, request_upload, upload_file, keep_folder,
  make_folder, keep_created, create_file, keep_chunk, write_payload, open_packet, accept_packet,
  receive_chunk, receive_chunks, receive_last_chunk, receive_file, request_download, download_file,
}

module _ {P : Platform} where
  Safe-take_path : (line : Option Buffer) → Safe (take_path P line)
  unfolding take_path
  Safe-take_path none = Safe-bind _ _ Safe-ignore_line λ _. Safe-pure _
  Safe-take_path (some path) =
      Safe-if _ _ _ (Safe-bind _ _ Safe-ignore_line λ _. Safe-pure _) (Safe-pure path)

  Safe-keep_opened : (r : Result (Unit {0})) (file : File) → Safe (keep_opened P r file)
  unfolding keep_opened
  Safe-keep_opened (ok _) file = Safe-pure file
  Safe-keep_opened failed file = Safe-return nil
  Safe-keep_opened thrown file = Safe-return nil
  Safe-keep_opened undefined file = record { at = λ s l. tt }

  Safe-open_file : (path : Buffer) → Safe (open_file P path)
  unfolding open_file
  Safe-open_file path = record {
    at =
        λ s l. let r = File.read P.files path File.make s.disk in (Safe-keep_opened r.0 r.1).at s l;
  }

  Safe-send_contents : (file : File) → Safe (send_contents P file)
  unfolding send_contents
  Safe-send_contents file = Safe-bind _ _ (Safe-send_file _ file) λ _.
      Safe-bind _ _ (Safe-receive_message _)
        λ payload. Safe-bind _ _ (Safe-attempt _) λ ack. Safe-return one

  Safe-request_upload : (file : File) → Safe (request_upload P file)
  unfolding request_upload
  Safe-request_upload file = Safe-bind _ _ (Safe-attempt _) λ size.
      Safe-if _ _ _ (Safe-return nil) (
        Safe-bind _ _ (Safe-attempt _) λ m1. Safe-bind _ _ (Safe-send_message m1) λ _.
          Safe-bind _ _ (Safe-receive_message _) λ payload.
            Safe-bind _ _ (Safe-attempt _)
              λ ack. Safe-if _ _ _ (Safe-return nil) (Safe-send_contents file))

  pub Safe-upload_file : Safe (upload_file P)
  unfolding upload_file
  Safe-upload_file = Safe-bind _ _ Safe-read_line λ line.
      Safe-bind _ _ (Safe-take_path line)
        λ path. Safe-bind _ _ (Safe-open_file path) λ file. Safe-request_upload file

  Safe-keep_folder : (o : Option (Bool × P.files.State)) → Safe (keep_folder P o)
  unfolding keep_folder
  Safe-keep_folder none = record { at = λ s l. tt }
  Safe-keep_folder (some (made, disk)) =
      Safe-bind _ _ (Safe-set_disk disk) λ _. Safe-if made _ _ (Safe-pure tt) (Safe-return nil)

  Safe-make_folder : Safe (make_folder P)
  unfolding make_folder
  Safe-make_folder = Safe-bind _ _ Safe-get_state λ s.
      Safe-bind _ _ (Safe-attempt _) λ found. Safe-if found _ _ (Safe-pure tt) (Safe-keep_folder _)

  Safe-keep_created :
      (r : Result (Unit {0})) (file : File) (disk : P.files.State)
      → Safe (keep_created P r file disk)
  unfolding keep_created
  Safe-keep_created (ok _) file disk = Safe-bind _ _ (Safe-set_disk disk) λ _. Safe-pure _
  Safe-keep_created failed file disk = Safe-bind _ _ (Safe-set_disk disk) λ _. Safe-pure _
  Safe-keep_created thrown file disk = Safe-bind _ _ (Safe-set_disk disk) λ _. Safe-pure _
  Safe-keep_created undefined file disk = record { at = λ s l. tt }

  Safe-create_file : (path : Buffer) → Safe (create_file P path)
  unfolding create_file
  Safe-create_file path = record {
    at = λ s l.
        let r = File.create P.files path File.make s.disk in (Safe-keep_created r.0 r.1 r.2).at s l;
  }

  Safe-keep_chunk :
      (error : Bool) (chunk : Buffer) (file : File) → Safe (keep_chunk P error chunk file)
  unfolding keep_chunk
  Safe-keep_chunk true chunk file = Safe-pure tt
  Safe-keep_chunk false chunk file =
      Safe-bind _ _ Safe-get_state λ s. Safe-bind _ _ (Safe-set_disk _) λ _. Safe-attempt _

  Safe-write_payload :
      (error : Bool) (file : File) (w : Wrapper) → Safe (write_payload P error file w)
  unfolding write_payload
  Safe-write_payload error file w = Safe-bind _ _ (Safe-check_counter w.counter) λ _.
      Safe-bind _ _ (Safe-attempt _)
        λ m2. Safe-bind _ _ (Safe-keep_chunk error _ file) λ _. Safe-pure true

  Safe-open_packet :
      (error : Bool) (file : File) (r : Result Wrapper) → Safe (open_packet P error file r)
  unfolding open_packet
  Safe-open_packet error file (ok w) = Safe-write_payload error file w
  Safe-open_packet error file failed = Safe-pure false
  Safe-open_packet error file thrown = record { at = λ s l. tt }
  Safe-open_packet error file undefined = record { at = λ s l. tt }

  Safe-accept_packet :
      (error : Bool) (file : File) (o : Option Buffer) → Safe (accept_packet P error file o)
  unfolding accept_packet
  Safe-accept_packet error file none = Safe-pure false
  Safe-accept_packet error file (some packet) =
      Safe-bind _ _ Safe-get_state λ s. Safe-open_packet error file _

  Safe-receive_chunk : (n : ℕ) (error : Bool) (file : File) → Safe (receive_chunk P n error file)
  unfolding receive_chunk
  Safe-receive_chunk n error file =
      Safe-bind _ _ (Safe-receive_data _) λ packet. Safe-accept_packet error file packet

  Safe-receive_chunks : (n : ℕ) (error : Bool) (file : File) → Safe (receive_chunks P n error file)
  unfolding receive_chunks
  Safe-receive_chunks zero error file = Safe-pure error
  Safe-receive_chunks (suc n) error file =
      Safe-bind _ _ (Safe-receive_chunk max_file_chunk error file)
        λ came. Safe-receive_chunks n _ file

  Safe-receive_last_chunk :
      (n : ℕ) (error : Bool) (file : File) → Safe (receive_last_chunk P n error file)
  unfolding receive_last_chunk
  Safe-receive_last_chunk zero error file = Safe-pure tt
  Safe-receive_last_chunk (suc n) error file =
      Safe-bind _ _ (Safe-receive_chunk (suc n) error file)
        λ came. Safe-if came _ _ (Safe-pure tt) (Safe-return nil)

  Safe-receive_file : (size : ℕ) (name : Buffer) → Safe (receive_file P size name)
  unfolding receive_file
  Safe-receive_file size name = Safe-bind _ _ Safe-make_folder λ _.
      Safe-bind _ _ (Safe-create_file _) λ created.
        Safe-bind _ _ (Safe-receive_chunks _ created.1 created.0)
          λ error. Safe-bind _ _ (Safe-receive_last_chunk _ error created.0) λ _. Safe-return one

  Safe-request_download : (name : Buffer) → Safe (request_download P name)
  unfolding request_download
  Safe-request_download name = Safe-bind _ _ (Safe-attempt _) λ m1.
      Safe-bind _ _ (Safe-send_message m1) λ _. Safe-bind _ _ (Safe-receive_message _) λ payload.
        Safe-bind _ _ (Safe-attempt _)
          λ ack. Safe-if _ _ _ (Safe-receive_file _ name) (Safe-return nil)

  pub Safe-download_file : Safe (download_file P)
  unfolding download_file
  Safe-download_file = Safe-bind _ _ Safe-read_name λ name. Safe-request_download name
