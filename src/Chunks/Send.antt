-- ===== src/Chunks/Send.antt =====
-- The chunks of a file are sent: the loops of `Worker::download_file` in server/worker.cpp and of
-- `Client::upload_file` in client/Client.cpp, which differ in the packet that a chunk is put into.
pub mod Safety
pub mod Laws
use foc_project.Prelude.{ℕ, zero, suc, ◌/◌, ◌%◌, ◌^◌}
use foc_project.Memory.{Buffer, Result}
use foc_project.Words.{rounds}
use foc_project.Packets.Codes.{max_file_chunk}
use foc_project.Files.File
use foc_project.Files.File.{File}
use foc_project.Platform.{Platform}
use foc_project.Session.{
  Session, Code, nil, Flow, next, Exec, pure, attempt, ◌>>=◌, ◌>>◌, send_message,
}

-- `pack` makes the payload of a chunk.
module _ (P : Platform) (pack : Buffer → Result Buffer) where
  unfoldable pub send_chunk : ℕ → File → Exec P File
  send_chunk size file = do
    chunk ← attempt P nil (File.read_chunk size file)
    payload ← attempt P nil (pack chunk.0)
    send_message P payload
    pure P chunk.1

  unfoldable pub send_chunks : ℕ → File → Exec P File
  send_chunks zero file = pure P file
  send_chunks (suc n) file = do sent ← send_chunk max_file_chunk file; send_chunks n sent

  unfoldable pub send_last_chunk : ℕ → File → Exec P File
  send_last_chunk zero file = pure P file
  send_last_chunk (suc n) file = send_chunk (suc n) file

  -- Both loops. The size is read from the `File`.
  unfoldable pub send_file : File → Exec P (Unit {0})
  unfolding send_last_chunk
  send_file file = do
    size ← attempt P nil (File.get_file_size file)
    rest ← send_chunks (rounds (size / max_file_chunk % 2 ^ 32)) file
    last ← send_last_chunk (size % max_file_chunk) rest
    pure P tt
