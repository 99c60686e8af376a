-- ===== src/Chunks/Send/Safety.antt =====
-- The sending of chunks under the rules of `Safe`.
use foc_project.Prelude.{ℕ, zero, suc}
use foc_project.Memory.{Buffer, Result}
use foc_project.Packets.Codes.{max_file_chunk}
use foc_project.Files.File.{File}
use foc_project.Platform.{Platform}
use foc_project.Session.Ahead.{Safe, Safe-bind, Safe-pure, Safe-attempt}
use foc_project.Session.Ahead.Actions.{Safe-send_message}
use foc_project.Chunks.Send.{send_chunk, send_chunks, send_last_chunk, send_file}

module _ {P : Platform} (pack : Buffer → Result Buffer) where
  Safe-send_chunk : (size : ℕ) (file : File) → Safe (send_chunk P pack size file)
  unfolding send_chunk
  Safe-send_chunk size file = Safe-bind _ _ (Safe-attempt _) λ chunk.
      Safe-bind _ _ (Safe-attempt _)
        λ payload. Safe-bind _ _ (Safe-send_message payload) λ _. Safe-pure chunk.1

  Safe-send_chunks : (n : ℕ) (file : File) → Safe (send_chunks P pack n file)
  unfolding send_chunks
  Safe-send_chunks zero file = Safe-pure file
  Safe-send_chunks (suc n) file =
      Safe-bind _ _ (Safe-send_chunk max_file_chunk file) λ rest. Safe-send_chunks n rest

  Safe-send_last_chunk : (n : ℕ) (file : File) → Safe (send_last_chunk P pack n file)
  unfolding send_last_chunk
  Safe-send_last_chunk zero file = Safe-pure file
  Safe-send_last_chunk (suc n) file = Safe-send_chunk (suc n) file

  pub Safe-send_file : (file : File) → Safe (send_file P pack file)
  unfolding send_file
  Safe-send_file file = Safe-bind _ _ (Safe-attempt _) λ size.
      Safe-bind _ _ (Safe-send_chunks _ file)
        λ rest. Safe-bind _ _ (Safe-send_last_chunk _ rest) λ _. Safe-pure tt
