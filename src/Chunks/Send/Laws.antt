-- ===== src/Chunks/Send/Laws.antt =====
-- The messages that the sending of a file leaves.
use foc_project.Prelude.{
  ℕ, suc, ◌<◌, ◌≤◌, ◌^◌, ◌≡◌, refl, sym, ap, ◌∙◌, true, some, List, [], ◌∷◌, ◌++◌, map,
  append_assoc, append-nil, subst, arith, length, length-append, take-append, drop-append, leb,
  le→leb,
}
use foc_project.Memory.{Buffer, Result, ok}
use foc_project.Security.Evp.{IsCcm}
use foc_project.Packets.Codes.{max_file_chunk}
use foc_project.Files.File
use foc_project.Files.File.{File}
use foc_project.Platform.{Platform}
use foc_project.Session.{Session, next, pure, ◌>>=◌, send_message}
use foc_project.Session.Delivery.{
  Ready, ReadyAll, ReadyAll-append, ReadyAll-Sends, Sends, after, send_message-next,
}
use foc_project.Chunks.Sizes.{concat, remainder, AreFull, rounds-size, last-size}
use foc_project.Chunks.Send.{send_chunk, send_chunks, send_last_chunk, send_file}

-- The payload of a chunk: the code of its packet, and its bytes.
abbrev pub payload_of : ℕ → Buffer → Buffer
payload_of code chunk = code ∷ chunk

-- The payloads of a file.
abbrev pub payloads : ℕ → List Buffer → Buffer → List Buffer
payloads code chunks last = map (payload_of code) chunks ++ map (payload_of code) (remainder last)

read_chunk_front :
    (n : ℕ) (file : File) (chunk rest : Buffer)
    → n ≡ length chunk
    → file.input ≡ some (chunk ++ rest)
    → File.read_chunk n file ≡ ok (chunk, record file { input = some rest })
unfolding File.read_chunk
read_chunk_front n file chunk rest e h =
    let fits : leb (length chunk) (length (chunk ++ rest)) ≡ true =
      le→leb (length chunk) (length (chunk ++ rest)) (omega (arith, length-append chunk rest)) in
    rw (h, e, fits, take-append chunk rest, drop-append chunk rest) refl

get_file_size_known :
    (file : File) (n : ℕ) → file.file_size ≡ some n → File.get_file_size file ≡ ok n
unfolding File.get_file_size
get_file_size_known file n e = rw e refl

-- What `pack` has to do.
abbrev pub Packs : (Buffer → Result Buffer) → ℕ → Type 0
Packs pack code =
    (chunk : Buffer) → length chunk ≤ max_file_chunk → pack chunk ≡ ok (payload_of code chunk)

module _ {P : Platform} (C : IsCcm P.evp) (pack : Buffer → Result Buffer) (code : ℕ)
    (packs : Packs pack code) where
  send_chunk_lem :
      (n : ℕ) (file : File) (chunk rest : Buffer) (s : Session P)
      → n ≡ length chunk
      → length chunk ≤ max_file_chunk
      → file.input ≡ some (chunk ++ rest)
      → Ready s (payload_of code chunk)
      → send_chunk P pack n file s
        ≡ (next (record file { input = some rest }), (send_message P (payload_of code chunk) s).1)
  unfolding send_chunk ◌>>=◌
  send_chunk_lem n file chunk rest s e e' h r =
      rw
        (
          read_chunk_front n file chunk rest e h,
          packs chunk e',
          send_message-next s (payload_of code chunk) C r,
        )
        refl

  send_chunks_lem :
      (chunks : List Buffer) (file : File) (rest : Buffer) (s : Session P)
      → AreFull chunks
      → file.input ≡ some (concat chunks ++ rest)
      → ReadyAll s (map (payload_of code) chunks)
      → send_chunks P pack (length chunks) file s
        ≡ (next (record file { input = some rest }), after s (map (payload_of code) chunks))
  unfolding send_chunks ◌>>=◌
  send_chunks_lem [] file rest s full h r = ap (λ i. (next (record file { input = i }), s)) h
  send_chunks_lem (c ∷ cs) file rest s (e, full) h (r, rs) =
      rw
        (send_chunk_lem max_file_chunk file c (concat cs ++ rest) s (sym e) (omega (arith, e))
          (h ∙ ap (λ b. some b) (append_assoc c (concat cs) rest)) r)
        (send_chunks_lem cs (record file { input = some (concat cs ++ rest) }) rest _ full refl rs)

  send_last_chunk_lem :
      (file : File) (last : Buffer) (s : Session P)
      → length last < max_file_chunk
      → file.input ≡ some last
      → ReadyAll s (map (payload_of code) (remainder last))
      → send_last_chunk P pack (length last) file s
        ≡ (next (record file { input = some [] }), after s (map (payload_of code) (remainder last)))
  unfolding send_last_chunk pure
  send_last_chunk_lem file [] s small h r = ap (λ i. (next (record file { input = i }), s)) h
  send_last_chunk_lem file (b ∷ bs) s small h (r, _) =
      send_chunk_lem (suc (length bs)) file (b ∷ bs) [] s refl (omega (arith, small))
        (h ∙ ap (λ x. some x) (sym (append-nil (b ∷ bs)))) r

  -- A file that was opened is sent whole: its bytes are those of the chunks, in order.
  pub send_file-Sends :
      (file : File) (chunks : List Buffer) (last : Buffer) (s : Session P)
      → AreFull chunks
      → length last < max_file_chunk
      → length chunks < 2 ^ 31
      → file.input ≡ some (concat chunks ++ last)
      → file.file_size ≡ some (length (concat chunks ++ last))
      → ReadyAll s (payloads code chunks last)
      → ((send_file P pack file s).0 ≡ next tt)
        × Sends s (payloads code chunks last) (send_file P pack file s).1
  unfolding send_file ◌>>=◌
  send_file-Sends file chunks last s full small few h size r =
      let (r1, r2, e) =
        ReadyAll-append s (map (payload_of code) chunks) (map (payload_of code) (remainder last))
          r in
      let sent = ReadyAll-Sends C s (payloads code chunks last) r in
      rw
        (
          get_file_size_known file (length (concat chunks ++ last)) size,
          rounds-size chunks last full small few,
          last-size chunks last full small,
          send_chunks_lem chunks file last s full h r1,
          send_last_chunk_lem (record file { input = some last }) last
              (after s (map (payload_of code) chunks)) small refl r2,
        )
        (refl, subst (λ t. Sends s (payloads code chunks last) t) e sent)
