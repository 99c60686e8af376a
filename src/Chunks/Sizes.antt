-- ===== src/Chunks/Sizes.antt =====
-- Files as the transfers of server/worker.cpp and client/Client.cpp cut them: whole chunks, and what
-- is left.
use foc_project.Prelude.{
  ◌*◌, ◌/◌, ◌%◌, ◌<◌, ◌^◌, ◌≡◌, refl, sym, ap, ◌∙◌, List, [], ◌∷◌, ◌++◌, append_assoc, append-nil,
  arith, All, length, length-append,
}
use foc_project.Memory.{Buffer}
use foc_project.Words.{rounds}
use foc_project.Packets.Codes.{max_file_chunk}

abbrev pub concat : List Buffer → Buffer
concat [] = []
concat (c ∷ cs) = c ++ concat cs

-- The last chunk is sent only if there is something left.
abbrev pub remainder : Buffer → List Buffer
remainder [] = []
remainder (b ∷ bs) = (b ∷ bs) ∷ []

abbrev pub AreFull : List Buffer → Type 0
AreFull chunks = All (λ c. length c ≡ max_file_chunk) chunks

pub length-concat :
    (chunks : List Buffer)
    → AreFull chunks
    → length (concat chunks) ≡ length chunks * max_file_chunk
length-concat [] full = refl
length-concat (c ∷ cs) (e, full) =
    omega (arith, e, length-concat cs full, length-append c (concat cs))

pub rounds-size :
    (chunks : List Buffer) (last : Buffer)
    → AreFull chunks
    → length last < max_file_chunk
    → length chunks < 2 ^ 31
    → rounds (length (concat chunks ++ last) / max_file_chunk % 2 ^ 32) ≡ length chunks
unfolding rounds
rounds-size chunks last full small few =
    let e : length (concat chunks ++ last) / max_file_chunk % 2 ^ 32 ≡ length chunks =
      omega (arith, length-append (concat chunks) last, length-concat chunks full) in
    rw e (ground arith)

pub last-size :
    (chunks : List Buffer) (last : Buffer)
    → AreFull chunks
    → length last < max_file_chunk
    → length (concat chunks ++ last) % max_file_chunk ≡ length last
last-size chunks last full small =
    omega (arith, length-append (concat chunks) last, length-concat chunks full)

pub concat-remainder :
    (chunks : List Buffer) (last : Buffer)
    → concat (chunks ++ remainder last) ≡ concat chunks ++ last
concat-remainder [] [] = refl
concat-remainder [] (b ∷ bs) = append-nil (b ∷ bs)
concat-remainder (c ∷ cs) last =
    ap (◌++◌ c) (concat-remainder cs last) ∙ sym (append_assoc c (concat cs) last)
