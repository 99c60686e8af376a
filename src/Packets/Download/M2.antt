-- ===== src/Packets/Download/M2.antt =====
-- The class `DownloadM2` of packets/download.h and packets/download.cpp: a chunk of a downloaded file.
use foc_project.Prelude.{ℕ, suc, ◌+◌, ◌%◌, ◌<◌, ◌^◌, ◌≡◌, refl, [], ◌∷◌, arith, length}
use foc_project.Memory.{Buffer, Result, ok, ◌>>=◌, read, write, read_byte, allocate}
use foc_project.Memory.Laws.{write-zeros, write-zeros_full, read-append_end, allocate_small}
use foc_project.Words.{widen, sub64}
use foc_project.Packets.Codes.{download_chunk}

pub record DownloadM2 : Type 0 where
  pub command_code : ℕ
  pub file_chunk : Buffer

unfoldable pub make : Buffer → DownloadM2
make file_chunk = record { command_code = download_chunk; file_chunk = file_chunk }

-- The sum is kept in an `int` and returned as a `size_t`.
unfoldable pub get_size : ℕ → ℕ
get_size chunk_size = widen ((1 + chunk_size) % 2 ^ 32)

unfoldable pub serialize : DownloadM2 → Result Buffer
serialize m = do
  buff ← allocate (get_size (length m.file_chunk))
  coded ← write buff 0 (m.command_code ∷ [])
  write coded 1 m.file_chunk

unfoldable pub deserialize : Buffer → Result DownloadM2
deserialize input = do
  let chunk_size = sub64 (length input) 1
  _ ← allocate chunk_size
  command ← read_byte input 0
  chunk ← read input 1 chunk_size
  ok (record { command_code = command; file_chunk = chunk })

pub get_size_small : (n : ℕ) → n < 0x7fff_ffff → get_size n ≡ suc n
unfolding get_size widen
get_size_small n h = ground arith

pub serialize_lem :
    (m : DownloadM2)
    → length m.file_chunk < 0x7fff_ffff
    → serialize m ≡ ok (m.command_code ∷ m.file_chunk)
unfolding serialize
serialize_lem m small = rw (
  get_size_small (length m.file_chunk) small,
  allocate_small (suc (length m.file_chunk)) (omega arith),
  write-zeros [] (m.command_code ∷ []) 0 (suc (length m.file_chunk)) (length m.file_chunk) refl
      (omega arith),
  write-zeros_full (m.command_code ∷ []) m.file_chunk 1 (length m.file_chunk) refl refl,
)

sub64_one : (n : ℕ) → n < 0x7fff_ffff → sub64 (suc n) 1 ≡ n
unfolding sub64
sub64_one n h = omega arith

pub deserialize_lem :
    (command : ℕ) (chunk : Buffer)
    → length chunk < 0x7fff_ffff
    → deserialize (command ∷ chunk) ≡ ok (record { command_code = command; file_chunk = chunk })
unfolding deserialize read_byte
deserialize_lem command chunk small = rw (
  sub64_one (length chunk) small,
  allocate_small (length chunk) (omega arith),
  read-append_end (command ∷ []) chunk 1 (length chunk) refl refl,
)

pub deserialize-serialize :
    (m : DownloadM2) → length m.file_chunk < 0x7fff_ffff → (serialize m >>= deserialize) ≡ ok m
deserialize-serialize m small =
    rw (serialize_lem m small) (deserialize_lem m.command_code m.file_chunk small)
