-- ===== src/Packets/Upload/Ack.antt =====
-- The class `UploadAck` of packets/upload.h and packets/upload.cpp: the answer to an upload request, and to the upload.
use foc_project.Prelude.{ℕ, ◌+◌, ◌≡◌, refl, [], ◌∷◌}
use foc_project.Memory.{Buffer, Result, ok, ◌>>=◌, zeros, write, read_byte}
use foc_project.Memory.Laws.{write-zeros, write-zeros_full}
use foc_project.Packets.Codes.{upload_req}

pub record UploadAck : Type 0 where
  pub command_code : ℕ
  pub ack_code : ℕ

unfoldable pub make : ℕ → UploadAck
make ack_code = record { command_code = upload_req; ack_code = ack_code }

abbrev pub get_size : ℕ
get_size = 1 + 1

unfoldable pub serialize : UploadAck → Result Buffer
serialize m = do
  buff ← write (zeros get_size) 0 (m.command_code ∷ [])
  write buff 1 (m.ack_code ∷ [])

unfoldable pub deserialize : Buffer → Result UploadAck
deserialize input = do
  command ← read_byte input 0
  ack ← read_byte input 1
  ok (record { command_code = command; ack_code = ack })

pub serialize_lem : (m : UploadAck) → serialize m ≡ ok (m.command_code ∷ m.ack_code ∷ [])
unfolding serialize
serialize_lem m = rw (
  write-zeros [] (m.command_code ∷ []) 0 2 1 refl refl,
  write-zeros_full (m.command_code ∷ []) (m.ack_code ∷ []) 1 1 refl refl,
)

pub deserialize-serialize : (m : UploadAck) → (serialize m >>= deserialize) ≡ ok m
unfolding deserialize read_byte
deserialize-serialize m = rw (serialize_lem m)
