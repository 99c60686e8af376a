-- ===== src/Packets/Delete/Ack.antt =====
-- The class `DeleteAck` of packets/delete.h and packets/delete.cpp: the answer to a delete request.
use foc_project.Prelude.{ℕ, ◌+◌, ◌≡◌, refl, [], ◌∷◌}
use foc_project.Memory.{Buffer, Result, ok, ◌>>=◌, zeros, write, read_byte}
use foc_project.Memory.Laws.{write-zeros, write-zeros_full}
use foc_project.Packets.Codes.{delete_req}

pub record DeleteAck : Type 0 where
  pub command_code : ℕ
  pub ack_code : ℕ

unfoldable pub make : ℕ → DeleteAck
make ack_code = record { command_code = delete_req; ack_code = ack_code }

abbrev pub get_size : ℕ
get_size = 1 + 1

unfoldable pub serialize : DeleteAck → Result Buffer
serialize m = do
  buff ← write (zeros get_size) 0 (m.command_code ∷ [])
  write buff 1 (m.ack_code ∷ [])

unfoldable pub deserialize : Buffer → Result DeleteAck
deserialize input = do
  command ← read_byte input 0
  ack ← read_byte input 1
  ok (record { command_code = command; ack_code = ack })

pub serialize_lem : (m : DeleteAck) → serialize m ≡ ok (m.command_code ∷ m.ack_code ∷ [])
unfolding serialize
serialize_lem m = rw (
  write-zeros [] (m.command_code ∷ []) 0 2 1 refl refl,
  write-zeros_full (m.command_code ∷ []) (m.ack_code ∷ []) 1 1 refl refl,
)

pub deserialize-serialize : (m : DeleteAck) → (serialize m >>= deserialize) ≡ ok m
unfolding deserialize read_byte
deserialize-serialize m = rw (serialize_lem m)
