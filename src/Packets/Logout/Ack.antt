-- ===== src/Packets/Logout/Ack.antt =====
-- The class `LogoutAck` of packets/logout.h and packets/logout.cpp: the answer to a logout request.
use foc_project.Prelude.{ℕ, ◌+◌, ◌≡◌, refl, [], ◌∷◌}
use foc_project.Memory.{Buffer, Result, ok, ◌>>=◌, zeros, write, read_byte}
use foc_project.Memory.Laws.{write-zeros, write-zeros_full}
use foc_project.Packets.Codes.{logout_req}

pub record LogoutAck : Type 0 where
  pub command_code : ℕ
  pub ack_code : ℕ

unfoldable pub make : ℕ → LogoutAck
make ack_code = record { command_code = logout_req; ack_code = ack_code }

abbrev pub get_size : ℕ
get_size = 1 + 1

unfoldable pub serialize : LogoutAck → Result Buffer
serialize m = do
  buff ← write (zeros get_size) 0 (m.command_code ∷ [])
  write buff 1 (m.ack_code ∷ [])

unfoldable pub deserialize : Buffer → Result LogoutAck
deserialize input = do
  command ← read_byte input 0
  ack ← read_byte input 1
  ok (record { command_code = command; ack_code = ack })

pub serialize_lem : (m : LogoutAck) → serialize m ≡ ok (m.command_code ∷ m.ack_code ∷ [])
unfolding serialize
serialize_lem m = rw (
  write-zeros [] (m.command_code ∷ []) 0 2 1 refl refl,
  write-zeros_full (m.command_code ∷ []) (m.ack_code ∷ []) 1 1 refl refl,
)

pub deserialize-serialize : (m : LogoutAck) → (serialize m >>= deserialize) ≡ ok m
unfolding deserialize read_byte
deserialize-serialize m = rw (serialize_lem m)
