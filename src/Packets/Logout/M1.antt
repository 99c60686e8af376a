-- ===== src/Packets/Logout/M1.antt =====
-- The class `LogoutM1` of packets/logout.h and packets/logout.cpp: a logout request.
use foc_project.Prelude.{ℕ, ◌≡◌, refl, [], ◌∷◌}
use foc_project.Memory.{Buffer, Result, ok, ◌>>=◌, zeros, write, read_byte}
use foc_project.Memory.Laws.{write-zeros}
use foc_project.Packets.Codes.{logout_req, initial_request_length}

pub record LogoutM1 : Type 0 where
  pub command_code : ℕ

unfoldable pub make : LogoutM1
make = record { command_code = logout_req }

unfoldable pub serialize : LogoutM1 → Result Buffer
serialize m = write (zeros initial_request_length) 0 (m.command_code ∷ [])

unfoldable pub deserialize : Buffer → Result LogoutM1
deserialize input = do command ← read_byte input 0; ok (record { command_code = command })

pub serialize_lem : (m : LogoutM1) → serialize m ≡ ok (m.command_code ∷ zeros 519)
unfolding serialize
serialize_lem m = write-zeros [] (m.command_code ∷ []) 0 520 519 refl refl

pub deserialize-serialize : (m : LogoutM1) → (serialize m >>= deserialize) ≡ ok m
unfolding deserialize read_byte
deserialize-serialize m = rw (serialize_lem m)
