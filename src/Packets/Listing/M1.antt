-- ===== src/Packets/Listing/M1.antt =====
-- The class `ListM1` of packets/list.h and packets/list.cpp: a list request.
use foc_project.Prelude.{ℕ, ◌≡◌, refl, [], ◌∷◌}
use foc_project.Memory.{Buffer, Result, ok, ◌>>=◌, zeros, write, read_byte}
use foc_project.Memory.Laws.{write-zeros}
use foc_project.Packets.Codes.{list_req, initial_request_length}

pub record ListM1 : Type 0 where
  pub command_code : ℕ

unfoldable pub make : ListM1
make = record { command_code = list_req }

unfoldable pub serialize : ListM1 → Result Buffer
serialize m = write (zeros initial_request_length) 0 (m.command_code ∷ [])

unfoldable pub deserialize : Buffer → Result ListM1
deserialize input = do command ← read_byte input 0; ok (record { command_code = command })

pub serialize_lem : (m : ListM1) → serialize m ≡ ok (m.command_code ∷ zeros 519)
unfolding serialize
serialize_lem m = write-zeros [] (m.command_code ∷ []) 0 520 519 refl refl

pub deserialize-serialize : (m : ListM1) → (serialize m >>= deserialize) ≡ ok m
unfolding deserialize read_byte
deserialize-serialize m = rw (serialize_lem m)
