-- ===== src/Packets/Delete/M1.antt =====
-- The class `DeleteM1` of packets/delete.h and packets/delete.cpp: a delete request.
use foc_project.Prelude.{ℕ, ◌≡◌, refl, sym, [], ◌∷◌, ◌++◌, arith, length}
use foc_project.Memory.{Buffer, Result, ok, ◌>>=◌, zeros, read, write, read_byte, strncpy}
use foc_project.Memory.Laws.{write-zeros, read-append}
use foc_project.Packets.Codes.{delete_req, initial_request_length, name_array}

pub record DeleteM1 : Type 0 where
  pub command_code : ℕ
  pub file_name : Buffer

unfoldable pub make : Buffer → DeleteM1
make file_name = record { command_code = delete_req; file_name = strncpy file_name name_array }

pub record IsWellFormed (m : DeleteM1) : Type 0 where
  pub name_length : length m.file_name ≡ name_array

unfoldable pub serialize : DeleteM1 → Result Buffer
serialize m = do
  buff ← write (zeros initial_request_length) 0 (m.command_code ∷ [])
  write buff 1 m.file_name

unfoldable pub deserialize : Buffer → Result DeleteM1
deserialize input = do
  command ← read_byte input 0
  name ← read input 1 name_array
  ok (record { command_code = command; file_name = name })

pub serialize_lem :
    (m : DeleteM1) → IsWellFormed m → serialize m ≡ ok ((m.command_code ∷ m.file_name) ++ zeros 263)
unfolding serialize
serialize_lem m w = rw (
  write-zeros [] (m.command_code ∷ []) 0 520 519 refl refl,
  write-zeros (m.command_code ∷ []) m.file_name 1 519 263 refl (omega (arith, w.name_length)),
)

pub deserialize-serialize : (m : DeleteM1) → IsWellFormed m → (serialize m >>= deserialize) ≡ ok m
unfolding deserialize read_byte
deserialize-serialize m w = rw (
  serialize_lem m w,
  read-append (m.command_code ∷ []) m.file_name (zeros 263) 1 256 refl (sym w.name_length),
)
