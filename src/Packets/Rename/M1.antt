-- ===== src/Packets/Rename/M1.antt =====
-- The class `RenameM1` of packets/rename.h and packets/rename.cpp: a rename request.
use foc_project.Prelude.{ℕ, ◌+◌, ◌≡◌, refl, sym, [], ◌∷◌, ◌++◌, arith, length, append_assoc}
use foc_project.Memory.{Buffer, Result, ok, ◌>>=◌, zeros, read, write, read_byte, strncpy}
use foc_project.Memory.Laws.{write-zeros, read-append}
use foc_project.Packets.Codes.{rename_req, initial_request_length, name_array}

pub record RenameM1 : Type 0 where
  pub command_code : ℕ
  pub file_name : Buffer
  pub new_file_name : Buffer

unfoldable pub make : Buffer → Buffer → RenameM1
make file_name new_file_name = record {
  command_code = rename_req;
  file_name = strncpy file_name name_array;
  new_file_name = strncpy new_file_name name_array;
}

pub record IsWellFormed (m : RenameM1) : Type 0 where
  pub name_length : length m.file_name ≡ name_array
  pub new_name_length : length m.new_file_name ≡ name_array

unfoldable pub serialize : RenameM1 → Result Buffer
serialize m = do
  buff ← write (zeros initial_request_length) 0 (m.command_code ∷ [])
  named ← write buff 1 m.file_name
  write named (1 + name_array) m.new_file_name

unfoldable pub deserialize : Buffer → Result RenameM1
deserialize input = do
  command ← read_byte input 0
  name ← read input 1 name_array
  new_name ← read input (1 + name_array) name_array
  ok (record { command_code = command; file_name = name; new_file_name = new_name })

pub serialize_lem :
    (m : RenameM1)
    → IsWellFormed m
    → serialize m ≡ ok (((m.command_code ∷ m.file_name) ++ m.new_file_name) ++ zeros 7)
unfolding serialize
serialize_lem m w = rw (
  write-zeros [] (m.command_code ∷ []) 0 520 519 refl refl,
  write-zeros (m.command_code ∷ []) m.file_name 1 519 263 refl (omega (arith, w.name_length)),
  write-zeros (m.command_code ∷ m.file_name) m.new_file_name 257 263 7
      (omega (arith, w.name_length)) (omega (arith, w.new_name_length)),
)

-- A rename request that is well formed is read back with both names.
pub rename_m1_round_trip : (m : RenameM1) → IsWellFormed m → (serialize m >>= deserialize) ≡ ok m
unfolding deserialize read_byte
rename_m1_round_trip m w =
    let front : Buffer = m.command_code ∷ m.file_name in
    rw (
      serialize_lem m w,
      append_assoc front m.new_file_name (zeros 7),
      read-append (m.command_code ∷ []) m.file_name (m.new_file_name ++ zeros 7) 1 256 refl
          (sym w.name_length),
      read-append front m.new_file_name (zeros 7) 257 256 (omega (arith, w.name_length))
          (sym w.new_name_length),
    )
