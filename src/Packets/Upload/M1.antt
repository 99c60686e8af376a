-- ===== src/Packets/Upload/M1.antt =====
-- The class `UploadM1` of packets/upload.h and packets/upload.cpp: an upload request.
use foc_project.Prelude.{
  ℕ, ◌+◌, ◌<◌, ◌^◌, ◌≡◌, refl, sym, [], ◌∷◌, ◌++◌, arith, length, append_assoc,
}
use foc_project.Memory.{Buffer, Result, ok, ◌>>=◌, zeros, read, write, read_byte, strncpy}
use foc_project.Memory.Laws.{write-zeros, read-append}
use foc_project.Words.{Endian, be_bytes, store32, load32, htonl, ntohl}
use foc_project.Words.Laws.{store32-htonl, ntohl-load32}
use foc_project.Packets.Codes.{upload_req, initial_request_length, name_array}

pub record UploadM1 : Type 0 where
  pub command_code : ℕ
  pub file_size : ℕ
  pub file_name : Buffer

unfoldable pub make : Buffer → ℕ → UploadM1
make file_name file_size = record {
  command_code = upload_req;
  file_size = file_size;
  file_name = strncpy file_name name_array;
}

pub record IsWellFormed (m : UploadM1) : Type 0 where
  pub command_lt : m.command_code < 256
  pub size_lt : m.file_size < 2 ^ 32
  pub name_length : length m.file_name ≡ name_array

module _ (host : Endian) where
  unfoldable pub serialize : UploadM1 → Result Buffer
  serialize m = do
    buff ← write (zeros initial_request_length) 0 (m.command_code ∷ [])
    named ← write buff 1 m.file_name
    write named (1 + name_array) (store32 host (htonl host m.file_size))

  unfoldable pub deserialize : Buffer → Result UploadM1
  deserialize input = do
    command ← read_byte input 0
    name ← read input 1 name_array
    size ← read input (1 + name_array) 4
    ok (record {
      command_code = command;
      file_size = ntohl host (load32 host size);
      file_name = name;
    })

  pub serialize_lem :
      (m : UploadM1)
      → IsWellFormed m
      → serialize m ≡ ok (((m.command_code ∷ m.file_name) ++ be_bytes m.file_size) ++ zeros 259)
  unfolding serialize
  serialize_lem m w = rw (
    write-zeros [] (m.command_code ∷ []) 0 520 519 refl refl,
    write-zeros (m.command_code ∷ []) m.file_name 1 519 263 refl (omega (arith, w.name_length)),
    store32-htonl host m.file_size w.size_lt,
    write-zeros (m.command_code ∷ m.file_name) (be_bytes m.file_size) 257 263 259
        (omega (arith, w.name_length)) refl,
  )

-- An upload request that is well formed is read back whole, also on a host of the other byte
-- order.
pub upload_m1_round_trip :
    (h h' : Endian) (m : UploadM1) → IsWellFormed m → (serialize h m >>= deserialize h') ≡ ok m
unfolding deserialize read_byte
upload_m1_round_trip h h' m w =
    let front : Buffer = m.command_code ∷ m.file_name in
    rw (
      serialize_lem h m w,
      append_assoc front (be_bytes m.file_size) (zeros 259),
      read-append (m.command_code ∷ []) m.file_name (be_bytes m.file_size ++ zeros 259) 1 256 refl
          (sym w.name_length),
      read-append front (be_bytes m.file_size) (zeros 259) 257 4 (omega (arith, w.name_length))
          refl,
      ntohl-load32 h' m.file_size w.size_lt,
    )
