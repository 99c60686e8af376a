-- ===== src/Packets/Listing/M2.antt =====
-- The class `ListM2` of packets/list.h and packets/list.cpp: the answer to a list request.
use foc_project.Prelude.{ℕ, ◌+◌, ◌<◌, ◌^◌, ◌≡◌, refl, [], ◌∷◌, ◌++◌}
use foc_project.Memory.{Buffer, Result, ok, ◌>>=◌, zeros, read, write, read_byte}
use foc_project.Memory.Laws.{write-zeros, write-zeros_full, read-append}
use foc_project.Words.{Endian, be_bytes, store32, load32, htonl, ntohl}
use foc_project.Words.Laws.{store32-htonl, ntohl-load32}
use foc_project.Packets.Codes.{list_req}

pub record ListM2 : Type 0 where
  pub command_code : ℕ
  pub ack_code : ℕ
  pub file_list_size : ℕ

unfoldable pub make : ℕ → ℕ → ListM2
make ack_code file_list_size = record {
  command_code = list_req;
  ack_code = ack_code;
  file_list_size = file_list_size;
}

abbrev pub get_size : ℕ
get_size = 1 + 4 + 1

module _ (host : Endian) where
  unfoldable pub serialize : ListM2 → Result Buffer
  serialize m = do
    buff ← write (zeros get_size) 0 (m.command_code ∷ [])
    sized ← write buff 1 (store32 host (htonl host m.file_list_size))
    write sized (1 + 4) (m.ack_code ∷ [])

  unfoldable pub deserialize : Buffer → Result ListM2
  deserialize input = do
    command ← read_byte input 0
    size ← read input 1 4
    ack ← read_byte input (1 + 4)
    ok (record {
      command_code = command;
      ack_code = ack;
      file_list_size = ntohl host (load32 host size);
    })

  pub serialize_lem :
      (m : ListM2)
      → m.file_list_size < 2 ^ 32
      → serialize m ≡ ok (m.command_code ∷ (be_bytes m.file_list_size ++ (m.ack_code ∷ [])))
  unfolding serialize
  serialize_lem m small = rw (
    write-zeros [] (m.command_code ∷ []) 0 6 5 refl refl,
    store32-htonl host m.file_list_size small,
    write-zeros (m.command_code ∷ []) (be_bytes m.file_list_size) 1 5 1 refl refl,
    write-zeros_full (m.command_code ∷ be_bytes m.file_list_size) (m.ack_code ∷ []) 5 1 refl refl,
  )

-- The answer that announces the names is read back whole, also on a host of the other byte order,
-- if its size is below 2^32.
pub list_m2_round_trip :
    (h h' : Endian) (m : ListM2)
    → m.file_list_size < 2 ^ 32
    → (serialize h m >>= deserialize h') ≡ ok m
unfolding deserialize read_byte
list_m2_round_trip h h' m small = rw (
  serialize_lem h m small,
  read-append (m.command_code ∷ []) (be_bytes m.file_list_size) (m.ack_code ∷ []) 1 4 refl refl,
  ntohl-load32 h' m.file_list_size small,
)
