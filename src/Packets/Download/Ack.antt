-- ===== src/Packets/Download/Ack.antt =====
-- The class `DownloadAck` of packets/download.h and packets/download.cpp: the answer to a download request.
use foc_project.Prelude.{ℕ, ◌+◌, ◌<◌, ◌^◌, ◌≡◌, refl, [], ◌∷◌, ◌++◌}
use foc_project.Memory.{Buffer, Result, ok, ◌>>=◌, zeros, read, write, read_byte}
use foc_project.Memory.Laws.{write-zeros, write-zeros_full, read-append}
use foc_project.Words.{Endian, be_bytes, store32, load32, htonl, ntohl}
use foc_project.Words.Laws.{store32-htonl, ntohl-load32}
use foc_project.Packets.Codes.{download_req}

pub record DownloadAck : Type 0 where
  pub command_code : ℕ
  pub ack_code : ℕ
  pub file_size : ℕ

unfoldable pub make : ℕ → ℕ → DownloadAck
make ack_code file_size = record {
  command_code = download_req;
  ack_code = ack_code;
  file_size = file_size;
}

-- The constructor without a size.
unfoldable pub make_failed : ℕ → DownloadAck
make_failed ack_code = record { command_code = download_req; ack_code = ack_code; file_size = 0 }

abbrev pub get_size : ℕ
get_size = 1 + 4 + 1

module _ (host : Endian) where
  unfoldable pub serialize : DownloadAck → Result Buffer
  serialize m = do
    buff ← write (zeros get_size) 0 (m.command_code ∷ [])
    sized ← write buff 1 (store32 host (htonl host m.file_size))
    write sized (1 + 4) (m.ack_code ∷ [])

  unfoldable pub deserialize : Buffer → Result DownloadAck
  deserialize input = do
    command ← read_byte input 0
    size ← read input 1 4
    ack ← read_byte input (1 + 4)
    ok (record {
      command_code = command;
      ack_code = ack;
      file_size = ntohl host (load32 host size);
    })

  pub serialize_lem :
      (m : DownloadAck)
      → m.file_size < 2 ^ 32
      → serialize m ≡ ok (m.command_code ∷ (be_bytes m.file_size ++ (m.ack_code ∷ [])))
  unfolding serialize
  serialize_lem m small = rw (
    write-zeros [] (m.command_code ∷ []) 0 6 5 refl refl,
    store32-htonl host m.file_size small,
    write-zeros (m.command_code ∷ []) (be_bytes m.file_size) 1 5 1 refl refl,
    write-zeros_full (m.command_code ∷ be_bytes m.file_size) (m.ack_code ∷ []) 5 1 refl refl,
  )

-- The answer to a download request is read back whole, also on a host of the other byte order, if
-- its size is below 2^32.
pub download_ack_round_trip :
    (h h' : Endian) (m : DownloadAck)
    → m.file_size < 2 ^ 32
    → (serialize h m >>= deserialize h') ≡ ok m
unfolding deserialize read_byte
download_ack_round_trip h h' m small = rw (
  serialize_lem h m small,
  read-append (m.command_code ∷ []) (be_bytes m.file_size) (m.ack_code ∷ []) 1 4 refl refl,
  ntohl-load32 h' m.file_size small,
)
