-- ===== src/Packets/Listing/M3.antt =====
-- The class `ListM3` of packets/list.h and packets/list.cpp: the comma-separated file names. The
-- names stand in an array from `new char[file_list_size + 1]`, of which only the first
-- `file_list_size` bytes are set: `junk` is what the array holds before that.
use foc_project.Prelude.{ℕ, ◌+◌, ◌%◌, ◌^◌, [], ◌∷◌, ◌++◌, replicate}
use foc_project.Memory.{Buffer, Result, ok, ◌>>=◌, read, write, read_byte, c_string, allocate}
use foc_project.Words.{widen}
use foc_project.Packets.Codes.{list_req}

pub record ListM3 : Type 0 where
  pub command_code : ℕ
  pub file_list_size : ℕ
  pub file_list_data : Buffer

-- The constructor leaves the pointer unset: no bytes can be read behind it.
unfoldable pub make : ℕ → ListM3
make file_list_size = record {
  command_code = list_req;
  file_list_size = file_list_size;
  file_list_data = [];
}

-- The 32-bit sum is returned as an `int`, and taken as a `size_t`.
unfoldable pub get_size : ListM3 → ℕ
get_size m = widen ((1 + m.file_list_size) % 2 ^ 32)

unfoldable pub serialize : ListM3 → Result Buffer
serialize m = do
  buff ← allocate (get_size m)
  coded ← write buff 0 (m.command_code ∷ [])
  names ← read m.file_list_data 0 m.file_list_size
  write coded 1 names

module _ (junk : ℕ) where
  -- `new char[n + 1]`; the sum is one of 32 bits.
  abbrev pub new_array : ℕ → Buffer
  new_array n = replicate ((n + 1) % 2 ^ 32) junk

  -- The argument is a C string: its terminator can be read too.
  unfoldable pub set_file_list_data : ListM3 → Buffer → Result ListM3
  set_file_list_data m text = do
    names ← read (text ++ (0 ∷ [])) 0 m.file_list_size
    array ← write (new_array m.file_list_size) 0 names
    ok (record m { file_list_data = array })

  unfoldable pub deserialize : ListM3 → Buffer → Result ListM3
  deserialize m input = do
    command ← read_byte input 0
    names ← read input 1 m.file_list_size
    array ← write (new_array m.file_list_size) 0 names
    ok (record m { command_code = command; file_list_data = array })

-- `std::string fileListData = m3.getFileListData()`
unfoldable pub get_file_list_data : ListM3 → Result Buffer
get_file_list_data m = c_string m.file_list_data
