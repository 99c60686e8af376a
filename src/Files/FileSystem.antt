-- ===== src/Files/FileSystem.antt =====
-- The calls of `std::filesystem`, of the file streams and of <cstdio> that the program makes. The
-- state of the disk is a parameter, since permissions, full disks and other processes decide what a
-- call does. A call that fails or throws gives `none` or `false`.
use foc_project.Prelude.{Bool, ◌≡◌, ℕ, Option, some, List, [], ◌++◌, length}
use foc_project.Memory.{Buffer}

pub record FileSystem : Type 1 where
  pub State : Type 0
  -- fs::exists, fs::is_regular_file, fs::is_directory, fs::file_size, which may throw
  pub exists : Buffer → State → Option Bool
  pub is_regular_file : Buffer → State → Option Bool
  pub is_directory : Buffer → State → Option Bool
  pub file_size : Buffer → State → Option ℕ
  -- the bytes behind an `ifstream` that was opened
  pub open_input : Buffer → State → Option Buffer
  -- an `ofstream` is opened on an emptied file, and bytes are written at its end
  pub open_output : Buffer → State → Option State
  pub append : Buffer → Buffer → State → Option State
  -- `rename` and `remove`, with whether they returned 0
  pub rename : Buffer → Buffer → State → Bool × State
  pub remove : Buffer → State → Bool × State
  -- create_directory, which may throw
  pub create_directory : Buffer → State → Option (Bool × State)
  -- directory_iterator: names, and whether they are of regular files, up to an error
  pub entries : Buffer → State → Option (List (Buffer × Bool))

-- What these calls promise of the contents of files.
pub record IsLawful (F : FileSystem) : Type 0 where
  pub open_input-open_output :
      (p : Buffer) (s : F.State) {s' : F.State}
      → F.open_output p s ≡ some s'
      → F.open_input p s' ≡ some []
  pub open_input-append :
      (p bytes : Buffer) (s : F.State) {s' : F.State} {old : Buffer}
      → F.open_input p s ≡ some old
      → F.append p bytes s ≡ some s'
      → F.open_input p s' ≡ some (old ++ bytes)
  pub file_size-open_input :
      (p : Buffer) (s : F.State) {bytes : Buffer}
      → F.open_input p s ≡ some bytes
      → F.file_size p s ≡ some (length bytes)
