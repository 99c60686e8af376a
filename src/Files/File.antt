-- ===== src/Files/File.antt =====
-- The class `File` of tools/file.h and tools/file.cpp. What a stream buffers counts as written.
pub mod Laws
use foc_project.Prelude.{
  ℕ, Bool, true, false, not, ◌&&◌, ◌||◌, Option, none, some, List, [], ◌∷◌, ◌++◌, ltb, leb, length,
  take, drop, if◌then◌else◌,
}
use foc_project.Memory.{Buffer, Result, ok, failed, thrown, undefined, ◌>>=◌, or_thrown}
use foc_project.Packets.Codes.{max_file_name}
use foc_project.Files.Names.{is_valid_file_name}
use foc_project.Files.Paths.{filename}
use foc_project.Files.FileSystem.{FileSystem}

-- `file_size` is `none` while it has no defined value. `input` holds the bytes that an open `ifstream`
-- has not given yet, `output` the path of an open `ofstream`.
pub record File : Type 0 where
  pub file_name : Buffer
  pub file_size : Option ℕ
  pub input : Option Buffer
  pub output : Option Buffer

unfoldable pub make : File
make = record { file_name = []; file_size = none; input = none; output = none }

-- `getFileSize()`: the value of a member that was never set is indeterminate.
unfoldable pub get_file_size : File → Result ℕ
get_file_size file = elim file.file_size [ none ↦ undefined | some n ↦ ok n ]

unfoldable pub is_accepted_name : Buffer → Bool
is_accepted_name name = is_valid_file_name name && not (ltb max_file_name (length name))

unfoldable pub read_chunk : ℕ → File → Result (Buffer × File)
read_chunk n file = elim file.input [
  | none ↦ thrown
  | some bytes ↦
      if leb n (length bytes)
      then ok (take n bytes, record file { input = some (drop n bytes) })
      else thrown
]

-- The lambda of `getFileNames`: a comma goes before every name but those that follow nothing.
unfoldable pub join_names : Buffer → List Buffer → Buffer
join_names joined [] = joined
join_names [] (name ∷ names) = join_names name names
join_names (c ∷ cs) (name ∷ names) = join_names ((c ∷ cs) ++ (b',' ∷ name)) names

unfoldable pub regular_names : List (Buffer × Bool) → List Buffer
regular_names [] = []
regular_names ((name, regular) ∷ entries) =
    let rest = regular_names entries in if regular then name ∷ rest else rest

module _ (F : FileSystem) where
  unfoldable pub exists : Buffer → F.State → Result Bool
  exists path disk = do
    there ← or_thrown (F.exists path disk)
    if not there then ok false else (do
      regular ← or_thrown (F.is_regular_file path disk)
      if not regular then ok false else ok true)

  -- `exists(folder) && is_directory(folder)` of std::filesystem, as both programs ask it.
  unfoldable pub is_folder : Buffer → F.State → Result Bool
  is_folder folder disk = do
    there ← or_thrown (F.exists folder disk)
    if there then or_thrown (F.is_directory folder disk) else ok false

  open_input : Buffer → File → F.State → Result (Unit {0}) × File
  open_input path file disk = elim (F.open_input path disk) [
    | none ↦ (thrown, file)
    | some bytes ↦ (ok tt, record file { input = some bytes })
  ]

  read_sized : Option ℕ → Buffer → File → F.State → Result (Unit {0}) × File
  read_sized none path file disk = (thrown, file)
  read_sized (some size) path file disk =
      let sized : File = record file { file_size = some size } in
      if not (is_accepted_name sized.file_name) then (thrown, sized) else open_input path sized disk

  read_found : Result Bool → Buffer → File → F.State → Result (Unit {0}) × File
  read_found failed path file disk = (failed, file)
  read_found thrown path file disk = (thrown, file)
  read_found undefined path file disk = (undefined, file)
  read_found (ok found) path file disk =
      if not found
      then (thrown, file)
      else read_sized (F.file_size path disk) path (record file { file_name = filename path }) disk

  -- The members that were set stay set where the call throws.
  unfoldable pub read : Buffer → File → F.State → Result (Unit {0}) × File
  unfolding open_input read_sized read_found
  read path file disk = read_found (exists path disk) path file disk

  open_output : Buffer → File → F.State → Result (Unit {0}) × File × F.State
  open_output path file disk = elim (F.open_output path disk) [
    | none ↦ (thrown, file, disk)
    | some disk' ↦ (ok tt, record file { output = some path }, disk')
  ]

  create_found : Result Bool → Buffer → File → F.State → Result (Unit {0}) × File × F.State
  create_found failed path file disk = (failed, file, disk)
  create_found thrown path file disk = (thrown, file, disk)
  create_found undefined path file disk = (undefined, file, disk)
  create_found (ok found) path file disk =
      if found
      then (thrown, file, disk)
      else let named : File = record file { file_name = filename path } in
        if not (is_accepted_name named.file_name)
        then (thrown, named, disk)
        else open_output path named disk

  unfoldable pub create : Buffer → File → F.State → Result (Unit {0}) × File × F.State
  unfolding open_output create_found
  create path file disk = create_found (exists path disk) path file disk

  append_to : Buffer → Buffer → F.State → Result (Unit {0}) × F.State
  append_to path chunk disk = elim (F.append path chunk disk) [
    | none ↦ (thrown, disk)
    | some disk' ↦ (ok tt, disk')
  ]

  unfoldable pub write_chunk : Buffer → File → F.State → Result (Unit {0}) × F.State
  unfolding append_to
  write_chunk chunk file disk = elim file.output [
    | none ↦ (thrown, disk)
    | some path ↦ append_to path chunk disk
  ]

  unfoldable pub get_file_names : Buffer → F.State → Buffer
  get_file_names folder disk = elim (F.entries folder disk) [
    | none ↦ []
    | some entries ↦ join_names [] (regular_names entries)
  ]

  unfoldable pub change_file_name : Buffer → Buffer → F.State → Bool × F.State
  change_file_name path new_path disk = F.rename path new_path disk

  unfoldable pub delete_file : Buffer → F.State → Bool × F.State
  delete_file path disk = F.remove path disk
