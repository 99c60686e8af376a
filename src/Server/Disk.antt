-- ===== src/Server/Disk.antt =====
-- What `list_files`, `rename_file` and `delete_file` of server/worker.cpp ask of the disk and do to it.
use foc_project.Prelude.{ℕ, ◌%◌, ◌^◌, not, [], length, if◌then◌else◌}
use foc_project.Memory.{Buffer, Result, ok, ◌>>=◌}
use foc_project.Packets.Listing.M2 as ListM2
use foc_project.Files.File
use foc_project.Platform.{Platform}

module _ (P : Platform) where
  -- What `rename_file` does to the disk, and the code that it answers: 0 for success, 1 where the
  -- file could not be renamed, 2 where there is none. Nothing is changed where a test of the disk throws.
  unfoldable pub rename_on_disk : Buffer → Buffer → P.files.State → Result (ℕ × P.files.State)
  rename_on_disk path new_path disk = do
    there ← File.exists P.files path disk
    if not there then ok (2, disk) else (do
      taken ← File.exists P.files new_path disk
      ok (
          if taken
          then (1, disk)
          else (let (done, disk') = File.change_file_name P.files path new_path disk in
              (if done then 0 else 1, disk'))))

  -- The same for `delete_file`.
  unfoldable pub delete_on_disk : Buffer → P.files.State → Result (ℕ × P.files.State)
  delete_on_disk path disk = do
    there ← File.exists P.files path disk
    ok (
        if there
        then (let (done, disk') = File.delete_file P.files path disk in
            (if done then 0 else 1, disk'))
        else (2, disk))

  -- The names in the user's folder, and the answer that announces them. `fileNames.length()` becomes
  -- a `uint32_t`.
  unfoldable pub list_folder : Buffer → P.files.State → Result (Buffer × ListM2.ListM2)
  list_folder folder disk = do
    directory ← File.is_folder P.files folder disk
    ok (
        if directory
        then (let names = File.get_file_names P.files folder disk in
            (names, ListM2.make 0 (length names % 2 ^ 32)))
        else ([], ListM2.make 1 0))
