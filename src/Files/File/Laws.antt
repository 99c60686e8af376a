-- ===== src/Files/File/Laws.antt =====
-- What opening a file gives.
use foc_project.Prelude.{ℕ, ◌≡◌, refl, true, false, none, some}
use foc_project.Memory.{Buffer, ok, thrown}
use foc_project.Files.Paths.{filename}
use foc_project.Files.FileSystem.{FileSystem}
use foc_project.Files.File.{
  File, make, exists, is_accepted_name, open_input, read, create, open_output, write_chunk,
  append_to,
}

module _ (F : FileSystem) where
  open_input_lem :
      (path : Buffer) (file : File) (disk : F.State) {bytes : Buffer}
      → F.open_input path disk ≡ some bytes
      → open_input F path file disk ≡ (ok tt, record file { input = some bytes })
  unfolding open_input
  open_input_lem path file disk o = rw (open_input, o) refl

  open_output_lem :
      (path : Buffer) (file : File) (disk : F.State) {disk' : F.State}
      → F.open_output path disk ≡ some disk'
      → open_output F path file disk ≡ (ok tt, record file { output = some path }, disk')
  unfolding open_output
  open_output_lem path file disk o = rw (open_output, o) refl

  pub read_lem :
      (path : Buffer) (disk : F.State) {bytes : Buffer} {size : ℕ}
      → exists F path disk ≡ ok true
      → F.file_size path disk ≡ some size
      → is_accepted_name (filename path) ≡ true
      → F.open_input path disk ≡ some bytes
      → read F path make disk ≡ (
        ok tt,
        record {
          file_name = filename path;
          file_size = some size;
          input = some bytes;
          output = none;
        },
      )
  unfolding read make
  read_lem path disk e n a o = rw (e, n, a) (open_input_lem path _ disk o)

  -- A new file is open, and empty.
  pub create_lem :
      (path : Buffer) (disk : F.State) {disk' : F.State}
      → exists F path disk ≡ ok false
      → is_accepted_name (filename path) ≡ true
      → F.open_output path disk ≡ some disk'
      → create F path make disk ≡ (
        ok tt,
        record { file_name = filename path; file_size = none; input = none; output = some path },
        disk',
      )
  unfolding create make
  create_lem path disk e a o = rw (e, a) (open_output_lem path _ disk o)

  -- Without a file nothing is set; where there is one already, none is made.
  pub read_missing :
      (path : Buffer) (disk : F.State)
      → exists F path disk ≡ ok false
      → read F path make disk ≡ (thrown, make)
  unfolding read
  read_missing path disk e = rw e refl

  pub create_there :
      (path : Buffer) (disk : F.State)
      → exists F path disk ≡ ok true
      → create F path make disk ≡ (thrown, make, disk)
  unfolding create
  create_there path disk e = rw e refl

  append_to_lem :
      (path chunk : Buffer) (disk : F.State) {disk' : F.State}
      → F.append path chunk disk ≡ some disk'
      → append_to F path chunk disk ≡ (ok tt, disk')
  unfolding append_to
  append_to_lem path chunk disk h = rw (append_to, h) refl

  pub write_chunk_lem :
      (path chunk : Buffer) (file : File) (disk : F.State) {disk' : F.State}
      → file.output ≡ some path
      → F.append path chunk disk ≡ some disk'
      → write_chunk F chunk file disk ≡ (ok tt, disk')
  unfolding write_chunk
  write_chunk_lem path chunk file disk o h = rw (o) (append_to_lem path chunk disk h)
