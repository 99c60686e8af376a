-- ===== src/Platform.antt =====
-- What the program stands on: the byte order of the host, OpenSSL, the file system, and the byte that
-- memory from `new` happens to hold.
use foc_project.Prelude.{ℕ}
use foc_project.Words.{Endian}
use foc_project.Security.Evp.{Evp}
use foc_project.Files.FileSystem.{FileSystem}

pub record Platform : Type 1 where
  pub host : Endian
  pub evp : Evp
  pub files : FileSystem
  pub junk : ℕ
