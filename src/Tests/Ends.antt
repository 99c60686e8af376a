-- ===== src/Tests/Ends.antt =====
-- The two ends of a connection, and a file that is transferred over it.
use foc_project.Prelude.{◌<◌, Option, some, List, [], ◌∷◌, length, arith}
use foc_project.Memory.{Buffer, until_nul}
use foc_project.Files.Paths.{data_path}
use foc_project.Session.{Session}
use foc_project.Tests.Toy.{toy_platform, toy_session, Disk}

abbrev pub a_name : Buffer
a_name = b'a' ∷ []

abbrev pub a_path : Buffer
a_path = data_path (b'u' ∷ []) a_name

abbrev pub chunk : Buffer
chunk = 1 ∷ 2 ∷ 3 ∷ 4 ∷ 5 ∷ 6 ∷ 7 ∷ 8 ∷ 9 ∷ 10 ∷ 11 ∷ 12 ∷ 13 ∷ 14 ∷ 15 ∷ []

abbrev pub last_chunk : Buffer
last_chunk = 16 ∷ 17 ∷ []

abbrev pub iv : Buffer
iv = 7 ∷ 8 ∷ []

-- One end of the connection.
abbrev pub end : List (Option Buffer) → Disk → Session toy_platform
end received d = record (toy_session received d) {
  accepted = some 2_000_000 ∷ some 2_000_000 ∷ some 2_000_000 ∷ [];
  random = some iv ∷ some iv ∷ some iv ∷ [];
}

pub short_a : length (until_nul a_name) < 256
unfolding until_nul
short_a = omega arith
