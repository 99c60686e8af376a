-- ===== src/Tests/Paths.antt =====
-- Names and paths at concrete inputs.
use foc_project.Prelude.{◌≤◌, ◌≡◌, refl, true, [], ◌∷◌, length, arith}
use foc_project.Memory.{Buffer}
use foc_project.Memory.Laws.{NoNul}
use foc_project.Files.Names.{
  NoSlash, is_word, is_name_char, all_name_chars, is_valid_file_name, is_valid_file_name_lem,
}
use foc_project.Files.Paths.{
  IsEntry, same, data_path, resolve, escape, data_folders, data_path-valid, data_path-escape,
}

abbrev user : Buffer
user = b'u' ∷ []

abbrev other : Buffer
other = b'o' ∷ []

user-IsEntry : IsEntry user
unfolding same
user-IsEntry = record {
  no_slash = ground arith;
  not_empty = refl;
  not_dot = refl;
  not_dot_dot = refl;
}

other-IsEntry : IsEntry other
unfolding same
other-IsEntry = record {
  no_slash = ground arith;
  not_empty = refl;
  not_dot = refl;
  not_dot_dot = refl;
}

abbrev a_txt : Buffer
a_txt = b'a' ∷ b'.' ∷ b't' ∷ []

a_txt_valid : is_valid_file_name a_txt ≡ true
unfolding is_valid_file_name all_name_chars is_name_char is_word
a_txt_valid = refl

is_valid_file_name_lem_example :
    (1 ≤ length a_txt) × (length a_txt ≤ 20) × NoNul a_txt × NoSlash a_txt
is_valid_file_name_lem_example = is_valid_file_name_lem a_txt a_txt_valid

data_path-valid_example : resolve (data_path user a_txt) ≡ a_txt ∷ user ∷ data_folders
data_path-valid_example = data_path-valid user a_txt user-IsEntry a_txt_valid

data_path-escape_example :
    resolve (data_path user (escape other a_txt)) ≡ resolve (data_path other a_txt)
data_path-escape_example = data_path-escape user other a_txt user-IsEntry other-IsEntry
