-- ===== src/Packets/Codes.antt =====
-- packets/constants.h: command codes, limits and the registered users.
use foc_project.Prelude.{◌*◌, ℕ, ◌+◌, List, [], ◌∷◌}
use foc_project.Memory.{Buffer}
use foc_project.Words.{int_max}

-- `RequestCodes`
abbrev pub upload_req : ℕ
upload_req = 1

abbrev pub upload_chunk : ℕ
upload_chunk = 2

abbrev pub download_req : ℕ
download_req = 3

abbrev pub download_chunk : ℕ
download_chunk = 4

abbrev pub list_req : ℕ
list_req = 5

abbrev pub rename_req : ℕ
rename_req = 6

abbrev pub delete_req : ℕ
delete_req = 7

abbrev pub logout_req : ℕ
logout_req = 8

-- `MAX`
abbrev pub max_file_name : ℕ
max_file_name = 255

abbrev pub max_password_length : ℕ
max_password_length = 50

abbrev pub max_username_length : ℕ
max_username_length = 50

abbrev pub max_file_chunk : ℕ
max_file_chunk = 15

abbrev pub max_file_size : ℕ
max_file_size = 4 * 1024 * 1024 * 1024

abbrev pub counter_max_value : ℕ
counter_max_value = int_max

abbrev pub initial_request_length : ℕ
initial_request_length = 520

-- The size of the `char` arrays that hold a file name.
abbrev pub name_array : ℕ
name_array = max_file_name + 1

-- `username_list`: "user1", "user2", "user3".
abbrev pub username_list : List Buffer
username_list =
    (b'u' ∷ b's' ∷ b'e' ∷ b'r' ∷ b'1' ∷ [])
    ∷ (b'u' ∷ b's' ∷ b'e' ∷ b'r' ∷ b'2' ∷ [])
    ∷ (b'u' ∷ b's' ∷ b'e' ∷ b'r' ∷ b'3' ∷ [])
    ∷ []
