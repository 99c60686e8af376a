-- ===== src/Files/Names.antt =====
-- `File::isValidFileName` of tools/file.cpp: the pattern `^\w[\w.\-+_!#$%^&()]{0,19}$`.
use foc_project.Prelude.{
  ℕ, ◌≤◌, ◌≡◌, ◌≢◌, Bool, true, false, ◌&&◌, ◌||◌, [], ◌∷◌, arith, leb, ◌==◌, length, All,
}
use foc_project.Memory.{Buffer}
use foc_project.Memory.Laws.{NoNul}

-- `\w`
unfoldable pub is_word : ℕ → Bool
is_word c =
    (leb b'a' c && leb c b'z')
    || (leb b'A' c && leb c b'Z')
    || (leb b'0' c && leb c b'9')
    || c == b'_'

-- `[\w.\-+_!#$%^&()]`
unfoldable pub is_name_char : ℕ → Bool
unfolding is_word
is_name_char c =
    is_word c
    || c == b'.'
    || c == b'-'
    || c == b'+'
    || c == b'!'
    || c == b'#'
    || c == b'$'
    || c == b'%'
    || c == b'^'
    || c == b'&'
    || c == b'('
    || c == b')'

unfoldable pub all_name_chars : Buffer → Bool
all_name_chars [] = true
all_name_chars (c ∷ cs) = is_name_char c && all_name_chars cs

unfoldable pub is_valid_file_name : Buffer → Bool
is_valid_file_name [] = false
is_valid_file_name (c ∷ cs) = is_word c && all_name_chars cs && leb (length cs) 19

-- No byte of the list separates path components.
abbrev pub NoSlash : Buffer → Type 0
NoSlash bs = All (λ b. b ≢ b'/') bs

is_name_char_lem : (c : ℕ) → is_name_char c ≡ true → (c ≢ 0) × (c ≢ b'/')
unfolding is_name_char
is_name_char_lem c h = ground arith

is_word_lem : (c : ℕ) → is_word c ≡ true → (c ≢ 0) × (c ≢ b'/') × (c ≢ b'.')
unfolding is_word
is_word_lem c h = ground arith

all_name_chars_lem : (cs : Buffer) → all_name_chars cs ≡ true → NoNul cs × NoSlash cs
unfolding all_name_chars
all_name_chars_lem [] h = (tt, tt)
all_name_chars_lem (c ∷ cs) h = ground (arith, is_name_char_lem c, all_name_chars_lem cs)

-- A name that `isValidFileName` accepts has 1 to 20 bytes, none of which is 0 or a slash.
pub is_valid_file_name_lem :
    (name : Buffer)
    → is_valid_file_name name ≡ true
    → (1 ≤ length name) × (length name ≤ 20) × NoNul name × NoSlash name
unfolding is_valid_file_name
is_valid_file_name_lem [] h = absurd (ground arith)
is_valid_file_name_lem (c ∷ cs) h = ground (arith, is_word_lem c, all_name_chars_lem cs)

pub is_valid_file_name-head : (c : ℕ) (cs : Buffer) → is_valid_file_name (c ∷ cs) ≡ true → c ≢ b'.'
unfolding is_valid_file_name
is_valid_file_name-head c cs h = ground (arith, is_word_lem c)
