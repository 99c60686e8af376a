-- ===== src/Files/Paths.antt =====
-- Paths: those that the server builds, `fs::path::filename`, and what a path resolves to.
use foc_project.Prelude.{
  ◌≡◌, refl, ap, ◌∙◌, sym, Bool, true, false, ◌&&◌, ◌||◌, List, [], ◌∷◌, ◌++◌, arith, ◌==◌,
  append_assoc, append-nil, if◌then◌else◌,
}
use foc_project.Memory.{Buffer}
use foc_project.Files.Names.{
  NoSlash, is_valid_file_name, is_valid_file_name_lem, is_valid_file_name-head,
}

-- "../data/" + username
unfoldable pub data_folder : Buffer → Buffer
data_folder username = (b'.' ∷ b'.' ∷ b'/' ∷ b'd' ∷ b'a' ∷ b't' ∷ b'a' ∷ b'/' ∷ []) ++ username

-- "../data/" + username + "/" + file_name
unfoldable pub data_path : Buffer → Buffer → Buffer
data_path username file_name = data_folder username ++ (b'/' ∷ file_name)

-- The bytes after the last slash.
unfoldable pub last_component : Buffer → Buffer → Buffer
last_component current [] = current
last_component current (c ∷ cs) = last_component (if c == b'/' then [] else current ++ (c ∷ [])) cs

-- `fs::path(path).filename().string()`
unfoldable pub filename : Buffer → Buffer
unfolding last_component
filename path = last_component [] path

last_component_id : (current cs : Buffer) → NoSlash cs → last_component current cs ≡ current ++ cs
unfolding last_component
last_component_id current [] h = sym (append-nil current)
last_component_id current (c ∷ cs) h =
    ground (arith, last_component_id (current ++ (c ∷ [])) cs h.1, append_assoc current (c ∷ []) cs)

last_component-append :
    (current xs cs : Buffer) → NoSlash cs → last_component current (xs ++ (b'/' ∷ cs)) ≡ cs
unfolding last_component
last_component-append current [] cs h = last_component_id [] cs h
last_component-append current (x ∷ xs) cs h =
    last_component-append (if x == b'/' then [] else current ++ (x ∷ [])) xs cs h

-- The name that is checked against the pattern is the requested one, if that has no slash.
pub filename-data_path :
    (username file_name : Buffer)
    → NoSlash file_name
    → filename (data_path username file_name) ≡ file_name
unfolding filename data_path
filename-data_path username file_name h =
    last_component-append [] (data_folder username) file_name h

-- What the file system makes of a path with no symbolic links: the components, innermost first.
abbrev pub dot : Buffer
dot = b'.' ∷ []

abbrev pub dot_dot : Buffer
dot_dot = b'.' ∷ b'.' ∷ []

unfoldable pub same : Buffer → Buffer → Bool
same [] [] = true
same [] (_ ∷ _) = false
same (_ ∷ _) [] = false
same (a ∷ as') (b ∷ bs) = a == b && same as' bs

-- `..` leaves a folder, and goes above the working directory where there is none to leave.
unfoldable pub leave : List Buffer → List Buffer
unfolding same
leave [] = dot_dot ∷ []
leave (c ∷ folders) = if same c dot_dot then dot_dot ∷ c ∷ folders else folders

unfoldable pub enter : List Buffer → Buffer → List Buffer
unfolding same leave
enter folders c =
    if same c [] || same c dot
    then folders
    else if same c dot_dot
    then leave folders
    else c ∷ folders

unfoldable pub resolve_from : List Buffer → Buffer → Buffer → List Buffer
resolve_from folders current [] = enter folders current
resolve_from folders current (c ∷ cs) =
    resolve_from (if c == b'/' then enter folders current else folders)
      (if c == b'/' then [] else current ++ (c ∷ [])) cs

unfoldable pub resolve : Buffer → List Buffer
unfolding resolve_from
resolve path = resolve_from [] [] path

-- A component that names an entry of its folder.
pub record IsEntry (c : Buffer) : Type 0 where
  pub no_slash : NoSlash c
  pub not_empty : same c [] ≡ false
  pub not_dot : same c dot ≡ false
  pub not_dot_dot : same c dot_dot ≡ false

enter_entry : (folders : List Buffer) (c : Buffer) → IsEntry c → enter folders c ≡ c ∷ folders
unfolding enter
enter_entry folders c e = rw (e.not_empty, e.not_dot, e.not_dot_dot)

enter-dot_dot :
    (folders : List Buffer) (c : Buffer) → IsEntry c → enter (c ∷ folders) dot_dot ≡ folders
unfolding enter
enter-dot_dot folders c e = rw e.not_dot_dot

resolve_from-append :
    (folders : List Buffer) (current w rest : Buffer)
    → NoSlash w
    → resolve_from folders current (w ++ (b'/' ∷ rest))
      ≡ resolve_from (enter folders (current ++ w)) [] rest
unfolding resolve_from
resolve_from-append folders current [] rest h = rw (append-nil current)
resolve_from-append folders current (c ∷ w) rest h = ground (
  arith,
  resolve_from-append folders (current ++ (c ∷ [])) w rest h.1,
  append_assoc current (c ∷ []) w,
)

resolve_from_id :
    (folders : List Buffer) (current w : Buffer)
    → NoSlash w
    → resolve_from folders current w ≡ enter folders (current ++ w)
unfolding resolve_from
resolve_from_id folders current [] h = rw (append-nil current)
resolve_from_id folders current (c ∷ w) h =
    ground
      (arith, resolve_from_id folders (current ++ (c ∷ [])) w h.1, append_assoc current (c ∷ []) w)

abbrev pub data_folders : List Buffer
data_folders = (b'd' ∷ b'a' ∷ b't' ∷ b'a' ∷ []) ∷ dot_dot ∷ []

resolve-data_path :
    (username file_name : Buffer)
    → IsEntry username
    → resolve (data_path username file_name) ≡ resolve_from (username ∷ data_folders) [] file_name
unfolding resolve data_path data_folder enter
resolve-data_path username file_name u =
    resolve_from-append data_folders [] username file_name u.no_slash
    ∙ ap (λ f. resolve_from f [] file_name) (enter_entry data_folders username u)

-- "../" + username + "/" + file_name
unfoldable pub escape : Buffer → Buffer → Buffer
escape username file_name = (b'.' ∷ b'.' ∷ b'/' ∷ []) ++ (username ++ (b'/' ∷ file_name))

-- The path that is built for a requested name that begins with two dots and the name of another
-- user is that of the file of the other user, if both user names are entries of their folder.
pub data_path-escape :
    (user other file_name : Buffer)
    → IsEntry user
    → IsEntry other
    → resolve (data_path user (escape other file_name)) ≡ resolve (data_path other file_name)
unfolding escape resolve_from
data_path-escape user other file_name u o =
    resolve-data_path user (escape other file_name) u
    ∙ (ap (λ f. resolve_from f [] (other ++ (b'/' ∷ file_name))) (enter-dot_dot data_folders user u)
        ∙ (resolve_from-append data_folders [] other file_name o.no_slash
            ∙ (ap (λ f. resolve_from f [] file_name) (enter_entry data_folders other o)
                ∙ sym (resolve-data_path other file_name o))))

-- A valid name is an entry of its folder.
pub is_valid_file_name-IsEntry : (name : Buffer) → is_valid_file_name name ≡ true → IsEntry name
unfolding same
is_valid_file_name-IsEntry [] h = absurd (ground (arith, is_valid_file_name_lem [] h))
is_valid_file_name-IsEntry (c ∷ cs) h = record {
  no_slash = (is_valid_file_name_lem (c ∷ cs) h).3;
  not_empty = refl;
  not_dot = ground (arith, is_valid_file_name-head c cs h);
  not_dot_dot = ground (arith, is_valid_file_name-head c cs h);
}

-- A name that `isValidFileName` accepts leads to the file of that name in the folder of the user,
-- and nowhere else, if the user name is an entry of its folder.
pub data_path-valid :
    (user name : Buffer)
    → IsEntry user
    → is_valid_file_name name ≡ true
    → resolve (data_path user name) ≡ name ∷ user ∷ data_folders
data_path-valid user name u h =
    let n = is_valid_file_name-IsEntry name h in
    resolve-data_path user name u
    ∙ (resolve_from_id (user ∷ data_folders) [] name n.no_slash
        ∙ enter_entry (user ∷ data_folders) name n)
