-- ===== src/Client/Menu.antt =====
-- `Client::handleMenuChoice` and `Client::start` of client/Client.cpp, from the end of the login on.
pub mod Laws
use foc_project.Prelude.{
  ℕ, zero, suc, ◌+◌, ◌*◌, ◌-◌, ◌^◌, Bool, true, false, not, ◌&&◌, ◌||◌, Option, none, some, [], ◌∷◌,
  ◌==◌, leb, if◌then◌else◌,
}
use foc_project.Memory.{Buffer}
use foc_project.Platform.{Platform}
use foc_project.Session.{
  Session, Code, one, nil, minus, Flow, next, returned, raised, faulted, exited, Exec, pure,
  return_code, ◌>>=◌, ◌>>◌, read_line_into,
}
use foc_project.Client.Requests.{list_files, rename_file, delete_file, logout}
use foc_project.Client.Transfers.{upload_file, download_file}

is_space : ℕ → Bool
is_space c = c == 32 || (leb 9 c && leb c 13)

is_digit : ℕ → Bool
is_digit c = leb b'0' c && leb c b'9'

-- The value of the leading digits, and whether there is one. It does not overflow here.
digits : Bool → ℕ → Buffer → Option ℕ
unfolding is_digit
digits any value [] = if any then some value else none
digits any value (c ∷ cs) = elim (is_digit c) [
  | true ↦ digits true (value * 10 + (c - b'0')) cs
  | false ↦ if any then some value else none
]

-- An `int` as a pattern of 32 bits, where the value is in its range.
positive : Option ℕ → Option ℕ
positive none = none
positive (some value) = if leb value 0x7fff_ffff then some value else none

negative : Option ℕ → Option ℕ
negative none = none
negative (some zero) = some zero
negative (some (suc n)) = if leb (suc n) 0x8000_0000 then some (2 ^ 32 - suc n) else none

signed : Buffer → Option ℕ
unfolding digits positive negative
signed [] = none
signed (c ∷ cs) =
    if c == b'-'
    then negative (digits false 0 cs)
    else if c == b'+'
    then positive (digits false 0 cs)
    else positive (digits false 0 (c ∷ cs))

-- `std::stoi`: `none` where it throws.
unfoldable pub stoi : Buffer → Option ℕ
unfolding is_space signed
stoi [] = none
stoi (c ∷ cs) = let rest = stoi cs in if is_space c then rest else signed (c ∷ cs)

-- What `handleMenuChoice` returns: the code of a handler, -2 for a line that is no number, and -3 for
-- a number that is no choice.
pub data Outcome : Type 0 where
  handled : Code → Outcome
  no_number no_choice : Outcome

abbrev pub logout_option : ℕ
logout_option = 6

-- The comparison with `LogoutOption`.
is_other : Option ℕ → Bool
is_other none = true
is_other (some option) = not (option == logout_option)

module _ (P : Platform) where
  -- Handlers return a code.
  finish : Flow (Unit {0}) × Session P → Flow Outcome × Session P
  finish (next _, s) = (next (handled nil), s)
  finish (returned code, s) = (next (handled code), s)
  finish (raised, s) = (raised, s)
  finish (faulted, s) = (faulted, s)
  finish (exited, s) = (exited, s)

  choose : ℕ → Exec P Outcome
  unfolding finish
  choose option =
      if option == 1
      then (λ s. finish (upload_file P s))
      else if option == 2
      then (λ s. finish (download_file P s))
      else if option == 3
      then (λ s. finish (list_files P s))
      else if option == 4
      then (λ s. finish (rename_file P s))
      else if option == 5
      then (λ s. finish (delete_file P s))
      else if option == logout_option
      then (λ s. finish (logout P s))
      else pure P no_choice

  unfoldable pub handle_menu_choice : Option ℕ → Exec P Outcome
  unfolding choose
  handle_menu_choice none = pure P no_number
  handle_menu_choice (some option) = choose option

  -- -1 ends the process. The loop goes on unless the choice was the logout.
  goes_on : Outcome → Option ℕ → Exec P Bool
  goes_on (handled minus) option = λ s. (exited, s)
  goes_on (handled one) option = pure P (is_other option)
  goes_on (handled nil) option = pure P (is_other option)
  goes_on no_choice option = pure P (is_other option)
  goes_on no_number option = pure P true

  -- One round: the line that was read, and whether another round follows.
  unfoldable pub menu_round : Buffer → Exec P (Buffer × Bool)
  unfolding goes_on is_other
  menu_round old = do
    (good, choice) ← read_line_into P old
    outcome ← handle_menu_choice (stoi choice)
    again ← goes_on outcome (stoi choice)
    pure P (choice, again)

  unfoldable pub end_of_menu_round :
      (Buffer → Session P → Option (Flow (Unit {0}) × Session P))
      → Flow (Buffer × Bool)
      → Session P
      → Option (Flow (Unit {0}) × Session P)
  end_of_menu_round loop (next (choice, true)) s = loop choice s
  end_of_menu_round loop (next (choice, false)) s = some (returned nil, s)
  end_of_menu_round loop (returned code) s = some (returned code, s)
  end_of_menu_round loop raised s = some (raised, s)
  end_of_menu_round loop faulted s = some (faulted, s)
  end_of_menu_round loop exited s = some (exited, s)

  -- The loop of `start`; `none` means that the fuel ran out.
  unfoldable pub menu : ℕ → Buffer → Session P → Option (Flow (Unit {0}) × Session P)
  unfolding end_of_menu_round
  menu zero old s = none
  menu (suc fuel) old s = let (r, t) = menu_round old s in end_of_menu_round (menu fuel) r t
