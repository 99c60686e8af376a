-- ===== src/Client/Menu/Laws.antt =====
-- Laws of the loop in `Client::start` of client/Client.cpp.
use foc_project.Prelude.{
  ℕ, zero, suc, ◌≡◌, refl, subst, Bool, true, false, Option, none, some, [], if◌then◌else◌,
}
use foc_project.Memory.{Buffer}
use foc_project.Platform.{Platform}
use foc_project.Session.{
  Session, one, nil, minus, Flow, next, returned, raised, faulted, exited, Exec, pure, continue,
  ◌>>=◌, read_line_into, next_line,
}
use foc_project.Session.Ahead.{
  IsLive, Ahead, Ahead-IsLive, Post, Post-trans, Safe, Safe-bind, Safe-pure,
}
use foc_project.Session.Ahead.Actions.{Safe-read_line_into}
use foc_project.Client.Requests.Safety.{
  Safe-list_files, Safe-rename_file, Safe-delete_file, Safe-logout,
}
use foc_project.Client.Transfers.Safety.{Safe-upload_file, Safe-download_file}
use foc_project.Client.Menu.{
  Outcome, handled, no_number, no_choice, stoi, finish, choose, handle_menu_choice, goes_on,
  menu_round, end_of_menu_round, menu,
}

module _ {P : Platform} where
  -- What follows a handler in a round.
  abbrev rest_of_round : Option ℕ → Buffer → Outcome → Exec P (Buffer × Bool)
  rest_of_round option choice outcome = goes_on P outcome option >>= λ again. pure P (choice, again)

  Safe-rest_of_round :
      (option : Option ℕ) (choice : Buffer) (outcome : Outcome)
      → Safe (rest_of_round option choice outcome)
  unfolding goes_on
  Safe-rest_of_round option choice (handled one) = Safe-bind _ _ (Safe-pure _) λ again. Safe-pure _
  Safe-rest_of_round option choice (handled nil) = Safe-bind _ _ (Safe-pure _) λ again. Safe-pure _
  Safe-rest_of_round option choice (handled minus) =
      Safe-bind _ _ (record { at = λ s l. tt }) λ again. Safe-pure _
  Safe-rest_of_round option choice no_number = Safe-bind _ _ (Safe-pure _) λ again. Safe-pure _
  Safe-rest_of_round option choice no_choice = Safe-bind _ _ (Safe-pure _) λ again. Safe-pure _

  finish-Post :
      (option : Option ℕ) (choice : Buffer) (s : Session P) (r : Flow (Unit {0})) (t : Session P)
      → Post s r t
      → let u = continue (finish P (r, t)).0 (rest_of_round option choice) (finish P (r, t)).1 in
        Post s u.0 u.1
  unfolding finish goes_on ◌>>=◌
  finish-Post option choice s (next _) t h = h
  finish-Post option choice s (returned one) t h = h
  finish-Post option choice s (returned nil) t h = h
  finish-Post option choice s (returned minus) t h = tt
  finish-Post option choice s raised t h = tt
  finish-Post option choice s faulted t h = tt
  finish-Post option choice s exited t h = tt

  Safe-finish :
      (option : Option ℕ) (choice : Buffer) (m : Exec P (Unit {0}))
      → Safe m
      → Safe ((λ s. finish P (m s)) >>= rest_of_round option choice)
  unfolding ◌>>=◌
  Safe-finish option choice m h = record {
    at = λ s l. finish-Post option choice s (m s).0 (m s).1 (h.at s l);
  }

  Safe-branch :
      (b : Bool) (m n : Exec P Outcome) (option : Option ℕ) (choice : Buffer)
      → Safe (m >>= rest_of_round option choice)
      → Safe (n >>= rest_of_round option choice)
      → Safe ((if b then m else n) >>= rest_of_round option choice)
  Safe-branch true m n option choice h k = h
  Safe-branch false m n option choice h k = k

  Safe-choose :
      (option : Option ℕ) (choice : Buffer) (number : ℕ)
      → Safe (choose P number >>= rest_of_round option choice)
  unfolding choose
  Safe-choose option choice number = Safe-branch _ _ _ _ _ (Safe-finish _ _ _ Safe-upload_file) (
      Safe-branch _ _ _ _ _ (Safe-finish _ _ _ Safe-download_file) (
        Safe-branch _ _ _ _ _ (Safe-finish _ _ _ Safe-list_files) (
          Safe-branch _ _ _ _ _ (Safe-finish _ _ _ Safe-rename_file) (
            Safe-branch _ _ _ _ _ (Safe-finish _ _ _ Safe-delete_file) (
              Safe-branch _ _ _ _ _ (Safe-finish _ _ _ Safe-logout)
                (Safe-bind _ _ (Safe-pure no_choice) (Safe-rest_of_round option choice)))))))

  Safe-handle :
      (option : Option ℕ) (choice : Buffer)
      → Safe (handle_menu_choice P option >>= rest_of_round option choice)
  unfolding handle_menu_choice
  Safe-handle none choice = Safe-bind _ _ (Safe-pure no_number) (Safe-rest_of_round none choice)
  Safe-handle (some number) choice = Safe-choose (some number) choice number

  pub Safe-menu_round : (old : Buffer) → Safe (menu_round P old)
  unfolding menu_round
  Safe-menu_round old =
      Safe-bind _ _ (Safe-read_line_into old) λ (good, choice). Safe-handle (stoi choice) choice

  Loops : Session P → Option (Flow (Unit {0}) × Session P) → Type 0
  Loops s none = Unit
  Loops s (some (r, t)) = Post s r t

  weaken :
      (s t : Session P) (o : Option (Flow (Unit {0}) × Session P))
      → Ahead s t
      → Loops t o
      → Loops s o
  unfolding Loops
  weaken s t none a h = tt
  weaken s t (some (r, u)) a h = Post-trans r u a h

  end_of_menu_round-Loops :
      (loop : Buffer → Session P → Option (Flow (Unit {0}) × Session P)) (s : Session P)
      (r : Flow (Buffer × Bool)) (t : Session P)
      → Post s r t
      → ((old : Buffer) (t : Session P) → IsLive t → Loops t (loop old t))
      → Loops s (end_of_menu_round P loop r t)
  unfolding end_of_menu_round Loops
  end_of_menu_round-Loops loop s (next (choice, true)) t h k =
      weaken s t (loop choice t) h (k choice t (Ahead-IsLive h))
  end_of_menu_round-Loops loop s (next (choice, false)) t h k = h
  end_of_menu_round-Loops loop s (returned one) t h k = h
  end_of_menu_round-Loops loop s (returned nil) t h k = h
  end_of_menu_round-Loops loop s (returned minus) t h k = tt
  end_of_menu_round-Loops loop s raised t h k = tt
  end_of_menu_round-Loops loop s faulted t h k = tt
  end_of_menu_round-Loops loop s exited t h k = tt

  menu-Loops : (fuel : ℕ) (old : Buffer) (s : Session P) → IsLive s → Loops s (menu P fuel old s)
  unfolding menu Loops
  menu-Loops zero old s l = tt
  menu-Loops (suc fuel) old s l =
      let (r, t) = menu_round P old s in
      end_of_menu_round-Loops (menu P fuel) s r t ((Safe-menu_round old).at s l) (menu-Loops fuel)

  -- When the client's menu ends with 0, the user is the same, both counters have not gone down
  -- and are still below 2^31, no more answers are left than before, and the counter for sending
  -- went up by the number of messages sent, whole or in part, whatever was typed and received.
  -- The session was not at the end of its counters when the menu began.
  pub menu-Ahead :
      (fuel : ℕ) (old : Buffer) (s : Session P) {t : Session P}
      → IsLive s
      → menu P fuel old s ≡ some (returned nil, t)
      → Ahead s t
  unfolding Loops
  menu-Ahead fuel old s l h = subst (Loops s) h (menu-Loops fuel old s l)

  menu_stuck : (fuel : ℕ) (s : Session P) → s.input_good ≡ false → menu P fuel [] s ≡ none
  unfolding menu menu_round read_line_into next_line handle_menu_choice goes_on ◌>>=◌ stoi
  menu_stuck zero s bad = refl
  menu_stuck (suc fuel) s bad = rw bad (menu_stuck fuel _ refl)

  -- At the end of the input the client's menu never ends: no fuel is enough for its loop, because
  -- a line that is no number is asked for again.
  pub menu_endless :
      (fuel : ℕ) (old : Buffer) (s : Session P)
      → s.input_good ≡ true
      → s.console ≡ []
      → menu P fuel old s ≡ none
  unfolding menu menu_round read_line_into next_line handle_menu_choice goes_on ◌>>=◌ stoi
  menu_endless zero old s good empty = refl
  menu_endless (suc fuel) old s good empty = rw (good, empty) (menu_stuck fuel _ refl)
