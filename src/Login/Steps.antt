-- ===== src/Login/Steps.antt =====
-- What both logins share: the folder of keys, what is set in a `Worker` or a `Client`, and the end with 0.
use foc_project.Prelude.{Option, [], ◌∷◌}
use foc_project.Memory.{Buffer, or_failed}
use foc_project.Security.Login.{Vector}
use foc_project.Platform.{Platform}
use foc_project.Session.{next, nil, Exec, attempt}

-- "../commons/"
abbrev pub commons : Buffer
commons = b'.' ∷ b'.' ∷ b'/' ∷ b'c' ∷ b'o' ∷ b'm' ∷ b'm' ∷ b'o' ∷ b'n' ∷ b's' ∷ b'/' ∷ []

-- A vector, with what the heap holds behind it.
abbrev pub vector : (Buffer → Buffer) → Buffer → Vector
vector behind bytes = record { bytes = bytes; behind = behind bytes }

module _ (P : Platform) where
  -- A call that fails ends the login with 0.
  abbrev pub need {ℓ} : {A : Type ℓ} → Option A → Exec P A
  need result = attempt P nil (or_failed result)

  unfoldable pub set_username : Buffer → Exec P (Unit {0})
  set_username name s = (next tt, record s { username = name })

  unfoldable pub set_session_key : Buffer → Exec P (Unit {0})
  set_session_key key s = (next tt, record s { session_key = key })
