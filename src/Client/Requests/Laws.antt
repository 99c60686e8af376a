-- ===== src/Client/Requests/Laws.antt =====
-- What the client makes of the answers to its requests.
use foc_project.Prelude.{ℕ, ◌≤◌, ◌≡◌, ◌==◌, arith, if◌then◌else◌}
use foc_project.Platform.{Platform}
use foc_project.Session.{Session, Code, one, nil, returned, return_code}
use foc_project.Client.Requests.{report}

-- 0 is success.
abbrev pub told_code : ℕ → Code
told_code code = if code == 0 then one else nil

pub report_lem :
    {P : Platform} (code : ℕ) (s : Session P)
    → code ≤ 2
    → report P code s ≡ (returned (told_code code), s)
unfolding report return_code
report_lem code s h = ground arith
