-- ===== src/Server/Loop.antt =====
-- `Worker::start` of server/worker.cpp, from the end of the login on.
pub mod Laws
pub mod Replay
use foc_project.Prelude.{ℕ, zero, suc, Bool, true, false, Option, none, some, ◌==◌, if◌then◌else◌}
use foc_project.Memory.{Buffer, Result, ok, failed, thrown, undefined, read_byte}
use foc_project.Packets.Codes.{
  upload_req, download_req, list_req, rename_req, delete_req, logout_req, initial_request_length,
}
use foc_project.Packets.Wrapper
use foc_project.Packets.Wrapper.{Wrapper}
use foc_project.Platform.{Platform}
use foc_project.Session.{
  Session, Code, one, nil, minus, Flow, next, returned, raised, faulted, exited, Exec, pure,
  return_code, attempt, get_state, ◌>>=◌, ◌>>◌, receive_data, check_counter,
}
use foc_project.Server.Requests.{rename_file, delete_file, list_files, logout}
use foc_project.Server.Transfers.{upload_file, download_file}

module _ (P : Platform) where
  -- The `switch` over the command code. No handler sets `result` for an unknown code, and `result`
  -- is read after the `switch`.
  unfoldable pub handle : ℕ → Buffer → Exec P (Unit {0})
  handle command payload =
      if command == upload_req
      then upload_file P payload
      else if command == download_req
      then download_file P payload
      else if command == list_req
      then list_files P payload
      else if command == rename_req
      then rename_file P payload
      else if command == delete_req
      then delete_file P payload
      else if command == logout_req
      then logout P payload
      else λ s. (faulted, s)

  -- What the handler returned: -1 ends the process.
  unfoldable pub settle : Flow (Unit {0}) × Session P → Flow (Unit {0}) × Session P
  settle (next _, s) = (next tt, s)
  settle (returned one, s) = (next tt, s)
  settle (returned nil, s) = (next tt, s)
  settle (returned minus, s) = (exited, s)
  settle (raised, s) = (raised, s)
  settle (faulted, s) = (faulted, s)
  settle (exited, s) = (exited, s)

  -- A round after `receiveData`.
  unfoldable pub serve_packet : Option Buffer → Exec P ℕ
  serve_packet none = return_code P nil
  serve_packet (some packet) = do
    s ← get_state P
    w ← attempt P nil (Wrapper.deserialize P.host P.evp s.session_key packet)
    command ← attempt P nil (read_byte w.pt 0)
    check_counter P w.counter
    λ t. settle (handle command w.pt t)
    pure P command

  -- One round of the loop: the command that was carried out.
  unfoldable pub serve_request : Exec P ℕ
  serve_request = do
    answer ← receive_data P (Wrapper.get_size P.host P.evp initial_request_length)
    serve_packet answer

  -- The condition of the loop, after a round.
  unfoldable pub end_of_round :
      (Session P → Option (Flow (Unit {0}) × Session P))
      → Flow ℕ
      → Session P
      → Option (Flow (Unit {0}) × Session P)
  end_of_round again (next command) t =
      if command == logout_req then some (returned nil, t) else again t
  end_of_round again (returned c) t = some (returned c, t)
  end_of_round again raised t = some (raised, t)
  end_of_round again faulted t = some (faulted, t)
  end_of_round again exited t = some (exited, t)

  -- The loop, up to a logout. Each round takes one answer of `recv` at least; `none` means that the
  -- fuel ran out.
  unfoldable pub serve : ℕ → Session P → Option (Flow (Unit {0}) × Session P)
  unfolding end_of_round
  serve zero s = none
  serve (suc fuel) s = let (r, t) = serve_request s in end_of_round (serve fuel) r t
