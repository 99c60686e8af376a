-- ===== src/Tests/Loop.antt =====
-- Runs of the worker's loop.
use foc_project.Prelude.{
  ℕ, ◌+◌, ◌≡◌, ◌≢◌, refl, none, some, [], ◌∷◌, ◌++◌, take, drop, replicate, arith,
}
use foc_project.Memory as M
use foc_project.Words as W
use foc_project.Packets.Wrapper as Wrapper
use foc_project.Security.Evp as Evp
use foc_project.Security.Ccm as Ccm
use foc_project.Security.Counter as Counter
use foc_project.Packets.Delete.M1 as DeleteM1
use foc_project.Packets.Delete.Ack as DeleteAck
use foc_project.Files.Paths as Paths
use foc_project.Files.File as File
use foc_project.Session as S
use foc_project.Server.Requests as R
use foc_project.Server.Disk as OnDisk
use foc_project.Server.Loop as L
use foc_project.Memory.{Buffer, ok, read_byte, zeros}
use foc_project.Packets.Wrapper.{Wrapper}
use foc_project.Packets.Codes.{delete_req}
use foc_project.Session.{Session, Flow, next, returned, nil, minus}
use foc_project.Session.Ahead.{IsLive, Ahead, Ahead-refl, Ahead-IsLive, Post-next}
use foc_project.Server.Loop.{serve_packet, serve}
use foc_project.Server.Loop.Laws.{Safe-serve_packet, serve_total, serve-Ahead}
use foc_project.Server.Loop.Replay.{serve_packet-next, replay_refused}
use foc_project.Tests.Toy.{toy_platform, toy_session, blank, state_of}
use foc_project.Tests.Ready.{toy_packet}

-- A request to delete the file "a", which is not there.
abbrev request : Buffer
request = toy_packet 0 ((delete_req ∷ b'a' ∷ []) ++ zeros 518)

abbrev start : Session toy_platform
start = toy_session (some request ∷ []) blank

start-IsLive : IsLive start
start-IsLive = record { s_live = omega arith; r_live = omega arith }

abbrev served : Flow ℕ × Session toy_platform
served = serve_packet toy_platform (some request) start

served-next : served.0 ≡ next delete_req
unfolding M.zeros M.read M.write M.read_byte M.until_nul M.strncpy M.c_string M.allocate
    Wrapper.make Wrapper.create_aad Wrapper.serialize Wrapper.deserialize Wrapper.get_size
    Evp.encrypt_start Evp.encrypt_ready Evp.decrypt_start Evp.decrypt_ready Evp.seal Evp.unseal
    Ccm.encrypt_aes_ccm Ccm.decrypt_aes_ccm DeleteM1.make DeleteM1.serialize DeleteM1.deserialize
    DeleteAck.make DeleteAck.serialize DeleteAck.deserialize S.pure S.return_code S.attempt
    S.get_state S.set_disk S.◌>>=◌ S.send_data S.receive_data S.random_value S.wrap S.transmit
    S.send_message S.check_counter L.handle L.settle L.serve_packet L.serve_request L.end_of_round
    L.serve W.store32 W.load32 W.htonl W.sub64 W.widen Counter.increment_counter Paths.data_folder
    Paths.data_path File.exists OnDisk.delete_on_disk R.delete_file take drop replicate
served-next = refl

served_key : served.1.session_key ≡ start.session_key
unfolding M.zeros M.read M.write M.read_byte M.until_nul M.strncpy M.c_string M.allocate
    Wrapper.make Wrapper.create_aad Wrapper.serialize Wrapper.deserialize Wrapper.get_size
    Evp.encrypt_start Evp.encrypt_ready Evp.decrypt_start Evp.decrypt_ready Evp.seal Evp.unseal
    Ccm.encrypt_aes_ccm Ccm.decrypt_aes_ccm DeleteM1.make DeleteM1.serialize DeleteM1.deserialize
    DeleteAck.make DeleteAck.serialize DeleteAck.deserialize S.pure S.return_code S.attempt
    S.get_state S.set_disk S.◌>>=◌ S.send_data S.receive_data S.random_value S.wrap S.transmit
    S.send_message S.check_counter L.handle L.settle L.serve_packet L.serve_request L.end_of_round
    L.serve W.store32 W.load32 W.htonl W.sub64 W.widen Counter.increment_counter Paths.data_folder
    Paths.data_path File.exists OnDisk.delete_on_disk R.delete_file take drop replicate
served_key = refl

served-Ahead : Ahead start served.1
served-Ahead =
    Post-next start served.0 served.1 served-next
      ((Safe-serve_packet (some request)).at start start-IsLive)

replay_refused_example :
    serve_packet toy_platform (some request) served.1 ≡ (returned minus, served.1)
replay_refused_example =
    replay_refused request start served.1 start-IsLive served-next
      (Ahead-refl served.1 (Ahead-IsLive served-Ahead)) served_key

serve_packet-next_example :
    (w : Wrapper) × (Wrapper.deserialize toy_platform.host toy_platform.evp start.session_key
        request
      ≡ ok w)
    × (command : ℕ) × (read_byte w.pt 0 ≡ ok command)
    × (w.counter ≡ 0)
    × Ahead (record start { r_counter = 0 + 1 }) served.1
serve_packet-next_example = serve_packet-next request start start-IsLive served-next

serve_total_example : serve toy_platform 2 start ≢ none
serve_total_example = serve_total 2 start start-IsLive (omega arith)

-- The request is served, and then the connection ends.
finished : serve toy_platform 2 start ≡ some (returned nil, state_of (serve toy_platform 2 start))
unfolding M.zeros M.read M.write M.read_byte M.until_nul M.strncpy M.c_string M.allocate
    Wrapper.make Wrapper.create_aad Wrapper.serialize Wrapper.deserialize Wrapper.get_size
    Evp.encrypt_start Evp.encrypt_ready Evp.decrypt_start Evp.decrypt_ready Evp.seal Evp.unseal
    Ccm.encrypt_aes_ccm Ccm.decrypt_aes_ccm DeleteM1.make DeleteM1.serialize DeleteM1.deserialize
    DeleteAck.make DeleteAck.serialize DeleteAck.deserialize S.pure S.return_code S.attempt
    S.get_state S.set_disk S.◌>>=◌ S.send_data S.receive_data S.random_value S.wrap S.transmit
    S.send_message S.check_counter L.handle L.settle L.serve_packet L.serve_request L.end_of_round
    L.serve W.store32 W.load32 W.htonl W.sub64 W.widen Counter.increment_counter Paths.data_folder
    Paths.data_path File.exists OnDisk.delete_on_disk R.delete_file take drop replicate
finished = refl

serve-Ahead_example : Ahead start (state_of (serve toy_platform 2 start))
serve-Ahead_example = serve-Ahead 2 start start-IsLive finished
