-- ===== src/Tests/Menu.antt =====
-- Runs of the client's menu, and of the list of names that it prints.
use foc_project.Prelude.{◌≡◌, refl, none, some, List, [], ◌∷◌, All, take, drop, replicate, arith}
use foc_project.Memory as M
use foc_project.Words as W
use foc_project.Packets.Wrapper as Wrapper
use foc_project.Security.Evp as Evp
use foc_project.Security.Ccm as Ccm
use foc_project.Security.Counter as Counter
use foc_project.Packets.Logout.M1 as LogoutM1
use foc_project.Packets.Logout.Ack as LogoutAck
use foc_project.Memory.{Buffer}
use foc_project.Packets.Codes.{logout_req}
use foc_project.Files.File.{join_names}
use foc_project.Session as S
use foc_project.Session.{Session, Flow, returned, nil}
use foc_project.Session.Ahead.{IsLive, Ahead}
use foc_project.Client.Requests.{tokens}
use foc_project.Client.Requests as Requests
use foc_project.Client.Requests.Names.{IsListed, tokens-join_names}
use foc_project.Client.Messages as Messages
use foc_project.Client.Menu as Menu
use foc_project.Client.Menu.{menu}
use foc_project.Client.Menu.Laws.{menu-Ahead, menu_endless}
use foc_project.Tests.Ready.{toy_packet}
use foc_project.Tests.Toy.{toy_platform, toy_session, blank, state_of}

-- The user types "6", and the worker's answer comes.
abbrev leaving : Session toy_platform
leaving = record (toy_session (some (toy_packet 0 (logout_req ∷ 0 ∷ [])) ∷ []) blank) {
  console = (b'6' ∷ []) ∷ [];
}

leaving-IsLive : IsLive leaving
leaving-IsLive = record { s_live = omega arith; r_live = omega arith }

left :
    menu toy_platform 1 [] leaving ≡ some (returned nil, state_of (menu toy_platform 1 [] leaving))
unfolding M.zeros M.read M.write M.read_byte M.allocate Wrapper.make Wrapper.create_aad
    Wrapper.serialize Wrapper.deserialize Wrapper.get_size Evp.encrypt_start Evp.encrypt_ready
    Evp.decrypt_start Evp.decrypt_ready Evp.seal Evp.unseal Ccm.encrypt_aes_ccm Ccm.decrypt_aes_ccm
    S.pure S.return_code S.attempt S.get_state S.◌>>=◌ S.send_data S.receive_data S.random_value
    S.wrap S.transmit S.send_message S.check_counter S.advance_received S.read_line_into W.store32
    W.load32 W.htonl W.sub64 W.widen Counter.increment_counter Counter.clear_vec LogoutM1.make
    LogoutM1.serialize LogoutAck.deserialize Messages.receive_packet Messages.receive_message
    Requests.logout Menu.stoi Menu.handle_menu_choice Menu.menu_round Menu.end_of_menu_round menu
    take drop replicate
left = refl

menu-Ahead_example : Ahead leaving (state_of (menu toy_platform 1 [] leaving))
menu-Ahead_example = menu-Ahead 1 [] leaving leaving-IsLive left

menu_endless_example : menu toy_platform 5 [] (toy_session [] blank) ≡ none
menu_endless_example = menu_endless 5 [] (toy_session [] blank) refl refl

abbrev names : List Buffer
names = (b'a' ∷ []) ∷ (b'b' ∷ b'c' ∷ []) ∷ []

names-IsListed : All IsListed names
names-IsListed = (
  record { not_empty = ground arith; no_comma = (omega arith, tt) },
  (record { not_empty = ground arith; no_comma = (omega arith, (omega arith, tt)) }, tt),
)

tokens-join_names_example : tokens (join_names [] names) ≡ names
tokens-join_names_example = tokens-join_names names names-IsListed
