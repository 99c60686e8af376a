-- ===== src/Tests/Ready.antt =====
-- Messages of the toy session that can be sent, and packets that come to it.
use foc_project.Prelude.{
  ℕ, ◌<◌, ◌≤◌, ◌^◌, ◌≡◌, refl, ap, ◌∙◌, Option, some, List, [], ◌∷◌, ◌++◌, arith, length,
  length-append,
}
use foc_project.Memory.{Buffer, ok, or_failed, zeros}
use foc_project.Words.{little, htonl, store32}
use foc_project.Words.Laws.{length-store32}
use foc_project.Memory.Laws.{length-zeros}
use foc_project.Security.Evp.{tag_length}
use foc_project.Security.Ccm.{encrypt_aes_ccm}
use foc_project.Security.Ccm.Laws.{encrypt_aes_ccm_lem}
use foc_project.Packets.Codes.{counter_max_value}
use foc_project.Packets.Wrapper
use foc_project.Packets.Wrapper.Laws as WrapperLaws
use foc_project.Session.{Session}
use foc_project.Session.Delivery.{Ready}
use foc_project.Session.Arrival.{Arrives}
use foc_project.Tests.Toy.{toy_evp, toy-IsCcm, toy_platform, toy_seal}

pub toy_sealed :
    (key iv aad clear : Buffer)
    → 2 ≡ length key
    → 2 ≡ length iv
    → length clear < 2 ^ 20
    → encrypt_aes_ccm toy_evp clear key iv aad ≡ ok (clear, zeros tag_length)
toy_sealed key iv aad clear k i small =
    encrypt_aes_ccm_lem toy_evp toy-IsCcm key iv aad k i clear (omega arith)
    ∙ ap or_failed (toy_seal key iv aad clear)

pub toy_Fits :
    (counter : ℕ) (key iv payload : Buffer)
    → counter < counter_max_value
    → 2 ≡ length key
    → 2 ≡ length iv
    → length payload < 2 ^ 20
    → WrapperLaws.Fits toy_evp (Wrapper.make key counter payload) iv
unfolding Wrapper.make
toy_Fits counter key iv payload c k i small = record {
  counter_lt = omega (arith, c);
  key_length = k;
  iv_length = i;
  iv_small = omega arith;
  pt_small = omega arith;
}

toy_whole : (n : ℕ) → n < 2 ^ 20 → Wrapper.get_size little toy_evp n ≤ 2_000_000
unfolding Wrapper.get_size
toy_whole n small = omega (arith, small)

pub toy_Ready :
    (s : Session toy_platform) (payload iv : Buffer) (randoms : List (Option Buffer))
    (accepts : List (Option ℕ))
    → s.random ≡ some iv ∷ randoms
    → s.accepted ≡ some 2_000_000 ∷ accepts
    → s.s_counter < counter_max_value
    → 2 ≡ length s.session_key
    → 2 ≡ length iv
    → length payload < 2 ^ 20
    → Ready s payload
toy_Ready s payload iv randoms accepts r a c k i small = record {
  iv = iv;
  randoms = randoms;
  room = 2_000_000;
  accepts = accepts;
  cipher = payload;
  tag = zeros tag_length;
  random = r;
  accepted = a;
  whole = toy_whole (length payload) small;
  counter = c;
  fits = toy_Fits s.s_counter s.session_key iv payload c k i small;
  sealed = toy_sealed s.session_key iv _ payload k i small;
}

-- The packet that the client makes.
abbrev pub toy_packet : ℕ → Buffer → Buffer
toy_packet counter payload =
    (7 ∷ 8 ∷ []) ++ (store32 little (htonl little counter) ++ (payload ++ zeros tag_length))

pub toy_opens :
    (counter : ℕ) (key payload : Buffer)
    → counter < counter_max_value
    → 2 ≡ length key
    → length payload < 2 ^ 20
    → Wrapper.deserialize little toy_evp key (toy_packet counter payload)
      ≡ ok (Wrapper.make key counter payload)
unfolding Wrapper.make
toy_opens counter key payload c k small =
    WrapperLaws.deserialize_lem little toy_evp toy-IsCcm (Wrapper.make key counter payload)
      (7 ∷ 8 ∷ []) (toy_Fits counter key (7 ∷ 8 ∷ []) payload c k refl small)
      (toy_sealed key (7 ∷ 8 ∷ []) _ payload k refl small)

unfoldable pub toy_Arrives :
    (s : Session toy_platform) (payload : Buffer) (rest : List (Option Buffer))
    → s.received ≡ some (toy_packet s.r_counter payload) ∷ rest
    → s.r_counter < counter_max_value
    → 2 ≡ length s.session_key
    → length payload < 2 ^ 20
    → Arrives s payload
unfolding Wrapper.get_size
toy_Arrives s payload rest r c k small = record {
  packet = toy_packet s.r_counter payload;
  rest = rest;
  received = r;
  opens = toy_opens s.r_counter s.session_key payload c k small;
  size = omega (
    arith,
    length-append (store32 little (htonl little s.r_counter)) (payload ++ zeros tag_length),
    length-store32 little (htonl little s.r_counter),
    length-append payload (zeros tag_length),
    length-zeros tag_length,
  );
  counter = c;
}
