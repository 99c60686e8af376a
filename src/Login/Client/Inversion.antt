-- ===== src/Login/Client/Inversion.antt =====
-- The steps of a login of the client in client/Client.cpp that goes on to succeed.
use foc_project.Prelude.{
  ◌≡◌, refl, sym, ap, ◌∙◌, true, not, Option, some, [], ◌∷◌, ◌==◌, length, ltb,
}
use foc_project.Memory.{Buffer, ok}
use foc_project.Packets.Codes.{max_username_length, max_password_length}
use foc_project.Security.Login.{
  max_ephemeral_public_key_size, cal_length_login_message_from_the_server, M3, deserialize_m3,
  serialize_m4,
}
use foc_project.Platform.{Platform}
use foc_project.Session.{
  Session, next, Exec, pure, ◌>>=◌, send_data, receive_data, random_value, read_line_into,
}
use foc_project.Session.Quiet.{
  Same, Quiet-send_data, Quiet-receive_data, Quiet-random_value, Quiet-read_line_into,
}
use foc_project.Session.Heard.{
  filled, receive_data-heard, send_data-left, random_value-left, read_line_into-left,
}
use foc_project.Login.Crypto.{Crypto}
use foc_project.Login.Ecdh.{
  ecdh_key_generation, serialize_pub_key, deserialize_public_key, derive_shared_secret,
}
use foc_project.Login.Digests.{
  compute_sha256_digest, generate_digital_signature, verify_digital_signature, load_private_key,
  read_bio_certificate, load_certificate, load_crl,
}
use foc_project.Login.Cbc.{encrypt_text_aes, decrypt_text_aes, generate_session_key}
use foc_project.Login.Steps.{set_username, set_session_key}
use foc_project.Login.Sizes.{receive_size, send_size}
use foc_project.Login.Sizes.Quiet.{Same-trans, Quiet-receive_size, Quiet-send_size}
use foc_project.Login.Sizes.Heard.{receive_size-heard, send_size-left}
use foc_project.Login.Inversion.{Won, attempt-Won, need-Won, Quiet-Won, guard-Won, check-Won}
use foc_project.Login.Client.{
  ca_cert_file, crl_file, verify_server_certificate, private_key_path, is_valid_line, check,
  name_user, announce, open_key, exchange, trust, agree, check_proof, send_proof,
}
use foc_project.Login.Client.Established.{Trusted, Derived}

module _ {P : Platform} (K : Crypto) (behind : Buffer → Buffer) where
  pub name_user-Won :
      (g : Buffer → Exec P (Unit {0})) (s t : Session P)
      → Won ((name_user P K behind >>= g) s) t
      → (name : Buffer) × (u : Session P) × (u.disk ≡ s.disk)
        × (s.received ≡ u.received)
        × Won (g name u) t
  unfolding name_user check set_username ◌>>=◌
  name_user-Won g s t h =
      let (line, u, e1, q, h1) =
        Quiet-Won (read_line_into P s.username) _ g s t (Quiet-read_line_into _ s) h in
      let u' : Session P = record u { username = line.1 } in
      let (e2, h2) =
        check-Won (is_valid_line max_username_length line.0 line.1) (λ _. pure P line.1) g u' t
          h1 in
      (line.1, u', q.disk, read_line_into-left s.username s u e1, h2)

  pub announce-Won :
      (name : Buffer) (g : Unit {0} → Exec P (Unit {0})) (s t : Session P)
      → Won ((announce P K behind name >>= g) s) t
      → (u : Session P) × Same s u
        × ((packet : Buffer) × (s.received ≡ some packet ∷ u.received))
        × Won (g tt u) t
  unfolding announce check ◌>>=◌
  announce-Won name g s t h =
      let (sized, v, e3, r, h3) =
        Quiet-Won (send_size P (length name)) _ g s t (Quiet-send_size _ s) h in
      let (e4, h4) = check-Won sized _ g v t h3 in
      let (sent, w, e5, r1, h5) = Quiet-Won (send_data P name) _ g v t (Quiet-send_data _ v) h4 in
      let (e6, h6) = check-Won sent _ g w t h5 in
      let (response, x, e7, r2, h7) =
        Quiet-Won (receive_size P) _ g w t (Quiet-receive_size w) h6 in
      let (answer, e8, h8) = need-Won response _ g x t h7 in
      let (e9, h9) = guard-Won (not (answer == 0)) g x t h8 in
      let (packet, came, n) = receive_size-heard w x (e7 ∙ ap (λ o. (next o, x)) e8) in
      (
        x,
        Same-trans r (Same-trans r1 r2),
        (packet, send_size-left (length name) s v e3 ∙ send_data-left name v w e5 ∙ came),
        h9,
      )

  pub open_key-Won :
      (g : K.Pkey → Exec P (Unit {0})) (s t : Session P)
      → Won ((open_key P K behind >>= g) s) t
      → (key : K.Pkey) × (u : Session P) × Same s u × (s.received ≡ u.received) × Won (g key u) t
  unfolding open_key check ◌>>=◌
  open_key-Won g s t h =
      let (typed, u, e1, q, h1) =
        Quiet-Won (read_line_into P []) _ g s t (Quiet-read_line_into _ s) h in
      let (e2, h2) = check-Won (is_valid_line max_password_length typed.0 typed.1) _ g u t h1 in
      let (key, e3, h3) =
        need-Won (load_private_key K P.files (private_key_path u.username) typed.1 u.disk) (pure P)
          g u t h2 in
      (key, u, q, read_line_into-left [] s u e1, h3)

  m3-heard :
      (v w : Session P) {received : Option Buffer} {bytes : Buffer} {m3 : M3}
      → receive_data P cal_length_login_message_from_the_server v ≡ (next received, w)
      → received ≡ some bytes
      → deserialize_m3 P.host bytes ≡ ok m3
      → (packet : Buffer) × (v.received ≡ some packet ∷ w.received)
        × (deserialize_m3 P.host (filled cal_length_login_message_from_the_server packet) ≡ ok m3)
  m3-heard v w e8 e9 e10 =
      let (packet, came, whole) = receive_data-heard _ v w (e8 ∙ ap (λ o. (next o, w)) e9) in
      (packet, came, ap (deserialize_m3 P.host) (sym whole) ∙ e10)

  pub exchange-Won :
      (g : K.Pkey × Buffer × M3 → Exec P (Unit {0})) (s t : Session P)
      → Won ((exchange P K behind >>= g) s) t
      → (own : K.Pkey) × (client_key : Buffer) × (m3 : M3) × (u : Session P) × Same s u
        × (ecdh_key_generation K ≡ some own)
        × (serialize_pub_key K own ≡ some client_key)
        × ((packet : Buffer) × (s.received ≡ some packet ∷ u.received)
            × (deserialize_m3 P.host (filled cal_length_login_message_from_the_server packet)
                ≡ ok m3))
        × Won (g (own, client_key, m3) u) t
  unfolding exchange check ◌>>=◌
  exchange-Won g s t h =
      let (own, made, h1) = need-Won (ecdh_key_generation K) _ g s t h in
      let (client_key, shown, h2) = need-Won (serialize_pub_key K own) _ g s t h1 in
      let (sized, u, e3, q, h3) =
        Quiet-Won (send_size P (length client_key)) _ g s t (Quiet-send_size _ s) h2 in
      let (e4, h4) = check-Won sized _ g u t h3 in
      let (sent, v, e5, r, h5) =
        Quiet-Won (send_data P client_key) _ g u t (Quiet-send_data _ u) h4 in
      let (e6, h6) = check-Won sent _ g v t h5 in
      let (received, w, e7, r', h7) =
        Quiet-Won (receive_data P cal_length_login_message_from_the_server) _ g v t
          (Quiet-receive_data _ v) h6 in
      let (bytes, e8, h8) = need-Won received _ g w t h7 in
      let (m3, e9, h9) = attempt-Won (deserialize_m3 P.host bytes) _ g w t h8 in
      let (packet, came, parts) = m3-heard v w e7 e8 e9 in
      (
        own,
        client_key,
        m3,
        w,
        Same-trans q (Same-trans r r'),
        made,
        shown,
        (
          packet,
          send_size-left (length client_key) s u e3 ∙ send_data-left client_key u v e5 ∙ came,
          parts,
        ),
        h9,
      )

  pub trust-Won :
      (bytes : Buffer) (g : K.Certificate → Exec P (Unit {0})) (s t : Session P)
      → Won ((trust P K behind bytes >>= g) s) t
      → (certificate : K.Certificate) × (read_bio_certificate K bytes ≡ some certificate)
        × Trusted P K certificate s.disk
        × Won (g certificate s) t
  unfolding trust check ◌>>=◌
  trust-Won bytes g s t h =
      let (certificate, e1, h1) = need-Won (read_bio_certificate K bytes) _ g s t h in
      let (ca_cert, loaded, h2) =
        need-Won (load_certificate K P.files ca_cert_file s.disk) _ g s t h1 in
      let (crl, listed, h3) = need-Won (load_crl K P.files crl_file s.disk) _ g s t h2 in
      let (verified, h4) =
        check-Won (verify_server_certificate K ca_cert crl certificate) _ g s t h3 in
      (
        certificate,
        e1,
        record {
          ca_cert = ca_cert;
          crl = crl;
          loaded = loaded;
          listed = listed;
          verified = verified;
        },
        h4,
      )

  pub agree-Won :
      (own : K.Pkey) (server_key client_key : Buffer) (g : Unit {0} → Exec P (Unit {0}))
      (s t : Session P)
      → ecdh_key_generation K ≡ some own
      → serialize_pub_key K own ≡ some client_key
      → Won ((agree P K behind own server_key >>= g) s) t
      → (u : Session P) × Derived K u.session_key server_key client_key
        × (s.received ≡ u.received)
        × Won (g tt u) t
  unfolding agree check set_session_key ◌>>=◌
  agree-Won own server_key client_key g s t made shown h =
      let (e1, h1) =
        check-Won (not (ltb max_ephemeral_public_key_size (length server_key))) _ g s t h in
      let (peer, read, h2) = need-Won (deserialize_public_key K server_key) _ g s t h1 in
      let (digest, hashed, h3) =
        need-Won (compute_sha256_digest K (derive_shared_secret K own peer).1) _ g s t h2 in
      let (key, cut, h4) =
        attempt-Won (generate_session_key K digest) (set_session_key P) g s t h3 in
      (
        record s { session_key = key },
        record {
          own = own;
          peer = peer;
          digest = digest;
          made = made;
          shown = shown;
          read = read;
          hashed = hashed;
          cut = cut;
        },
        refl,
        h4,
      )

  pub check_proof-Won :
      (keys : Buffer) (m3 : M3) (certificate : K.Certificate) (g : Unit {0} → Exec P (Unit {0}))
      (s t : Session P)
      → Won ((check_proof P K behind keys m3 certificate >>= g) s) t
      → (signature : Buffer) × (public_key : K.Pkey) × (K.certificate_key certificate
          ≡ some public_key)
        × (verify_digital_signature K keys signature public_key ≡ true)
        × (decrypt_text_aes K m3.cipher_text s.session_key m3.iv ≡ some signature)
        × Won (g tt s) t
  unfolding check_proof check ◌>>=◌
  check_proof-Won keys m3 certificate g s t h =
      let (plaintext, e1, h1) =
        need-Won (decrypt_text_aes K m3.cipher_text s.session_key m3.iv) _ g s t h in
      let (public_key, owner, h2) = need-Won (K.certificate_key certificate) _ g s t h1 in
      let (signed, h3) =
        guard-Won (verify_digital_signature K keys plaintext public_key) g s t h2 in
      (plaintext, public_key, owner, signed, e1, h3)

  pub send_proof-Won :
      (keys : Buffer) (prvkey : K.Pkey) (g : Unit {0} → Exec P (Unit {0})) (s t : Session P)
      → Won ((send_proof P K behind keys prvkey >>= g) s) t
      → (u : Session P) × Same s u × (s.received ≡ u.received) × Won (g tt u) t
  unfolding send_proof check ◌>>=◌
  send_proof-Won keys prvkey g s t h =
      let (signature, e1, h1) = need-Won (generate_digital_signature K keys prvkey) _ g s t h in
      let (random, u, e2, q, h2) = Quiet-Won (random_value P) _ g s t (Quiet-random_value s) h1 in
      let (text, e3, h3) =
        need-Won (encrypt_text_aes K signature s.session_key random) _ g u t h2 in
      let (message, e4, h4) = attempt-Won (serialize_m4 _ _) _ g u t h3 in
      let (sent, v, e5, r, h5) =
        Quiet-Won (send_data P message) _ g u t (Quiet-send_data message u) h4 in
      let (e6, h6) = guard-Won sent g v t h5 in
      (v, Same-trans q r, random_value-left s u e2 ∙ send_data-left message u v e5, h6)
