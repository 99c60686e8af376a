-- ===== src/Login/Worker/Inversion.antt =====
-- The steps of a login of the worker in server/worker.cpp that goes on to succeed.
use foc_project.Prelude.{
  ℕ, ◌+◌, ◌≡◌, refl, ap, ◌∙◌, Bool, true, false, none, some, ◌∷◌, ◌++◌, ltb, arith, if◌then◌else◌,
}
use foc_project.Memory.{Buffer}
use foc_project.Packets.Codes.{max_username_length}
use foc_project.Security.Login.{
  encrypted_signature_size, cbc_iv_length, serialize_m3, deserialize_m4,
}
use foc_project.Platform.{Platform}
use foc_project.Session.{
  Session, Flow, next, returned, raised, faulted, exited, Exec, pure, ◌>>=◌, send_data,
  receive_data, random_value,
}
use foc_project.Session.Quiet.{Same, Quiet, Quiet-send_data, Quiet-receive_data, Quiet-random_value}
use foc_project.Session.Heard.{filled, receive_data-heard, send_data-left, random_value-left}
use foc_project.Login.Crypto.{Crypto}
use foc_project.Login.Ecdh.{
  ecdh_key_generation, serialize_pub_key, deserialize_public_key, derive_shared_secret,
}
use foc_project.Login.Digests.{
  compute_sha256_digest, generate_digital_signature, verify_digital_signature, load_private_key,
  load_public_key, read_certificate,
}
use foc_project.Login.Cbc.{encrypt_text_aes, decrypt_text_aes, generate_session_key}
use foc_project.Login.Sizes.{
  PeerKey, received_key, no_key, unset_key, receive_ephemeral_public_key, receive_size,
  receive_some, send_size,
}
use foc_project.Login.Sizes.Quiet.{
  Same-trans, Keyed, Keyed-receive, Quiet-receive_size, Quiet-receive_some, Quiet-send_size,
}
use foc_project.Login.Sizes.Heard.{
  size_in, receive_some-heard, receive_size-heard, send_size-left,
  receive_ephemeral_public_key-heard,
}
use foc_project.Login.Inversion.{Won, attempt-Won, need-Won, Quiet-Won, guard-Won, branch-Won}
use foc_project.Login.Steps.{set_username, set_session_key}
use foc_project.Login.Worker.{
  username_exists, public_key_path, receive_username, greet, keep_peer, keep_secret, agree,
  send_proof, check_proof,
}
use foc_project.Login.Worker.Established.{Agreed, Signed}

module _ {P : Platform} (K : Crypto) (behind : Buffer → Buffer) where
  secret-Won :
      {B : Type 0} (r : Bool × Buffer) (f : Buffer → Exec P B) (g : B → Exec P (Unit {0}))
      (s t : Session P)
      → Won (((keep_secret P K behind r >>= f) >>= g) s) t
      → (secret : Buffer) × (r ≡ (true, secret)) × Won ((f secret >>= g) s) t
  unfolding keep_secret ◌>>=◌
  secret-Won (true, secret) f g s t h = (secret, refl, h)
  secret-Won (false, secret) f g s t h = absurd (ground arith)

  peer-Won :
      {B : Type 0} (r : Flow (PeerKey K) × Session P) (f : K.Pkey × Buffer → Exec P B)
      (g : B → Exec P (Unit {0})) (s t : Session P)
      → Keyed K s r
      → Won (((λ (_ : Session P). r) >>= (λ peer. keep_peer P K behind peer >>= f) >>= g) s) t
      → (peer : K.Pkey) × (client_key : Buffer) × (u : Session P) × Same s u
        × (r ≡ (next (received_key peer client_key), u))
        × (deserialize_public_key K client_key ≡ some peer)
        × Won ((f (peer, client_key) >>= g) u) t
  unfolding keep_peer ◌>>=◌
  peer-Won (next (received_key key bytes), u) f g s t (q, e) h = (key, bytes, u, q, refl, e, h)
  peer-Won (next no_key, u) f g s t k h = absurd (ground arith)
  peer-Won (next unset_key, u) f g s t k h = absurd (ground arith)
  peer-Won (returned c, u) f g s t k h = absurd k
  peer-Won (raised, u) f g s t k h = absurd (ground arith)
  peer-Won (faulted, u) f g s t k h = absurd (ground arith)
  peer-Won (exited, u) f g s t k h = absurd (ground arith)

  pub agree-Won :
      (g : Buffer × Buffer → Exec P (Unit {0})) (s t : Session P)
      → Won ((agree P K behind >>= g) s) t
      → (server_key : Buffer) × (client_key : Buffer) × (u : Session P) × Agreed K u.session_key
          server_key client_key
        × (u.username ≡ s.username)
        × (u.disk ≡ s.disk)
        × ((size : Buffer) × (packet : Buffer) × (s.received ≡ some size ∷ some packet ∷ u.received)
            × (client_key ≡ filled (size_in P size) packet))
        × Won (g (server_key, server_key ++ client_key) u) t
  unfolding agree set_session_key ◌>>=◌
  agree-Won g s t h =
      let (peer, client_key, u, q, received, read, h1) =
        peer-Won (receive_ephemeral_public_key P K s) _ g s t (Keyed-receive K s) h in
      let (own, made, h2) = need-Won (ecdh_key_generation K) _ g u t h1 in
      let (server_key, shown, h3) = need-Won (serialize_pub_key K own) _ g u t h2 in
      let (secret, derived, h4) = secret-Won (derive_shared_secret K own peer) _ g u t h3 in
      let (digest, hashed, h5) = need-Won (compute_sha256_digest K secret) _ g u t h4 in
      let (key, cut, h6) = attempt-Won (generate_session_key K digest) _ g u t h5 in
      (
        server_key,
        client_key,
        record u { session_key = key },
        record {
          own = own;
          peer = peer;
          secret = secret;
          digest = digest;
          made = made;
          shown = shown;
          read = read;
          derived = derived;
          hashed = hashed;
          cut = cut;
        },
        q.user,
        q.disk,
        receive_ephemeral_public_key-heard K s u received,
        h6,
      )

  -- M3 is sent.
  pub send_proof-Won :
      (server_key keys : Buffer) (g : Unit {0} → Exec P (Unit {0})) (s t : Session P)
      → Won ((send_proof P K behind server_key keys >>= g) s) t
      → (u : Session P) × Same s u × (s.received ≡ u.received) × Won (g tt u) t
  unfolding send_proof ◌>>=◌
  send_proof-Won server_key keys g s t h =
      let (private_key, e1, h1) = need-Won (load_private_key K P.files _ _ s.disk) _ g s t h in
      let (signature, e2, h2) =
        need-Won (generate_digital_signature K keys private_key) _ g s t h1 in
      let (random, u, e3, q, h3) = Quiet-Won (random_value P) _ g s t (Quiet-random_value s) h2 in
      let (text, e4, h4) =
        need-Won (encrypt_text_aes K signature s.session_key random) _ g u t h3 in
      let (certif, e5, h5) = need-Won (read_certificate K P.files _ s.disk) _ g u t h4 in
      let (message, e6, h6) = attempt-Won (serialize_m3 P.host _ _ _ _) _ g u t h5 in
      let (sent, v, e7, r, h7) =
        Quiet-Won (send_data P message) _ g u t (Quiet-send_data message u) h6 in
      let (e8, h8) = guard-Won sent g v t h7 in
      (v, Same-trans q r, random_value-left s u e3 ∙ send_data-left message u v e7, h8)

  pub check_proof-Won :
      (keys : Buffer) (g : Unit {0} → Exec P (Unit {0})) (s t : Session P)
      → Won ((check_proof P K behind keys >>= g) s) t
      → (u : Session P) × (message : Buffer) × Same s u
        × ((packet : Buffer) × (s.received ≡ some packet ∷ u.received)
            × (message ≡ filled (encrypted_signature_size + cbc_iv_length) packet))
        × Signed P K u.username keys u.session_key message u.disk
        × Won (g tt u) t
  unfolding check_proof ◌>>=◌
  check_proof-Won keys g s t h =
      let (received, u, e1, q, h1) =
        Quiet-Won (receive_data P (encrypted_signature_size + cbc_iv_length)) _ g s t
          (Quiet-receive_data _ s) h in
      let (bytes, e2, h2) = need-Won received _ g u t h1 in
      let (text, e3, h3) = attempt-Won (deserialize_m4 bytes) _ g u t h2 in
      let (plaintext, e4, h4) =
        need-Won (decrypt_text_aes K text.0 u.session_key text.1) _ g u t h3 in
      let (public_key, loaded, h5) =
        need-Won (load_public_key K P.files (public_key_path u.username) u.disk) _ g u t h4 in
      let (verified, h6) =
        guard-Won (verify_digital_signature K keys plaintext public_key) g u t h5 in
      (
        u,
        bytes,
        q,
        receive_data-heard _ s u (e1 ∙ ap (λ r. (next r, u)) e2),
        record {
          cipher_text = text.0;
          iv = text.1;
          signature = plaintext;
          public_key = public_key;
          parts = e3;
          opened = e4;
          loaded = loaded;
          verified = verified;
        },
        h6,
      )

  Quiet-bounded :
      (b : Bool) (n : ℕ) (s : Session P) → Quiet s ((if b then pure P none else receive_some P n) s)
  unfolding pure
  Quiet-bounded true n s = record { user = refl; key = refl; disk = refl }
  Quiet-bounded false n s = Quiet-receive_some n s

  bounded-heard :
      (b : Bool) (n : ℕ) (s u : Session P) {bytes : Buffer}
      → (if b then pure P none else receive_some P n) s ≡ (next (some bytes), u)
      → (packet : Buffer) × (s.received ≡ some packet ∷ u.received) × (bytes ≡ filled n packet)
  unfolding pure
  bounded-heard true n s u h = absurd (ground arith)
  bounded-heard false n s u h = receive_some-heard n s u h

  pub receive_username-Won :
      (g : Buffer → Exec P (Unit {0})) (s t : Session P)
      → Won ((receive_username P K behind >>= g) s) t
      → (name : Buffer) × (u : Session P) × (u.username ≡ name)
        × (u.disk ≡ s.disk)
        × ((size : Buffer) × (packet : Buffer) × (s.received ≡ some size ∷ some packet ∷ u.received)
            × (name ≡ filled (size_in P size) packet))
        × Won (g name u) t
  unfolding receive_username set_username ◌>>=◌
  receive_username-Won g s t h =
      let (size, u, e1, q, h1) = Quiet-Won (receive_size P) _ g s t (Quiet-receive_size s) h in
      let (length', e2, h2) = need-Won size _ g u t h1 in
      let (received, v, e3, r, h3) =
        Quiet-Won (if ltb max_username_length length' then pure P none else receive_some P length')
          _ g u t (Quiet-bounded (ltb max_username_length length') length' u) h2 in
      let (name, e4, h4) = need-Won received _ g v t h3 in
      let (size_packet, announced, e5) = receive_size-heard s u (e1 ∙ ap (λ x. (next x, u)) e2) in
      let (packet, came, e6) =
        bounded-heard (ltb max_username_length length') length' u v
          (e3 ∙ ap (λ x. (next x, v)) e4) in
      (
        name,
        record v { username = name },
        refl,
        r.disk ∙ q.disk,
        (
          size_packet,
          packet,
          announced ∙ ap (λ x. some size_packet ∷ x) came,
          e6 ∙ ap (λ n. filled n packet) e5,
        ),
        h4,
      )

  pub greet-Won :
      (name : Buffer) (g : Unit {0} → Exec P (Unit {0})) (s t : Session P)
      → Won ((greet P K behind name >>= g) s) t
      → (u : Session P) × Same s u
        × (s.received ≡ u.received)
        × (username_exists name ≡ true)
        × Won (g tt u) t
  unfolding greet ◌>>=◌
  greet-Won name g s t h =
      let (sent, u, e1, q, h1) = Quiet-Won (send_size P _) _ g s t (Quiet-send_size _ s) h in
      let (e2, h2) = branch-Won sent _ g u t h1 in
      let (exists, h3) = guard-Won (username_exists name) g u t h2 in
      (u, q, send_size-left _ s u e1, exists, h3)
