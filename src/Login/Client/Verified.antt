-- ===== src/Login/Client/Verified.antt =====
-- What a login of the client in client/Client.cpp that succeeds has established.
use foc_project.Prelude.{◌≡◌, sym, ap, subst, ◌∙◌, some, ◌∷◌, ◌++◌}
use foc_project.Memory.{Buffer}
use foc_project.Platform.{Platform}
use foc_project.Session.{Session, one, returned, return_code, ◌>>=◌}
use foc_project.Login.Crypto.{Crypto}
use foc_project.Login.Cbc.{decrypt_text_aes}
use foc_project.Login.Inversion.{Won}
use foc_project.Login.Client.{exchange, trust, agree, check_proof, send_proof, login}
use foc_project.Login.Client.Established.{Trusted, Derived, Verified}
use foc_project.Login.Client.Inversion.{
  name_user-Won, announce-Won, open_key-Won, exchange-Won, trust-Won, agree-Won, check_proof-Won,
  send_proof-Won,
}

module _ {P : Platform} (K : Crypto) (behind : Buffer → Buffer) where
  -- All but what came before the exchange.
  rest-Won :
      (prvkey : K.Pkey) (s s1 t : Session P) (answer : Buffer)
      → s1.disk ≡ s.disk
      → s.received ≡ some answer ∷ s1.received
      → Won
          ((exchange P K behind >>= λ x. trust P K behind x.2.certificate >>= λ server_cert.
              agree P K behind x.0 x.2.key >>= λ _.
              check_proof P K behind (x.2.key ++ x.1) x.2 server_cert >>= λ _.
              send_proof P K behind (x.2.key ++ x.1) prvkey >>= λ _. return_code P one)
            s1)
          t
      → Verified P K s t
  unfolding return_code
  rest-Won prvkey s s1 t answer disk first h =
      let (own, client_key, m3, s2, q, made, shown, (packet, came, parts), h1) =
        exchange-Won K behind _ s1 t h in
      let (certificate, read, trusted, h2) = trust-Won K behind m3.certificate _ s2 t h1 in
      let (s3, derived, left, h3) = agree-Won K behind own m3.key client_key _ s2 t made shown h2 in
      let (signature, public_key, owner, signed, opened, h4) =
        check_proof-Won K behind (m3.key ++ client_key) m3 certificate _ s3 t h3 in
      let (s4, q4, left', h5) = send_proof-Won K behind (m3.key ++ client_key) prvkey _ s3 t h4 in
      let last : s4 ≡ t = ap (λ r. r.1) h5 in
      let key : s3.session_key ≡ t.session_key = sym q4.key ∙ ap (λ u. u.session_key) last in
      record {
        m3 = m3;
        heard = record {
          answer = answer;
          packet = packet;
          came =
              first
              ∙ ap (λ xs. some answer ∷ xs)
                  (came ∙ ap (λ xs. some packet ∷ xs) (left ∙ left' ∙ ap (λ u. u.received) last));
          parts = parts;
        };
        client_key = client_key;
        certificate = certificate;
        public_key = public_key;
        signature = signature;
        read = read;
        opened = subst (λ k. decrypt_text_aes K m3.cipher_text k m3.iv ≡ some signature) key opened;
        trusted = subst (λ d. Trusted P K certificate d) (q.disk ∙ disk) trusted;
        owner = owner;
        signed = signed;
        derived = subst (λ k. Derived K k m3.key client_key) key derived;
      }

  -- A login of the client that returns 1 took two packets, the answer to the name and M3. It has
  -- verified the certificate of M3 against the authority and the revocation list on its disk, and
  -- with the key of that certificate a signature of both public keys, the server's first, that
  -- the ciphertext of M3 held under the session key; the session key is cut from the digest of
  -- what the derivation from its own key and the server's key in M3 left, whether or not the
  -- derivation succeeded.
  pub login-Verified : (s t : Session P) → login P K behind s ≡ (returned one, t) → Verified P K s t
  unfolding login ◌>>=◌
  login-Verified s t h =
      let (name, s1, d1, left, h1) = name_user-Won K behind _ s t h in
      let (s2, q2, (answer, came), h2) = announce-Won K behind name _ s1 t h1 in
      let (prvkey, s3, q3, left', h3) = open_key-Won K behind _ s2 t h2 in
      rest-Won prvkey s s3 t answer (q3.disk ∙ q2.disk ∙ d1)
        (left ∙ came ∙ ap (λ xs. some answer ∷ xs) left') h3
