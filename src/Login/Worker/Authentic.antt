-- ===== src/Login/Worker/Authentic.antt =====
-- What a login of the worker in server/worker.cpp that succeeds has established.
use foc_project.Prelude.{◌≡◌, sym, ap, subst, ◌∙◌, true, some, ◌∷◌, ◌++◌}
use foc_project.Memory.{Buffer}
use foc_project.Platform.{Platform}
use foc_project.Session.{Session, one, returned, return_code, ◌>>=◌}
use foc_project.Session.Quiet.{Same}
use foc_project.Login.Crypto.{Crypto}
use foc_project.Login.Sizes.Quiet.{Same-trans}
use foc_project.Login.Inversion.{Won}
use foc_project.Login.Worker.{username_exists, login}
use foc_project.Login.Worker.Established.{Agreed, Heard, Signed, Authentic}
use foc_project.Login.Worker.Inversion.{
  agree-Won, send_proof-Won, check_proof-Won, receive_username-Won, greet-Won,
}

module _ {P : Platform} (K : Crypto) (behind : Buffer → Buffer) where
  conclude :
      (s s1 s2 s3 s5 t : Session P) (name server_key client_key message : Buffer)
      → s1.username ≡ name
      → s1.disk ≡ s.disk
      → Same s1 s2
      → username_exists name ≡ true
      → Agreed K s3.session_key server_key client_key
      → s3.username ≡ s2.username
      → s3.disk ≡ s2.disk
      → Same s3 s5
      → Heard P s (record s5 { username = name }) client_key message
      → Signed P K s5.username (server_key ++ client_key) s5.session_key message s5.disk
      → Won (return_code P one s5) t
      → Authentic P K s t
  unfolding return_code
  conclude s s1 s2 s3 s5 t name server_key client_key message user d1 q2 exists agreed u3 d3 q heard
        signed h =
      let last : s5 ≡ t = ap (λ r. r.1) h in
      let named : s5.username ≡ name = q.user ∙ u3 ∙ q2.user ∙ user in
      let disk : s5.disk ≡ s.disk = q.disk ∙ d3 ∙ q2.disk ∙ d1 in
      subst (λ u. Authentic P K s u) last
        (record {
          server_key = server_key;
          client_key = client_key;
          message = message;
          heard = record {
            name_size = heard.name_size;
            name = heard.name;
            key_size = heard.key_size;
            key = heard.key;
            m4 = heard.m4;
            came = heard.came;
            user = named ∙ heard.user;
            client = heard.client;
            last = heard.last;
          };
          exists = ap username_exists named ∙ exists;
          agreed = subst (λ key. Agreed K key server_key client_key) (sym q.key) agreed;
          signed =
              subst
                (λ d. Signed P K s5.username (server_key ++ client_key) s5.session_key message d)
                disk signed;
        })

  -- A login of the worker that returns 1 took five packets: a size and a name, a size and a key,
  -- and M4. It ends with that name as the user name, which is one of the list, with a session key
  -- cut from the digest of the secret that its own key and the key that was received derive, and
  -- with a signature of both public keys, its own first, that M4 held under that session key and
  -- that was verified with the public key in the folder of that user.
  pub login-Authentic :
      (s t : Session P) → login P K behind s ≡ (returned one, t) → Authentic P K s t
  unfolding login ◌>>=◌
  login-Authentic s t h =
      let (name, s1, user, d1, (name_size, name_packet, came1, named), h1) =
        receive_username-Won K behind _ s t h in
      let (s2, q2, came2, exists, h2) = greet-Won K behind name _ s1 t h1 in
      let (server_key, client_key, s3, agreed, u3, d3, (key_size, key, came3, client), h3) =
        agree-Won K behind _ s2 t h2 in
      let (s4, q4, came4, h4) =
        send_proof-Won K behind server_key (server_key ++ client_key) _ s3 t h3 in
      let (s5, message, q5, (m4, came5, last), signed, h5) =
        check_proof-Won K behind (server_key ++ client_key) _ s4 t h4 in
      let heard : Heard P s (record s5 { username = name }) client_key message = record {
        name_size = name_size;
        name = name_packet;
        key_size = key_size;
        key = key;
        m4 = m4;
        came =
            came1
            ∙ ap (λ x. some name_size ∷ some name_packet ∷ x)
                (came2 ∙ came3 ∙ ap (λ x. some key_size ∷ some key ∷ x) (came4 ∙ came5));
        user = named;
        client = client;
        last = last;
      } in
      conclude s s1 s2 s3 s5 t name server_key client_key message user d1 q2 exists agreed u3 d3
        (Same-trans q4 q5) heard signed h5
