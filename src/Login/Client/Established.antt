-- ===== src/Login/Client/Established.antt =====
-- What is known of the session of a client in client/Client.cpp whose login has succeeded.
use foc_project.Prelude.{◌≡◌, true, some, ◌∷◌, ◌++◌}
use foc_project.Memory.{Buffer, ok}
use foc_project.Security.Login.{cal_length_login_message_from_the_server, M3, deserialize_m3}
use foc_project.Platform.{Platform}
use foc_project.Session.{Session}
use foc_project.Session.Heard.{filled}
use foc_project.Login.Crypto.{Crypto}
use foc_project.Login.Ecdh.{
  ecdh_key_generation, serialize_pub_key, deserialize_public_key, derive_shared_secret,
}
use foc_project.Login.Digests.{
  compute_sha256_digest, verify_digital_signature, read_bio_certificate, load_certificate, load_crl,
}
use foc_project.Login.Cbc.{decrypt_text_aes, generate_session_key}
use foc_project.Login.Client.{ca_cert_file, crl_file, verify_server_certificate}

-- The certificate is one that the authority on the disk vouches for.
pub record Trusted (P : Platform) (K : Crypto) (certificate : K.Certificate) (disk : P.files.State)
    : Type 0 where
  pub ca_cert : K.Certificate
  pub crl : K.Crl
  pub loaded : load_certificate K P.files ca_cert_file disk ≡ some ca_cert
  pub listed : load_crl K P.files crl_file disk ≡ some crl
  pub verified : verify_server_certificate K ca_cert crl certificate ≡ true

-- The session key comes from the own key, whose public half is `client_key`, and from the key that
-- `server_key` holds: it is cut from the digest of what the derivation left.
pub record Derived (K : Crypto) (session_key server_key client_key : Buffer) : Type 0 where
  pub own : K.Pkey
  pub peer : K.Pkey
  pub digest : Buffer
  pub made : ecdh_key_generation K ≡ some own
  pub shown : serialize_pub_key K own ≡ some client_key
  pub read : deserialize_public_key K server_key ≡ some peer
  pub hashed : compute_sha256_digest K (derive_shared_secret K own peer).1 ≡ some digest
  pub cut : generate_session_key K digest ≡ ok session_key

-- What the server sent: the answer to the name, and M3. The packets were taken from the connection in
-- this order, and nothing else was.
pub record Heard (P : Platform) (s t : Session P) (m3 : M3) : Type 0 where
  pub answer : Buffer
  pub packet : Buffer
  pub came : s.received ≡ some answer ∷ some packet ∷ t.received
  pub parts : deserialize_m3 P.host (filled cal_length_login_message_from_the_server packet) ≡ ok m3

-- What is established of the M3 that was received: its certificate is trusted, and its ciphertext holds,
-- under the session key, a signature of both public keys by the owner of the certificate.
pub record Verified (P : Platform) (K : Crypto) (s t : Session P) : Type 0 where
  pub m3 : M3
  pub heard : Heard P s t m3
  pub client_key : Buffer
  pub certificate : K.Certificate
  pub public_key : K.Pkey
  pub signature : Buffer
  pub read : read_bio_certificate K m3.certificate ≡ some certificate
  pub opened : decrypt_text_aes K m3.cipher_text t.session_key m3.iv ≡ some signature
  pub trusted : Trusted P K certificate s.disk
  pub owner : K.certificate_key certificate ≡ some public_key
  pub signed : verify_digital_signature K (m3.key ++ client_key) signature public_key ≡ true
  pub derived : Derived K t.session_key m3.key client_key
