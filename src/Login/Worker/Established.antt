-- ===== src/Login/Worker/Established.antt =====
-- What is known of the session of a worker in server/worker.cpp whose login has succeeded.
use foc_project.Prelude.{◌+◌, ◌≡◌, true, some, ◌∷◌, ◌++◌}
use foc_project.Memory.{Buffer, ok}
use foc_project.Security.Login.{encrypted_signature_size, cbc_iv_length, deserialize_m4}
use foc_project.Platform.{Platform}
use foc_project.Session.{Session}
use foc_project.Session.Heard.{filled}
use foc_project.Login.Crypto.{Crypto}
use foc_project.Login.Ecdh.{
  ecdh_key_generation, serialize_pub_key, deserialize_public_key, derive_shared_secret,
}
use foc_project.Login.Digests.{compute_sha256_digest, verify_digital_signature, load_public_key}
use foc_project.Login.Cbc.{decrypt_text_aes, generate_session_key}
use foc_project.Login.Sizes.Heard.{size_in}
use foc_project.Login.Worker.{username_exists, public_key_path}

-- The session key is derived from the own key, whose public half is `server_key`, and from the key
-- that `client_key` holds.
pub record Agreed (K : Crypto) (session_key server_key client_key : Buffer) : Type 0 where
  pub own : K.Pkey
  pub peer : K.Pkey
  pub secret : Buffer
  pub digest : Buffer
  pub made : ecdh_key_generation K ≡ some own
  pub shown : serialize_pub_key K own ≡ some server_key
  pub read : deserialize_public_key K client_key ≡ some peer
  pub derived : derive_shared_secret K own peer ≡ (true, secret)
  pub hashed : compute_sha256_digest K secret ≡ some digest
  pub cut : generate_session_key K digest ≡ ok session_key

-- What the client sent: the sizes and the bytes of its name and of its key, and M4. The packets were
-- taken from the connection in this order, and nothing else was.
pub record Heard (P : Platform) (s t : Session P) (client_key message : Buffer) : Type 0 where
  pub name_size : Buffer
  pub name : Buffer
  pub key_size : Buffer
  pub key : Buffer
  pub m4 : Buffer
  pub came :
      s.received ≡ some name_size ∷ some name ∷ some key_size ∷ some key ∷ some m4 ∷ t.received
  pub user : t.username ≡ filled (size_in P name_size) name
  pub client : client_key ≡ filled (size_in P key_size) key
  pub last : message ≡ filled (encrypted_signature_size + cbc_iv_length) m4

-- What `message` holds under the session key is a signature of both public keys by the holder of the
-- key of `username`.
pub record Signed (P : Platform) (K : Crypto) (username keys session_key message : Buffer)
    (disk : P.files.State) : Type 0 where
  pub cipher_text : Buffer
  pub iv : Buffer
  pub signature : Buffer
  pub public_key : K.Pkey
  pub parts : deserialize_m4 message ≡ ok (cipher_text, iv)
  pub opened : decrypt_text_aes K cipher_text session_key iv ≡ some signature
  pub loaded : load_public_key K P.files (public_key_path username) disk ≡ some public_key
  pub verified : verify_digital_signature K keys signature public_key ≡ true

-- What is established: a user of the list, a session key that is derived from the own key and the one
-- that was received, and a signature of both by that user in the M4 that was received.
pub record Authentic (P : Platform) (K : Crypto) (s t : Session P) : Type 0 where
  pub server_key : Buffer
  pub client_key : Buffer
  pub message : Buffer
  pub heard : Heard P s t client_key message
  pub exists : username_exists t.username ≡ true
  pub agreed : Agreed K t.session_key server_key client_key
  pub signed : Signed P K t.username (server_key ++ client_key) t.session_key message s.disk
