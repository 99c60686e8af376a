-- ===== src/Login/Worker.antt =====
-- `Worker::login` of server/worker.cpp.
pub mod Established
pub mod Inversion
pub mod Authentic
use foc_project.Prelude.{
  ℕ, ◌+◌, Bool, true, false, Option, none, some, List, [], ◌∷◌, ◌++◌, ◌==◌, ltb, if◌then◌else◌,
}
use foc_project.Memory.{Buffer, Result, or_failed}
use foc_project.Packets.Codes.{max_username_length, username_list}
use foc_project.Security.Login.{
  Vector, encrypted_signature_size, cbc_iv_length, serialize_m3, deserialize_m4,
}
use foc_project.Platform.{Platform}
use foc_project.Session.{
  Session, Code, one, nil, Flow, next, faulted, Exec, pure, return_code, attempt, get_state, ◌>>=◌,
  ◌>>◌, send_data, receive_data, random_value,
}
use foc_project.Login.Crypto.{Crypto}
use foc_project.Login.Ecdh.{ecdh_key_generation, serialize_pub_key, derive_shared_secret}
use foc_project.Login.Digests.{
  compute_sha256_digest, generate_digital_signature, verify_digital_signature, load_private_key,
  load_public_key, read_certificate,
}
use foc_project.Login.Cbc.{encrypt_text_aes, decrypt_text_aes, generate_session_key}
use foc_project.Login.Steps.{commons, vector, need, set_username, set_session_key}
use foc_project.Login.Sizes.{
  PeerKey, received_key, no_key, unset_key, receive_size, send_size, receive_some,
  receive_ephemeral_public_key,
}

same : Buffer → Buffer → Bool
same [] [] = true
same [] (y ∷ ys) = false
same (x ∷ xs) [] = false
same (x ∷ xs) (y ∷ ys) = let rest = same xs ys in if x == y then rest else false

username_in : Buffer → List Buffer → Bool
unfolding same
username_in name [] = false
username_in name (user ∷ users) =
    let rest = username_in name users in if same name user then true else rest

-- The loop over `username_list`.
unfoldable pub username_exists : Buffer → Bool
unfolding username_in
username_exists name = username_in name username_list

-- "server_private_key.pem" and its password "root", "Cloud_Storage_Server_cert.pem"
abbrev pub server_key_path : Buffer
server_key_path =
    commons
    ++ (b's' ∷ b'e' ∷ b'r' ∷ b'v' ∷ b'e' ∷ b'r' ∷ b'_' ∷ b'p' ∷ b'r' ∷ b'i' ∷ b'v' ∷ b'a' ∷ b't'
        ∷ b'e' ∷ b'_' ∷ b'k' ∷ b'e' ∷ b'y' ∷ b'.' ∷ b'p' ∷ b'e' ∷ b'm' ∷ [])

abbrev pem_pass : Buffer
pem_pass = b'r' ∷ b'o' ∷ b'o' ∷ b't' ∷ []

abbrev pub server_certificate_path : Buffer
server_certificate_path =
    commons
    ++ (b'C' ∷ b'l' ∷ b'o' ∷ b'u' ∷ b'd' ∷ b'_' ∷ b'S' ∷ b't' ∷ b'o' ∷ b'r' ∷ b'a' ∷ b'g' ∷ b'e'
        ∷ b'_' ∷ b'S' ∷ b'e' ∷ b'r' ∷ b'v' ∷ b'e' ∷ b'r' ∷ b'_' ∷ b'c' ∷ b'e' ∷ b'r' ∷ b't' ∷ b'.'
        ∷ b'p' ∷ b'e' ∷ b'm' ∷ [])

-- "../commons/" + username + "/public.pem"
abbrev pub public_key_path : Buffer → Buffer
public_key_path username =
    commons
    ++ (username
        ++ (b'/' ∷ b'p' ∷ b'u' ∷ b'b' ∷ b'l' ∷ b'i' ∷ b'c' ∷ b'.' ∷ b'p' ∷ b'e' ∷ b'm' ∷ []))

-- `behind` gives what the heap holds behind a vector.
module _ (P : Platform) (K : Crypto) (behind : Buffer → Buffer) where
  pub receive_username : Exec P Buffer
  receive_username = do
    size ← receive_size P
    username_length ← need P size
    received ←
        if ltb max_username_length username_length
        then pure P none
        else receive_some P username_length
    name ← need P received
    set_username P name
    pure P name

  pub greet : Buffer → Exec P (Unit {0})
  greet name = do
    sent ← send_size P (if username_exists name then 1 else 0)
    if sent
        then (if username_exists name then pure P tt else return_code P nil)
        else return_code P nil

  -- Where no key comes, `EVP_PKEY_free` is called with what the pointer holds.
  pub keep_peer : PeerKey K → Exec P (K.Pkey × Buffer)
  keep_peer (received_key key serialized_key) = pure P (key, serialized_key)
  keep_peer no_key = return_code P nil
  keep_peer unset_key = λ s. (faulted, s)

  pub keep_secret : Bool × Buffer → Exec P Buffer
  keep_secret (true, secret) = pure P secret
  keep_secret (false, secret) = return_code P nil

  -- The session key, and the two public keys as they are signed.
  pub agree : Exec P (Buffer × Buffer)
  unfolding keep_peer keep_secret
  agree = do
    peer ← receive_ephemeral_public_key P K
    (client_key, s_client_key) ← keep_peer peer
    server_key ← need P (ecdh_key_generation K)
    s_server_key ← need P (serialize_pub_key K server_key)
    secret ← keep_secret (derive_shared_secret K server_key client_key)
    digest ← need P (compute_sha256_digest K secret)
    key ← attempt P nil (generate_session_key K digest)
    set_session_key P key
    pure P (s_server_key, s_server_key ++ s_client_key)

  -- The signature of both keys, under the session key, with the certificate: M3.
  pub send_proof : Buffer → Buffer → Exec P (Unit {0})
  send_proof s_server_key concatenated_keys = do
    s ← get_state P
    server_private_key ← need P (load_private_key K P.files server_key_path pem_pass s.disk)
    signature ← need P (generate_digital_signature K concatenated_keys server_private_key)
    random ← random_value P
    (cipher_text, iv) ← need P (encrypt_text_aes K signature s.session_key random)
    certif ← need P (read_certificate K P.files server_certificate_path s.disk)
    send_buffer ← attempt P nil (
        serialize_m3 P.host (vector behind s_server_key) (vector behind cipher_text)
          (vector behind iv) (vector behind certif))
    sent ← send_data P send_buffer
    if sent then pure P tt else return_code P nil

  -- The signature of the client, M4, which is verified with the public key of the user.
  pub check_proof : Buffer → Exec P (Unit {0})
  check_proof concatenated_keys = do
    received ← receive_data P (encrypted_signature_size + cbc_iv_length)
    receive_buffer ← need P received
    (cipher_text, iv) ← attempt P nil (deserialize_m4 receive_buffer)
    s ← get_state P
    plaintext ← need P (decrypt_text_aes K cipher_text s.session_key iv)
    client_public_key ← need P (load_public_key K P.files (public_key_path s.username) s.disk)
    if verify_digital_signature K concatenated_keys plaintext client_public_key
        then pure P tt
        else return_code P nil

  unfoldable pub login : Exec P (Unit {0})
  unfolding receive_username greet agree send_proof check_proof
  login = do
    name ← receive_username
    greet name
    (s_server_key, concatenated_keys) ← agree
    send_proof s_server_key concatenated_keys
    check_proof concatenated_keys
    return_code P one
