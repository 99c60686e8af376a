-- ===== src/Login/Client.antt =====
-- `Client::login` of client/Client.cpp, from the connection on.
pub mod Established
pub mod Inversion
pub mod Verified
use foc_project.Prelude.{
  ℕ, ◌+◌, Bool, true, false, not, ◌&&◌, Option, none, some, [], ◌∷◌, ◌++◌, ◌==◌, length, ltb,
  if◌then◌else◌,
}
use foc_project.Memory.{Buffer, Result}
use foc_project.Packets.Codes.{max_username_length, max_password_length}
use foc_project.Security.Login.{
  max_ephemeral_public_key_size, cal_length_login_message_from_the_server, M3, deserialize_m3,
  serialize_m4,
}
use foc_project.Files.FileSystem.{FileSystem}
use foc_project.Platform.{Platform}
use foc_project.Session.{
  Session, one, nil, Flow, next, Exec, pure, return_code, attempt, get_state, ◌>>=◌, ◌>>◌,
  send_data, receive_data, random_value, read_line_into,
}
use foc_project.Client.Messages.{is_empty}
use foc_project.Login.Crypto.{Crypto}
use foc_project.Login.Ecdh.{
  ecdh_key_generation, serialize_pub_key, deserialize_public_key, derive_shared_secret,
}
use foc_project.Login.Digests.{
  compute_sha256_digest, generate_digital_signature, verify_digital_signature, load_private_key,
  read_bio_certificate, load_certificate, load_crl,
}
use foc_project.Login.Cbc.{encrypt_text_aes, decrypt_text_aes, generate_session_key}
use foc_project.Login.Steps.{commons, vector, need, set_username, set_session_key}
use foc_project.Login.Sizes.{receive_size, send_size}

-- "../commons/" + username + "/key.pem"
abbrev pub private_key_path : Buffer → Buffer
private_key_path username =
    commons ++ (username ++ (b'/' ∷ b'k' ∷ b'e' ∷ b'y' ∷ b'.' ∷ b'p' ∷ b'e' ∷ b'm' ∷ []))

-- "Cloud Storage CA_"
abbrev authority : Buffer
authority =
    commons
    ++ (b'C' ∷ b'l' ∷ b'o' ∷ b'u' ∷ b'd' ∷ b' ' ∷ b'S' ∷ b't' ∷ b'o' ∷ b'r' ∷ b'a' ∷ b'g' ∷ b'e'
        ∷ b' ' ∷ b'C' ∷ b'A' ∷ b'_' ∷ [])

abbrev pub ca_cert_file : Buffer
ca_cert_file = authority ++ (b'c' ∷ b'e' ∷ b'r' ∷ b't' ∷ b'.' ∷ b'p' ∷ b'e' ∷ b'm' ∷ [])

abbrev pub crl_file : Buffer
crl_file = authority ++ (b'c' ∷ b'r' ∷ b'l' ∷ b'.' ∷ b'p' ∷ b'e' ∷ b'm' ∷ [])

-- A line that is there, not empty and not longer than `maximum`.
is_valid_line : ℕ → Bool → Buffer → Bool
is_valid_line maximum good line = good && not (is_empty line) && not (ltb maximum (length line))

unfoldable pub verify_server_certificate :
    (K : Crypto) → K.Certificate → K.Crl → K.Certificate → Bool
verify_server_certificate K ca_cert crl server_cert =
    let store = K.store_check_crl (K.store_add_crl crl (K.store_add_cert ca_cert K.store_new)) in
    K.verify_cert (K.store_ctx_init store server_cert)

module _ (P : Platform) (K : Crypto) (behind : Buffer → Buffer) where
  -- The end with 0 where a test fails.
  check : Bool → Exec P (Unit {0})
  check passed = if passed then pure P tt else return_code P nil

  -- The user name is typed.
  pub name_user : Exec P Buffer
  unfolding check
  name_user = do
    old ← get_state P
    (good, name) ← read_line_into P old.username
    set_username P name
    check (is_valid_line max_username_length good name)
    pure P name

  -- It is sent, and the server knows it.
  pub announce : Buffer → Exec P (Unit {0})
  unfolding check
  announce name = do
    sized ← send_size P (length name)
    check sized
    sent ← send_data P name
    check sent
    response ← receive_size P
    server_response ← need P response
    check (not (server_response == 0))

  -- The password is typed and opens the private key.
  pub open_key : Exec P K.Pkey
  unfolding check
  open_key = do
    (good, password) ← read_line_into P []
    check (is_valid_line max_password_length good password)
    s ← get_state P
    key ← need P (load_private_key K P.files (private_key_path s.username) password s.disk)
    pure P key

  -- The own key is sent, and M3 comes.
  pub exchange : Exec P (K.Pkey × Buffer × M3)
  unfolding check
  exchange = do
    own ← need P (ecdh_key_generation K)
    s_client_key ← need P (serialize_pub_key K own)
    sized ← send_size P (length s_client_key)
    check sized
    sent ← send_data P s_client_key
    check sent
    received ← receive_data P cal_length_login_message_from_the_server
    receive_buffer ← need P received
    m3 ← attempt P nil (deserialize_m3 P.host receive_buffer)
    pure P (own, s_client_key, m3)

  -- The certificate of the server is verified.
  pub trust : Buffer → Exec P K.Certificate
  unfolding check
  trust certificate_buffer = do
    server_cert ← need P (read_bio_certificate K certificate_buffer)
    s ← get_state P
    ca_cert ← need P (load_certificate K P.files ca_cert_file s.disk)
    crl ← need P (load_crl K P.files crl_file s.disk)
    check (verify_server_certificate K ca_cert crl server_cert)
    pure P server_cert

  -- The session key. The status of `deriveSharedSecret`, which is 0 or 1, is compared with -1.
  pub agree : K.Pkey → Buffer → Exec P (Unit {0})
  unfolding check
  agree own s_server_key = do
    check (not (ltb max_ephemeral_public_key_size (length s_server_key)))
    peer ← need P (deserialize_public_key K s_server_key)
    let derived = derive_shared_secret K own peer
    digest ← need P (compute_sha256_digest K derived.1)
    key ← attempt P nil (generate_session_key K digest)
    set_session_key P key

  -- The signature of the server is verified. A certificate without a key verifies nothing.
  pub check_proof : Buffer → M3 → K.Certificate → Exec P (Unit {0})
  unfolding check
  check_proof concatenated_keys m3 server_cert = do
    s ← get_state P
    plaintext ← need P (decrypt_text_aes K m3.cipher_text s.session_key m3.iv)
    server_public_key ← need P (K.certificate_key server_cert)
    check (verify_digital_signature K concatenated_keys plaintext server_public_key)

  -- M4 is sent.
  pub send_proof : Buffer → K.Pkey → Exec P (Unit {0})
  unfolding check
  send_proof concatenated_keys prvkey = do
    signature ← need P (generate_digital_signature K concatenated_keys prvkey)
    s ← get_state P
    random ← random_value P
    (cipher_text, iv) ← need P (encrypt_text_aes K signature s.session_key random)
    send_buffer ← attempt P nil (serialize_m4 (vector behind cipher_text) (vector behind iv))
    sent ← send_data P send_buffer
    check sent

  unfoldable pub login : Exec P (Unit {0})
  unfolding name_user announce open_key exchange trust agree check_proof send_proof is_valid_line
  login = do
    name ← name_user
    announce name
    prvkey ← open_key
    (own, s_client_key, m3) ← exchange
    server_cert ← trust m3.certificate
    agree own m3.key
    check_proof (m3.key ++ s_client_key) m3 server_cert
    send_proof (m3.key ++ s_client_key) prvkey
    return_code P one
