-- ===== src/Tests/Login.antt =====
-- Runs of both logins, over functions in place of OpenSSL that agree on a fixed secret and take
-- one key for that of the user.
use foc_project.Prelude.{◌≡◌, refl, true, some, [], ◌∷◌, take, drop, replicate}
use foc_project.Memory as M
use foc_project.Words as W
use foc_project.Words.{little, store64}
use foc_project.Memory.{Buffer, zeros}
use foc_project.Security.Login as SL
use foc_project.Session as S
use foc_project.Session.{Session, returned, one}
use foc_project.Login.Crypto.{Crypto}
use foc_project.Login.Ecdh as E
use foc_project.Login.Digests as D
use foc_project.Login.Cbc as C
use foc_project.Login.Sizes as Z
use foc_project.Login.Worker as LW
use foc_project.Login.Worker.{server_key_path, server_certificate_path, public_key_path, login}
use foc_project.Login.Worker.Established.{Authentic}
use foc_project.Login.Worker.Authentic.{login-Authentic}
use foc_project.Client.Messages as Messages
use foc_project.Login.Steps as Steps
use foc_project.Login.Steps.{vector}
use foc_project.Login.Client as LC
use foc_project.Login.Client.{private_key_path, ca_cert_file, crl_file}
use foc_project.Login.Client.Established.{Verified}
use foc_project.Login.Client.Verified.{login-Verified}
use foc_project.Tests.Toy.{value_of, toy_platform, toy_session, Disk, blank, put, matches}

abbrev toy_crypto : Crypto
toy_crypto = record {
  Pkey = Buffer;
  PkeyCtx = Buffer;
  MdCtx = Buffer;
  CipherCtx = Buffer;
  Bio = Buffer;
  Certificate = Buffer;
  Crl = Buffer;
  Store = Buffer;
  StoreCtx = Buffer;
  parameter_ctx_new = some [];
  paramgen_init = λ ctx. some ctx;
  set_curve = λ ctx. some ctx;
  paramgen = λ ctx. some ctx;
  pkey_ctx_new = λ key. some key;
  keygen_init = λ ctx. some ctx;
  keygen = λ ctx. some (1 ∷ []);
  derive_init = λ ctx. some ctx;
  derive_set_peer = λ peer ctx. some peer;
  derive_length = λ ctx. some 2;
  derive = λ n ctx. (true, 7 ∷ 7 ∷ []);
  bio_new = some [];
  bio_write = λ bytes bio. some bytes;
  bio_data = λ bio. bio;
  write_public = λ key bio. some key;
  read_public = λ bio. some bio;
  write_certificate = λ certificate bio. some certificate;
  read_private_file = λ pass bytes. some bytes;
  read_public_file = λ bytes. some bytes;
  read_certificate_file = λ bytes. some bytes;
  md_ctx_new = some [];
  digest_init = λ ctx. some ctx;
  digest_update = λ bytes ctx. some bytes;
  digest_final = λ ctx. some (zeros 32);
  pkey_size = λ key. 256;
  sign_init = λ ctx. some ctx;
  sign_update = λ bytes ctx. some bytes;
  sign_final = λ key ctx. some key;
  verify_init = λ ctx. some ctx;
  verify_update = λ bytes ctx. some bytes;
  verify_final = λ signature key ctx. matches key (5 ∷ []);
  cbc_block_size = 16;
  cbc_key_length = 16;
  cipher_ctx_new = some [];
  encrypt_init = λ key iv ctx. some ctx;
  encrypt_update = λ clear ctx. some (clear, ctx);
  encrypt_final = λ ctx. some (zeros 16);
  decrypt_init = λ key iv ctx. some ctx;
  decrypt_update = λ cipher ctx. some (cipher, ctx);
  decrypt_final = λ ctx. some [];
  bio_from = λ bytes. some bytes;
  read_certificate_bio = λ bio. some bio;
  read_crl_file = λ bytes. some bytes;
  certificate_key = λ certificate. some (5 ∷ []);
  store_new = [];
  store_add_cert = λ certificate store. certificate;
  store_add_crl = λ crl store. store;
  store_check_crl = λ store. store;
  store_ctx_init = λ store certificate. store;
  verify_cert = λ ctx. matches ctx (6 ∷ []);
}

abbrev behind : Buffer → Buffer
behind bytes = zeros 5120

abbrev user : Buffer
user = b'u' ∷ b's' ∷ b'e' ∷ b'r' ∷ b'1' ∷ []

abbrev disk : Disk
disk =
    put server_key_path (some (3 ∷ [])) (
      put server_certificate_path (some (4 ∷ []))
        (put (public_key_path user) (some (5 ∷ [])) blank))

-- The name, the key and M4 come.
abbrev start : Session toy_platform
start =
    record (toy_session
      (some (store64 little 5)
        ∷ some user
        ∷ some (store64 little 1)
        ∷ some (9 ∷ [])
        ∷ some (zeros 288)
        ∷ [])
      disk) { random = some (zeros 16) ∷ [] }

won :
    login toy_platform toy_crypto behind start
    ≡ (returned one, (login toy_platform toy_crypto behind start).1)
unfolding M.zeros M.read M.write M.read_byte W.store64 W.load64 W.sub64 S.pure S.return_code
    S.attempt S.get_state S.◌>>=◌ S.send_data S.receive_data S.random_value SL.read_vector
    SL.serialize_m3 SL.deserialize_m4 E.ecdh_key_generation E.serialize_pub_key
    E.deserialize_public_key E.derive_shared_secret D.fit D.compute_sha256_digest
    D.generate_digital_signature D.verify_digital_signature D.load_private_key D.load_public_key
    D.read_certificate C.encrypt_text_aes C.decrypt_text_aes C.generate_session_key Z.receive_size
    Z.send_size Z.receive_some Z.receive_ephemeral_public_key LW.username_exists LW.login take drop
    replicate Steps.set_username Steps.set_session_key
won = refl

login-Authentic_example :
    Authentic toy_platform toy_crypto start (login toy_platform toy_crypto behind start).1
login-Authentic_example =
    login-Authentic toy_crypto behind start (login toy_platform toy_crypto behind start).1 won

-- The client's keys and the files of the authority.
abbrev client_disk : Disk
client_disk =
    put (private_key_path user) (some (5 ∷ []))
      (put ca_cert_file (some (6 ∷ [])) (put crl_file (some []) blank))

abbrev m3 : Buffer
m3 = value_of (
    SL.serialize_m3 little (vector behind (9 ∷ [])) (vector behind (zeros 272))
      (vector behind (zeros 16)) (vector behind (4 ∷ [])))

-- The name and the password are typed; the answer to the name and M3 come.
abbrev client_start : Session toy_platform
client_start = record (toy_session (some (store64 little 1) ∷ some m3 ∷ []) client_disk) {
  accepted =
      some 2_000_000 ∷ some 2_000_000 ∷ some 2_000_000 ∷ some 2_000_000 ∷ some 2_000_000 ∷ [];
  random = some (zeros 16) ∷ [];
  console = user ∷ (b'p' ∷ []) ∷ [];
}

client_won :
    LC.login toy_platform toy_crypto behind client_start
    ≡ (returned one, (LC.login toy_platform toy_crypto behind client_start).1)
unfolding M.zeros M.read M.write M.read_byte W.store64 W.load64 W.sub64 W.htonl S.pure S.return_code
    S.attempt S.get_state S.◌>>=◌ S.send_data S.receive_data S.random_value S.read_line_into
    SL.read_vector SL.serialize_m3 SL.deserialize_m3 SL.serialize_m4 E.ecdh_key_generation
    E.serialize_pub_key E.deserialize_public_key E.derive_shared_secret D.fit
    D.compute_sha256_digest D.generate_digital_signature D.verify_digital_signature
    D.load_private_key D.load_certificate D.load_crl D.read_bio_certificate C.encrypt_text_aes
    C.decrypt_text_aes C.generate_session_key Steps.set_username Steps.set_session_key
    Messages.is_empty Z.receive_size Z.send_size LC.verify_server_certificate LC.login take drop
    replicate
client_won = refl

login-Verified_example :
    Verified toy_platform toy_crypto client_start
      (LC.login toy_platform toy_crypto behind client_start).1
login-Verified_example =
    login-Verified toy_crypto behind client_start
      (LC.login toy_platform toy_crypto behind client_start).1 client_won
