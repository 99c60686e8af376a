-- ===== src/Security/Login.antt =====
-- The login messages M3 and M4: `calLengthLoginMessageFromTheServer`, `serializeM3`,
-- `deserializeM3`, `serializeM4` and `deserializeM4` of security/Util.cpp. An object in memory is its
-- bytes and the bytes that lie behind it: `serializeM3` and `serializeM4` copy fixed sizes out of
-- vectors that may be shorter.
pub mod Laws
use foc_project.Prelude.{ℕ, ◌+◌, ◌*◌, ◌%◌, ◌^◌, ◌++◌, length}
use foc_project.Memory.{Buffer, Result, ok, failed, thrown, undefined, ◌>>=◌, zeros, read, write}
use foc_project.Words.{Endian, htonl, ntohl, store64, load64}

abbrev pub max_ephemeral_public_key_size : ℕ
max_ephemeral_public_key_size = 2048

abbrev pub encrypted_signature_size : ℕ
encrypted_signature_size = 272

-- EVP_CIPHER_iv_length(EVP_aes_128_cbc()): the block size of AES.
abbrev pub cbc_iv_length : ℕ
cbc_iv_length = 16

abbrev pub max_certificate_size : ℕ
max_certificate_size = 5 * 1024

abbrev pub cal_length_login_message_from_the_server : ℕ
cal_length_login_message_from_the_server =
    max_ephemeral_public_key_size + 8 + encrypted_signature_size + cbc_iv_length + 8
    + max_certificate_size

-- The bytes of a vector, and what the heap holds behind them.
pub record Vector : Type 0 where
  pub bytes : Buffer
  pub behind : Buffer

-- `memcpy(…, v.data(), n)`. It goes on behind the vector, and faults where the memory ends.
unfoldable pub read_vector : Vector → ℕ → Result Buffer
read_vector v n = read (v.bytes ++ v.behind) 0 n

-- `serialize_m3` without the resize: what is written, one part after the other.
unfoldable pub serialize_m3 : Endian → Vector → Vector → Vector → Vector → Result Buffer
serialize_m3 host key cipher_text iv certificate = do
  key_bytes ← read_vector key max_ephemeral_public_key_size
  keyed ← write (zeros cal_length_login_message_from_the_server) 0 key_bytes
  let key_size = store64 host (htonl host (length key.bytes % 2 ^ 32))
  key_sized ← write keyed max_ephemeral_public_key_size key_size
  text ← read_vector cipher_text encrypted_signature_size
  signed ← write key_sized (max_ephemeral_public_key_size + 8) text
  iv_bytes ← read_vector iv cbc_iv_length
  with_iv ← write signed (max_ephemeral_public_key_size + 8 + encrypted_signature_size) iv_bytes
  let certificate_size = store64 host (htonl host (length certificate.bytes % 2 ^ 32))
  sized ←
      write with_iv (max_ephemeral_public_key_size + 8 + encrypted_signature_size + cbc_iv_length)
        certificate_size
  certificate_bytes ← read_vector certificate max_certificate_size
  write sized (max_ephemeral_public_key_size + 8 + encrypted_signature_size + cbc_iv_length + 8)
      certificate_bytes

pub record M3 : Type 0 where
  pub key : Buffer
  pub cipher_text : Buffer
  pub certificate : Buffer
  pub iv : Buffer

unfoldable pub deserialize_m3 : Endian → Buffer → Result M3
deserialize_m3 host received = do
  max_key ← read received 0 max_ephemeral_public_key_size
  network_key_size ← read received max_ephemeral_public_key_size 8
  let key_size = ntohl host (load64 host network_key_size % 2 ^ 32)
  cipher_text ← read received (max_ephemeral_public_key_size + 8) encrypted_signature_size
  iv ← read received (max_ephemeral_public_key_size + 8 + encrypted_signature_size) cbc_iv_length
  network_certificate_size ←
      read received (max_ephemeral_public_key_size + 8 + encrypted_signature_size + cbc_iv_length) 8
  let certificate_size = ntohl host (load64 host network_certificate_size % 2 ^ 32)
  max_certificate ←
      read received
        (max_ephemeral_public_key_size + 8 + encrypted_signature_size + cbc_iv_length + 8)
        max_certificate_size
  key ← read max_key 0 key_size
  certificate ← read max_certificate 0 certificate_size
  ok (record { key = key; cipher_text = cipher_text; certificate = certificate; iv = iv })

unfoldable pub serialize_m4 : Vector → Vector → Result Buffer
serialize_m4 cipher_text iv = do
  text ← read_vector cipher_text encrypted_signature_size
  written ← write (zeros (encrypted_signature_size + cbc_iv_length)) 0 text
  iv_bytes ← read_vector iv cbc_iv_length
  write written encrypted_signature_size iv_bytes

-- The ciphertext and the IV.
unfoldable pub deserialize_m4 : Buffer → Result (Buffer × Buffer)
deserialize_m4 received = do
  cipher_text ← read received 0 encrypted_signature_size
  iv ← read received encrypted_signature_size cbc_iv_length
  ok (cipher_text, iv)
