-- ===== src/Login/Cbc.antt =====
-- `encryptTextAES`, `decryptTextAES` and `generateSessionKey` of security/crypto.cpp.
use foc_project.Prelude.{◌+◌, ◌-◌, Option, none, some, ◌++◌, length, take, leb, ltb, if◌then◌else◌}
use foc_project.Memory.{Buffer, Result, ok, undefined}
use foc_project.Words.{int_max}
use foc_project.Security.Evp.{◌>>=◌}
use foc_project.Login.Crypto.{Crypto}
use foc_project.Login.Digests.{fit}

module _ (K : Crypto) where
  encrypt_next : Buffer → Buffer → Buffer → Option Buffer
  encrypt_next clear key iv = do
    ctx ← K.cipher_ctx_new
    begun ← K.encrypt_init key iv ctx
    (out, updated) ← K.encrypt_update clear begun
    rest ← K.encrypt_final updated
    some (fit (length clear + K.cbc_block_size) (out ++ rest))

  -- The ciphertext, from what RAND_bytes gave. Its vector is a block longer than the text, whatever
  -- was written.
  unfoldable pub encrypt_text_aes : Buffer → Buffer → Option Buffer → Option (Buffer × Buffer)
  unfolding encrypt_next
  encrypt_text_aes clear session_key none = none
  encrypt_text_aes clear session_key (some iv) =
      if ltb (int_max - K.cbc_block_size) (length clear)
      then none
      else (do cipher ← encrypt_next clear session_key iv; some (cipher, iv))

  unfoldable pub decrypt_text_aes : Buffer → Buffer → Buffer → Option Buffer
  decrypt_text_aes cipher session_key iv = do
    ctx ← K.cipher_ctx_new
    begun ← K.decrypt_init session_key iv ctx
    (out, updated) ← K.decrypt_update cipher begun
    rest ← K.decrypt_final updated
    some (out ++ rest)

  -- The front of the digest. A digest that is too short is read past its end.
  unfoldable pub generate_session_key : Buffer → Result Buffer
  generate_session_key digest =
      if leb K.cbc_key_length (length digest) then ok (take K.cbc_key_length digest) else undefined
