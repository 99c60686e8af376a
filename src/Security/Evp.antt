-- ===== src/Security/Evp.antt =====
-- The OpenSSL functions that security/crypto.cpp calls, as a parameter: none of OpenSSL's code is in
-- the repository. A call that reports an error gives `none`. `seal` and `unseal` are the sequences
-- of calls that OpenSSL documents for CCM, and `IsCcm` is what it promises of them.
use foc_project.Prelude.{ℕ, ◌≡◌, Option, none, some, length, []}
use foc_project.Memory.{Buffer}

pub record Evp : Type 1 where
  pub Ctx : Type 0
  -- EVP_CIPHER_iv_length, _key_length and _block_size of EVP_aes_128_ccm()
  pub iv_length : ℕ
  pub key_length : ℕ
  pub block_size : ℕ
  -- EVP_CIPHER_CTX_new, EVP_CIPHER_CTX_init
  pub ctx_new : Option Ctx
  pub ctx_init : Ctx → Option Ctx
  -- EVP_CIPHER_CTX_ctrl, with SET_IVLEN, with SET_TAG and no tag, and with SET_TAG and a tag
  pub set_iv_length : ℕ → Ctx → Ctx
  pub set_tag_length : ℕ → Ctx → Ctx
  pub set_tag : Buffer → Ctx → Ctx
  -- with GET_TAG
  pub get_tag : ℕ → Ctx → Option Buffer
  -- EVP_EncryptInit with the cipher, and with the key and the IV
  pub encrypt_init_cipher : Ctx → Option Ctx
  pub encrypt_init_key : Buffer → Buffer → Ctx → Option Ctx
  -- EVP_EncryptUpdate with the length alone, with the AAD, and with the data; EVP_EncryptFinal
  pub encrypt_length : ℕ → Ctx → Option Ctx
  pub encrypt_aad : Buffer → Ctx → Option Ctx
  pub encrypt_update : Buffer → Ctx → Option (Buffer × Ctx)
  pub encrypt_final : Ctx → Option (Buffer × Ctx)
  -- the same for EVP_DecryptInit, EVP_DecryptUpdate and EVP_DecryptFinal
  pub decrypt_init_cipher : Ctx → Option Ctx
  pub decrypt_init_key : Buffer → Buffer → Ctx → Option Ctx
  pub decrypt_length : ℕ → Ctx → Option Ctx
  pub decrypt_aad : Buffer → Ctx → Option Ctx
  pub decrypt_update : Buffer → Ctx → Option (Buffer × Ctx)
  pub decrypt_final : Ctx → Option (Buffer × Ctx)

infixl 5 ◌>>=◌
abbrev pub ◌>>=◌ {ℓ κ} : {A : Type ℓ} {B : Type κ} → Option A → (A → Option B) → Option B
none >>= f = none
some a >>= f = f a

-- crypto::TAG_LENGTH
abbrev pub tag_length : ℕ
tag_length = 14

module _ (E : Evp) where
  -- A context that has its cipher and its sizes.
  unfoldable pub encrypt_start : Option E.Ctx
  encrypt_start = do
    new ← E.ctx_new
    blank ← E.ctx_init new
    chosen ← E.encrypt_init_cipher blank
    some (E.set_tag_length tag_length (E.set_iv_length E.iv_length chosen))

  -- The context that is ready for the data, from the key, the IV, the AAD and the data's length.
  unfoldable pub encrypt_ready : Buffer → Buffer → Buffer → ℕ → E.Ctx → Option E.Ctx
  encrypt_ready key iv aad size ctx = do
    keyed ← E.encrypt_init_key key iv ctx
    sized ← E.encrypt_length size keyed
    E.encrypt_aad aad sized

  unfoldable pub decrypt_start : Option E.Ctx
  decrypt_start = do
    new ← E.ctx_new
    blank ← E.ctx_init new
    chosen ← E.decrypt_init_cipher blank
    some (E.set_iv_length E.iv_length chosen)

  unfoldable pub decrypt_ready : Buffer → Buffer → Buffer → ℕ → E.Ctx → Option E.Ctx
  decrypt_ready key iv aad size ctx = do
    keyed ← E.decrypt_init_key key iv ctx
    sized ← E.decrypt_length size keyed
    E.decrypt_aad aad sized

  unfoldable pub seal : Buffer → Buffer → Buffer → Buffer → Option (Buffer × Buffer)
  seal key iv aad clear = do
    start ← encrypt_start
    ctx ← encrypt_ready key iv aad (length clear) start
    (out, written) ← E.encrypt_update clear ctx
    (_, ended) ← E.encrypt_final written
    tag ← E.get_tag tag_length ended
    some (out, tag)

  unfoldable pub unseal : Buffer → Buffer → Buffer → Buffer → Buffer → Option Buffer
  unseal key iv aad tag cipher = do
    start ← decrypt_start
    ctx ← decrypt_ready key iv aad (length cipher) (E.set_tag tag start)
    (out, written) ← E.decrypt_update cipher ctx
    (_, ended) ← E.decrypt_final written
    some out

-- What OpenSSL documents of AES-CCM.
pub record IsCcm (E : Evp) : Type 0 where
  -- a stream mode: data keep their length, and the final call adds none
  pub length-encrypt_update :
      (clear : Buffer) (ctx : E.Ctx) {out : Buffer} {ctx' : E.Ctx}
      → E.encrypt_update clear ctx ≡ some (out, ctx')
      → length out ≡ length clear
  pub encrypt_final_empty :
      (ctx : E.Ctx) {out : Buffer} {ctx' : E.Ctx}
      → E.encrypt_final ctx ≡ some (out, ctx')
      → out ≡ []
  pub length-decrypt_update :
      (cipher : Buffer) (ctx : E.Ctx) {out : Buffer} {ctx' : E.Ctx}
      → E.decrypt_update cipher ctx ≡ some (out, ctx')
      → length out ≡ length cipher
  pub decrypt_final_empty :
      (ctx : E.Ctx) {out : Buffer} {ctx' : E.Ctx}
      → E.decrypt_final ctx ≡ some (out, ctx')
      → out ≡ []
  pub length-get_tag :
      (n : ℕ) (ctx : E.Ctx) {tag : Buffer} → E.get_tag n ctx ≡ some tag → length tag ≡ n
  -- the data come back under the same key, IV, AAD and tag, and under no other tag
  pub unseal-seal :
      (key iv aad clear : Buffer) {cipher tag : Buffer}
      → seal E key iv aad clear ≡ some (cipher, tag)
      → unseal E key iv aad tag cipher ≡ some clear
  pub seal-unseal :
      (key iv aad tag cipher : Buffer) {clear : Buffer}
      → unseal E key iv aad tag cipher ≡ some clear
      → seal E key iv aad clear ≡ some (cipher, tag)
