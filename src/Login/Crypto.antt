-- ===== src/Login/Crypto.antt =====
-- The OpenSSL functions that the login calls, as a parameter: none of OpenSSL's code is in the
-- repository. A call that reports an error gives `none`.
use foc_project.Prelude.{ℕ, Bool, Option}
use foc_project.Memory.{Buffer}

pub record Crypto : Type 1 where
  -- EVP_PKEY, EVP_PKEY_CTX, EVP_MD_CTX, EVP_CIPHER_CTX, BIO and X509
  pub Pkey : Type 0
  pub PkeyCtx : Type 0
  pub MdCtx : Type 0
  pub CipherCtx : Type 0
  pub Bio : Type 0
  pub Certificate : Type 0
  -- X509_CRL, X509_STORE and X509_STORE_CTX
  pub Crl : Type 0
  pub Store : Type 0
  pub StoreCtx : Type 0
  -- EVP_PKEY_CTX_new_id, EVP_PKEY_paramgen_init, EVP_PKEY_CTX_set_ec_paramgen_curve_nid and
  -- EVP_PKEY_paramgen
  pub parameter_ctx_new : Option PkeyCtx
  pub paramgen_init : PkeyCtx → Option PkeyCtx
  pub set_curve : PkeyCtx → Option PkeyCtx
  pub paramgen : PkeyCtx → Option Pkey
  -- EVP_PKEY_CTX_new, EVP_PKEY_keygen_init and EVP_PKEY_keygen
  pub pkey_ctx_new : Pkey → Option PkeyCtx
  pub keygen_init : PkeyCtx → Option PkeyCtx
  pub keygen : PkeyCtx → Option Pkey
  -- EVP_PKEY_derive_init, EVP_PKEY_derive_set_peer, and EVP_PKEY_derive without a buffer
  pub derive_init : PkeyCtx → Option PkeyCtx
  pub derive_set_peer : Pkey → PkeyCtx → Option PkeyCtx
  pub derive_length : PkeyCtx → Option ℕ
  -- EVP_PKEY_derive into a buffer of this size: whether it returned 1, and the buffer afterwards
  pub derive : ℕ → PkeyCtx → Bool × Buffer
  -- BIO_new, BIO_write and what BIO_get_mem_data or BIO_read give
  pub bio_new : Option Bio
  pub bio_write : Buffer → Bio → Option Bio
  pub bio_data : Bio → Buffer
  -- PEM_write_bio_PUBKEY, PEM_read_bio_PUBKEY and PEM_write_bio_X509
  pub write_public : Pkey → Bio → Option Bio
  pub read_public : Bio → Option Pkey
  pub write_certificate : Certificate → Bio → Option Bio
  -- PEM_read_PrivateKey with a password, PEM_read_PUBKEY and PEM_read_X509, from the bytes of a file
  pub read_private_file : Buffer → Buffer → Option Pkey
  pub read_public_file : Buffer → Option Pkey
  pub read_certificate_file : Buffer → Option Certificate
  -- EVP_MD_CTX_new; EVP_DigestInit, EVP_DigestUpdate and EVP_DigestFinal of EVP_sha256()
  pub md_ctx_new : Option MdCtx
  pub digest_init : MdCtx → Option MdCtx
  pub digest_update : Buffer → MdCtx → Option MdCtx
  pub digest_final : MdCtx → Option Buffer
  -- EVP_PKEY_size; EVP_SignInit, EVP_SignUpdate and EVP_SignFinal, which gives what it wrote
  pub pkey_size : Pkey → ℕ
  pub sign_init : MdCtx → Option MdCtx
  pub sign_update : Buffer → MdCtx → Option MdCtx
  pub sign_final : Pkey → MdCtx → Option Buffer
  -- EVP_VerifyInit, EVP_VerifyUpdate, and whether EVP_VerifyFinal returned 1
  pub verify_init : MdCtx → Option MdCtx
  pub verify_update : Buffer → MdCtx → Option MdCtx
  pub verify_final : Buffer → Pkey → MdCtx → Bool
  -- EVP_CIPHER_block_size and EVP_CIPHER_key_length of EVP_aes_128_cbc(), EVP_CIPHER_CTX_new
  pub cbc_block_size : ℕ
  pub cbc_key_length : ℕ
  pub cipher_ctx_new : Option CipherCtx
  -- EVP_EncryptInit with a key and an IV, EVP_EncryptUpdate and EVP_EncryptFinal; the same to decrypt
  pub encrypt_init : Buffer → Buffer → CipherCtx → Option CipherCtx
  pub encrypt_update : Buffer → CipherCtx → Option (Buffer × CipherCtx)
  pub encrypt_final : CipherCtx → Option Buffer
  pub decrypt_init : Buffer → Buffer → CipherCtx → Option CipherCtx
  pub decrypt_update : Buffer → CipherCtx → Option (Buffer × CipherCtx)
  pub decrypt_final : CipherCtx → Option Buffer
  -- BIO_new_mem_buf, PEM_read_bio_X509, PEM_read_X509_CRL from the bytes of a file, X509_get_pubkey
  pub bio_from : Buffer → Option Bio
  pub read_certificate_bio : Bio → Option Certificate
  pub read_crl_file : Buffer → Option Crl
  pub certificate_key : Certificate → Option Pkey
  -- X509_STORE_new, X509_STORE_add_cert, X509_STORE_add_crl, X509_STORE_set_flags with
  -- X509_V_FLAG_CRL_CHECK and X509_V_FLAG_CRL_CHECK_ALL, X509_STORE_CTX_init, and whether
  -- X509_verify_cert returned 1
  pub store_new : Store
  pub store_add_cert : Certificate → Store → Store
  pub store_add_crl : Crl → Store → Store
  pub store_check_crl : Store → Store
  pub store_ctx_init : Store → Certificate → StoreCtx
  pub verify_cert : StoreCtx → Bool
