-- ===== src/Login/Digests.antt =====
-- Signatures, digests and the loading of keys in security/Util.cpp.
use foc_project.Prelude.{ℕ, ◌-◌, Bool, false, Option, none, some, [], ◌∷◌, ◌++◌, length}
use foc_project.Memory.{Buffer, zeros}
use foc_project.Security.Evp.{◌>>=◌}
use foc_project.Files.FileSystem.{FileSystem}
use foc_project.Login.Crypto.{Crypto}

-- A vector of `n` bytes into whose front `bytes` were written.
unfoldable pub fit : ℕ → Buffer → Buffer
fit n bytes = bytes ++ zeros (n - length bytes)

module _ (K : Crypto) where
  unfoldable pub compute_sha256_digest : Buffer → Option Buffer
  compute_sha256_digest data' = do
    ctx ← K.md_ctx_new
    begun ← K.digest_init ctx
    updated ← K.digest_update data' begun
    K.digest_final updated

  -- The vector has the size that is expected of a signature.
  unfoldable pub generate_digital_signature : Buffer → K.Pkey → Option Buffer
  generate_digital_signature data' private_key = do
    ctx ← K.md_ctx_new
    begun ← K.sign_init ctx
    updated ← K.sign_update data' begun
    signature ← K.sign_final private_key updated
    some (fit (K.pkey_size private_key) signature)

  verify_next : Buffer → K.Pkey → Option K.MdCtx → Bool
  verify_next signature public_key none = false
  verify_next signature public_key (some ctx) = K.verify_final signature public_key ctx

  unfoldable pub verify_digital_signature : Buffer → Buffer → K.Pkey → Bool
  unfolding verify_next
  verify_digital_signature data' signature public_key =
      verify_next signature public_key
        (do ctx ← K.md_ctx_new; begun ← K.verify_init ctx; K.verify_update data' begun)

  module _ (F : FileSystem) where
    unfoldable pub load_private_key : Buffer → Buffer → F.State → Option K.Pkey
    load_private_key path pem_pass disk = do
      bytes ← F.open_input path disk
      K.read_private_file pem_pass bytes

    unfoldable pub load_public_key : Buffer → F.State → Option K.Pkey
    load_public_key path disk = do bytes ← F.open_input path disk; K.read_public_file bytes

    -- `BIO_read` fails where nothing is there.
    some_bytes : Buffer → Option Buffer
    some_bytes [] = none
    some_bytes (b ∷ bs) = some (b ∷ bs)

    -- The certificate of the server, from its file, as it is sent.
    unfoldable pub read_certificate : Buffer → F.State → Option Buffer
    unfolding some_bytes
    read_certificate path disk = do
      bytes ← F.open_input path disk
      server_certif ← K.read_certificate_file bytes
      bio ← K.bio_new
      written ← K.write_certificate server_certif bio
      some_bytes (K.bio_data written)

    unfoldable pub load_certificate : Buffer → F.State → Option K.Certificate
    load_certificate path disk = do bytes ← F.open_input path disk; K.read_certificate_file bytes

    unfoldable pub load_crl : Buffer → F.State → Option K.Crl
    load_crl path disk = do bytes ← F.open_input path disk; K.read_crl_file bytes

  -- A certificate from its bytes.
  unfoldable pub read_bio_certificate : Buffer → Option K.Certificate
  read_bio_certificate bytes = do bio ← K.bio_from bytes; K.read_certificate_bio bio
