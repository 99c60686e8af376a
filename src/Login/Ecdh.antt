-- ===== src/Login/Ecdh.antt =====
-- security/Diffie-Hellman.cpp.
use foc_project.Prelude.{ℕ, Bool, false, Option, none, some, []}
use foc_project.Memory.{Buffer}
use foc_project.Security.Evp.{◌>>=◌}
use foc_project.Login.Crypto.{Crypto}

module _ (K : Crypto) where
  unfoldable pub ecdh_key_generation : Option K.Pkey
  ecdh_key_generation = do
    begun ← K.parameter_ctx_new
    ready ← K.paramgen_init begun
    chosen ← K.set_curve ready
    parameters ← K.paramgen chosen
    ctx ← K.pkey_ctx_new parameters
    keyed ← K.keygen_init ctx
    K.keygen keyed

  unfoldable pub serialize_pub_key : K.Pkey → Option Buffer
  serialize_pub_key public_key = do
    bio ← K.bio_new
    written ← K.write_public public_key bio
    some (K.bio_data written)

  unfoldable pub deserialize_public_key : Buffer → Option K.Pkey
  deserialize_public_key key_buffer = do
    bio ← K.bio_new
    filled ← K.bio_write key_buffer bio
    K.read_public filled

  derive_ready : K.Pkey → K.Pkey → Option (ℕ × K.PkeyCtx)
  derive_ready host_key peer_key = do
    ctx ← K.pkey_ctx_new host_key
    begun ← K.derive_init ctx
    set ← K.derive_set_peer peer_key begun
    size ← K.derive_length set
    some (size, set)

  derive_next : Option (ℕ × K.PkeyCtx) → Bool × Buffer
  derive_next none = (false, [])
  derive_next (some (size, ctx)) = K.derive size ctx

  -- Whether it succeeds, and what the buffer for the secret holds afterwards, which was empty.
  unfoldable pub derive_shared_secret : K.Pkey → K.Pkey → Bool × Buffer
  unfolding derive_ready derive_next
  derive_shared_secret host_key peer_key = derive_next (derive_ready host_key peer_key)
