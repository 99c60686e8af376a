-- ===== src/Security/Ccm.antt =====
-- `encrypt_aes_ccm` and `decrypt_aes_ccm` of security/crypto.cpp, over the OpenSSL calls. The
-- output vector is empty before the call, as it is in the wrappers that call them.
pub mod Laws
use foc_project.Prelude.{ℕ, ◌+◌, ◌-◌, ◌%◌, ◌^◌, ltb, length, if◌then◌else◌}
use foc_project.Memory.{
  Buffer, Result, ok, failed, thrown, undefined, ◌>>=◌, or_failed, zeros, read, write, allocate,
}
use foc_project.Words.{int_max, widen}
use foc_project.Security.Evp.{
  Evp, tag_length, encrypt_start, encrypt_ready, decrypt_start, decrypt_ready,
}

module _ (E : Evp) where
  -- The ciphertext and the tag. The key and the IV are read through pointers to their bytes.
  encrypt_data : Buffer → Buffer → Buffer → Buffer → Result (Buffer × Buffer)
  encrypt_data clear key iv aad = do
    start ← or_failed (encrypt_start E)
    key_bytes ← read key 0 E.key_length
    iv_bytes ← read iv 0 E.iv_length
    ctx ← or_failed (encrypt_ready E key_bytes iv_bytes aad (length clear) start)
    (out, written) ← or_failed (E.encrypt_update clear ctx)
    partial ← write (zeros (length clear)) 0 out
    (rest, ended) ← or_failed (E.encrypt_final written)
    cipher ← write partial (length out) rest
    tag ← or_failed (E.get_tag tag_length ended)
    ok (cipher, tag)

  unfoldable pub encrypt_aes_ccm : Buffer → Buffer → Buffer → Buffer → Result (Buffer × Buffer)
  unfolding encrypt_data
  encrypt_aes_ccm clear key iv aad =
      if ltb (int_max - E.block_size) (length clear) then failed else encrypt_data clear key iv aad

  -- The plaintext, cut to what was written. The size of the ciphertext becomes an `int`, and that a
  -- `size_t` again where the output is allocated.
  unfoldable pub decrypt_aes_ccm : Buffer → Buffer → Buffer → Buffer → Buffer → Result Buffer
  decrypt_aes_ccm cipher key iv aad tag = do
    let cphr_size = length cipher % 2 ^ 32
    clear_buf ← allocate (widen cphr_size)
    start ← or_failed (decrypt_start E)
    tag_bytes ← read tag 0 tag_length
    key_bytes ← read key 0 E.key_length
    iv_bytes ← read iv 0 E.iv_length
    ctx ← or_failed (decrypt_ready E key_bytes iv_bytes aad cphr_size (E.set_tag tag_bytes start))
    cphr_bytes ← read cipher 0 cphr_size
    (out, written) ← or_failed (E.decrypt_update cphr_bytes ctx)
    partial ← write clear_buf 0 out
    (rest, ended) ← or_failed (E.decrypt_final written)
    clear ← write partial (length out) rest
    read clear 0 (length out + length rest)
