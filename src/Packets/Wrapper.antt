-- ===== src/Packets/Wrapper.antt =====
-- The class `Wrapper` of packets/wrapper.h and packets/wrapper.cpp: every message after the login
-- travels as IV | counter | ciphertext | tag. What RAND_bytes gives for the IV is an argument, `none`
-- where it fails.
pub mod Laws
use foc_project.Prelude.{ℕ, ◌+◌, ◌%◌, ◌^◌, Option, none, some, [], ◌++◌, length}
use foc_project.Memory.{Buffer, Result, ok, failed, thrown, undefined, ◌>>=◌, read, allocate}
use foc_project.Words.{Endian, store32, load32, htonl, ntohl, sub64}
use foc_project.Security.Evp.{Evp, tag_length}
use foc_project.Security.Ccm.{encrypt_aes_ccm, decrypt_aes_ccm}

-- The members that callers set and read.
pub record Wrapper : Type 0 where
  pub counter : ℕ
  pub pt : Buffer
  pub session_key : Buffer

unfoldable pub make : Buffer → ℕ → Buffer → Wrapper
make session_key counter payload = record {
  counter = counter;
  pt = payload;
  session_key = session_key;
}

module _ (host : Endian) (E : Evp) where
  -- The argument is the counter in the network's order already; it is converted once more.
  unfoldable pub create_aad : ℕ → Buffer → Buffer
  create_aad counter iv = iv ++ store32 host (htonl host counter)

  pack : Buffer → ℕ → Result (Buffer × Buffer) → Result Buffer
  pack iv n_counter (ok (ct, tag)) = ok (iv ++ (store32 host n_counter ++ (ct ++ tag)))
  pack iv n_counter failed = ok []
  pack iv n_counter thrown = thrown
  pack iv n_counter undefined = undefined

  -- An empty buffer tells of an error.
  unfoldable pub serialize : Wrapper → Option Buffer → Result Buffer
  unfolding pack
  serialize w none = ok []
  serialize w (some iv) =
      let n_counter = htonl host w.counter in
      pack iv n_counter (encrypt_aes_ccm E w.pt w.session_key iv (create_aad n_counter iv))

  -- The wrapper is built over a session key, and gets its counter and payload from the packet.
  unfoldable pub deserialize : Buffer → Buffer → Result Wrapper
  deserialize session_key packet = do
    iv ← read packet 0 E.iv_length
    stored ← read packet E.iv_length 4
    let n_counter = load32 host stored
    let ct_size = sub64 (length packet) (E.iv_length + tag_length + 4)
    _ ← allocate ct_size
    ct ← read packet (E.iv_length + 4) ct_size
    tag ← read packet (E.iv_length + 4 + ct_size) tag_length
    pt ← decrypt_aes_ccm E ct session_key iv (create_aad n_counter iv) tag
    ok (record { counter = ntohl host n_counter; pt = pt; session_key = session_key })

  -- A sum of `size_t`, which wraps.
  unfoldable pub get_size : ℕ → ℕ
  get_size pt_size = (E.iv_length + 4 + pt_size + tag_length) % 2 ^ 64
