-- ===== src/Packets/Wrapper/Laws.antt =====
-- Laws of packets/wrapper.cpp: the parts of a packet, and the packets that wrappers make and open.
use foc_project.Prelude.{
  ℕ, ◌+◌, ◌-◌, ◌≤◌, ◌<◌, ◌^◌, ◌≡◌, refl, sym, ap, ◌∙◌, some, [], ◌∷◌, ◌++◌, ◌↔◌, arith, length,
  length-append, append_assoc, drop, drop-append,
}
use foc_project.Memory.{Buffer, Result, ok, thrown, undefined, ◌>>=◌, read, allocate}
use foc_project.Memory.Laws.{read-append, first_part, ok-injective, read-append_end, allocate_small}
use foc_project.Words.{
  Endian, int_max, little, big, be_bytes, le_bytes, store32, load32, htonl, ntohl, sub64,
}
use foc_project.Words.Laws.{
  length-store32, load32-store32, ntohl-htonl, htonl-lt, store32-load32, load32-lt,
}
use foc_project.Security.Evp.{Evp, IsCcm, tag_length}
use foc_project.Security.Ccm.{encrypt_aes_ccm, decrypt_aes_ccm}
use foc_project.Security.Ccm.Laws.{encrypt_aes_ccm_lengths, decrypt-encrypt, encrypt-decrypt}
use foc_project.Packets.Wrapper.{Wrapper, create_aad, serialize, deserialize, get_size}

-- The sizes with which the code is meant to be called.
pub record Fits (E : Evp) (w : Wrapper) (iv : Buffer) : Type 0 where
  pub counter_lt : w.counter < 2 ^ 32
  pub key_length : E.key_length ≡ length w.session_key
  pub iv_length : E.iv_length ≡ length iv
  pub iv_small : E.iv_length ≤ 16
  pub pt_small : length w.pt < 2 ^ 62

sub64_exact : (n k : ℕ) → k < 2 ^ 63 → n < 2 ^ 63 → sub64 (n + k) k ≡ n
unfolding sub64
sub64_exact n k h g = omega arith

-- How a packet is cut into its four parts.
module _ (host : Endian) (E : Evp) (key iv stored ct tag : Buffer) where
  abbrev packet : Buffer
  packet = iv ++ (stored ++ (ct ++ tag))

  module _ (iv_ok : E.iv_length ≡ length iv) (stored_ok : 4 ≡ length stored)
      (tag_ok : tag_length ≡ length tag) where
    length-packet : length packet ≡ length ct + (E.iv_length + tag_length + 4)
    length-packet = omega (
      arith,
      iv_ok,
      stored_ok,
      tag_ok,
      length-append iv (stored ++ (ct ++ tag)),
      length-append stored (ct ++ tag),
      length-append ct tag,
    )

    read_ct : read packet (E.iv_length + 4) (length ct) ≡ ok ct
    read_ct = rw (← append_assoc iv stored (ct ++ tag)) (
        read-append (iv ++ stored) ct tag (E.iv_length + 4) (length ct)
          (omega (arith, length-append iv stored)) refl)

    read_tag : read packet (E.iv_length + 4 + length ct) tag_length ≡ ok tag
    read_tag =
        rw (← append_assoc iv stored (ct ++ tag), ← append_assoc (iv ++ stored) ct tag)
          (read-append_end ((iv ++ stored) ++ ct) tag (E.iv_length + 4 + length ct) tag_length
            (omega (arith, length-append iv stored, length-append (iv ++ stored) ct)) tag_ok)

    deserialize-packet :
        E.iv_length ≤ 16
        → length ct < 2 ^ 62
        → deserialize host E key packet ≡ (
            decrypt_aes_ccm E ct key iv (create_aad host E (load32 host stored) iv) tag >>= λ pt.
            ok (record { counter = ntohl host (load32 host stored); pt = pt; session_key = key }))
    unfolding deserialize
    deserialize-packet iv_small ct_small = rw (
      read-append [] iv (stored ++ (ct ++ tag)) 0 E.iv_length refl iv_ok,
      read-append iv stored (ct ++ tag) E.iv_length 4 iv_ok stored_ok,
      length-packet,
      sub64_exact (length ct) (E.iv_length + tag_length + 4) (omega arith) (omega arith),
      allocate_small (length ct) (omega arith),
      read_ct,
      read_tag,
    )

module _ (host : Endian) (E : Evp) (C : IsCcm E) (w : Wrapper) (iv : Buffer)
    (fit : Fits E w iv) where
  abbrev n_counter : ℕ
  n_counter = htonl host w.counter

  abbrev sealed : Result (Buffer × Buffer)
  sealed = encrypt_aes_ccm E w.pt w.session_key iv (create_aad host E n_counter iv)

  module _ {ct tag : Buffer} (done : sealed ≡ ok (ct, tag)) where
    lengths : (length ct ≡ length w.pt) × (length tag ≡ tag_length)
    lengths =
        encrypt_aes_ccm_lengths E C w.session_key iv (create_aad host E n_counter iv) fit.key_length
          fit.iv_length w.pt done

    pub serialize_lem :
        serialize host E w (some iv) ≡ ok (iv ++ (store32 host n_counter ++ (ct ++ tag)))
    unfolding serialize
    serialize_lem = rw done

    -- The packet has the size for which the receiver allocates its buffer.
    pub length-serialize :
        {packet : Buffer}
        → serialize host E w (some iv) ≡ ok packet
        → length packet ≡ get_size host E (length w.pt)
    unfolding get_size
    length-serialize h = ground (
      arith,
      serialize_lem,
      lengths,
      fit.iv_length,
      fit.iv_small,
      fit.pt_small,
      length-store32 host n_counter,
      length-append iv (store32 host n_counter ++ (ct ++ tag)),
      length-append (store32 host n_counter) (ct ++ tag),
      length-append ct tag,
    )

    pub deserialize_lem :
        deserialize host E w.session_key (iv ++ (store32 host n_counter ++ (ct ++ tag))) ≡ ok w
    deserialize_lem = rw (
      deserialize-packet host E w.session_key iv (store32 host n_counter) ct tag fit.iv_length
          (sym (length-store32 host n_counter)) (sym lengths.1) fit.iv_small
          (omega (arith, lengths.0, fit.pt_small)),
      load32-store32 host n_counter (htonl-lt host w.counter),
      decrypt-encrypt E C w.session_key iv (create_aad host E n_counter iv) fit.key_length
          fit.iv_length w.pt done,
      ntohl-htonl host w.counter fit.counter_lt,
    )

    -- What a wrapper with a counter below 2^32 and sizes that fit serializes, under a lawful
    -- OpenSSL that encrypts it, is opened by a wrapper with the same key to the same counter and
    -- payload.
    pub wrapper_round_trip :
        (serialize host E w (some iv) >>= deserialize host E w.session_key) ≡ ok w
    wrapper_round_trip = rw serialize_lem deserialize_lem

-- A packet with no room for the counter is read past its end, and one with room for the counter
-- but not for the tag makes an allocation throw, if the IV has at most 16 bytes.
pub deserialize_short :
    (host : Endian) (E : Evp) (key packet : Buffer)
    → E.iv_length ≤ 16
    → ((length packet < E.iv_length + 4) → deserialize host E key packet ≡ undefined)
      × ((E.iv_length + 4 ≤ length packet)
          → (length packet < E.iv_length + 4 + tag_length)
          → deserialize host E key packet ≡ thrown)
unfolding deserialize read allocate sub64
deserialize_short host E key packet iv_small = (λ h. ground arith, λ h g. ground arith)

-- A packet that is opened is not empty.
pub deserialize-pos :
    (host : Endian) (E : Evp) (key packet : Buffer) {w : Wrapper}
    → deserialize host E key packet ≡ ok w
    → 0 < length packet
unfolding deserialize read
deserialize-pos host E key packet h = ground arith

module _ (host : Endian) (E : Evp) (C : IsCcm E) (key iv ct tag : Buffer) (a b c d : ℕ) where
  abbrev counter_bytes : Buffer
  counter_bytes = a ∷ b ∷ c ∷ d ∷ []

  abbrev received : Buffer
  received = iv ++ (counter_bytes ++ (ct ++ tag))

  -- A packet of four parts is opened only if it is byte for byte the one that the wrapper it
  -- gives serializes with the same IV, so a packet with a changed counter, ciphertext or tag
  -- gives another wrapper or none. The sizes fit and OpenSSL is assumed to be lawful.
  pub serialize-deserialize :
      {w : Wrapper}
      → E.key_length ≡ length key
      → E.iv_length ≡ length iv
      → tag_length ≡ length tag
      → E.iv_length ≤ 16
      → length ct ≤ int_max - E.block_size
      → a < 256
      → b < 256
      → c < 256
      → d < 256
      → deserialize host E key received ≡ ok w
      → serialize host E w (some iv) ≡ ok received
  unfolding serialize
  serialize-deserialize {w} key_ok iv_ok tag_ok iv_small small ha hb hc hd h =
      let n : ℕ = load32 host counter_bytes in
      let (pt, opened, made) = first_part _ _ (
        sym h
        ∙ deserialize-packet host E key iv counter_bytes ct tag iv_ok refl tag_ok iv_small
            (omega arith)) in
      rw (
        ok-injective w _ made,
        ntohl-htonl host n (load32-lt host a b c d ha hb hc hd),
        encrypt-decrypt E C key iv (create_aad host E n iv) key_ok iv_ok ct tag (sym tag_ok) small
            (sym opened),
        store32-load32 host a b c d ha hb hc hd,
      )

append-injective : (xs ys zs : Buffer) → xs ++ ys ≡ xs ++ zs → ys ≡ zs
append-injective xs ys zs e =
    sym (drop-append xs ys) ∙ (ap (λ b. drop (length xs) b) e ∙ drop-append xs zs)

-- Hosts of the two byte orders compute the same AAD for a counter below 2^32 exactly if its bytes
-- read the same both ways, because the counter is converted twice.
pub create_aad-endian :
    (E : Evp) (counter : ℕ) (iv : Buffer)
    → counter < 2 ^ 32
    → (create_aad little E (htonl little counter) iv ≡ create_aad big E (htonl big counter) iv)
      ↔ (be_bytes counter ≡ le_bytes counter)
unfolding create_aad store32
create_aad-endian E counter iv small =
    rw (ntohl-htonl little counter small, ntohl-htonl big counter small)
      (λ e. sym (append-injective iv _ _ e), λ e. ap (λ bs. iv ++ bs) (sym e))
