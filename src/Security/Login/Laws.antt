-- ===== src/Security/Login/Laws.antt =====
-- Laws of the messages M3 and M4 of security/Util.cpp.
use foc_project.Prelude.{
  ℕ, ◌+◌, ◌-◌, ◌≤◌, ◌<◌, ◌%◌, ◌^◌, ◌≡◌, refl, sym, ◌∙◌, [], ◌++◌, arith, length, take, drop,
  length-append, length-take, append_assoc, le→leb, take-append_more,
}
use foc_project.Memory.{Buffer, ok, undefined, ◌>>=◌, zeros, read, write}
use foc_project.Memory.Laws.{
  read-append, read-append_end, read_short, write-zeros, write-zeros_full,
}
use foc_project.Words.{Endian, htonl, ntohl, store64, load64}
use foc_project.Words.Laws.{length-store64, load64-store64, ntohl-htonl, htonl-lt}
use foc_project.Security.Login.{
  Vector, max_ephemeral_public_key_size, encrypted_signature_size, cbc_iv_length,
  max_certificate_size, read_vector, serialize_m3, deserialize_m3, serialize_m4, deserialize_m4,
}

-- A vector of at most `n` bytes, with memory behind it up to `n` bytes.
pub record IsBacked (v : Vector) (n : ℕ) : Type 0 where
  pub small : length v.bytes ≤ n
  pub backed : n ≤ length v.bytes + length v.behind

-- What a copy of `n` bytes takes.
abbrev pub copied : Vector → ℕ → Buffer
copied v n = v.bytes ++ take (n - length v.bytes) v.behind

read_vector_lem : (v : Vector) (n : ℕ) → IsBacked v n → read_vector v n ≡ ok (copied v n)
unfolding read_vector read drop
read_vector_lem v n b =
    let e : 0 + n ≡ n = omega arith in
    rw (
      e,
      le→leb n (length (v.bytes ++ v.behind))
          (omega (arith, length-append v.bytes v.behind, b.backed)),
      take-append_more n v.bytes v.behind b.small,
    )

length-copied : (v : Vector) (n : ℕ) → IsBacked v n → length (copied v n) ≡ n
length-copied v n b = omega (
  arith,
  b.small,
  b.backed,
  length-append v.bytes (take (n - length v.bytes) v.behind),
  length-take (n - length v.bytes) v.behind,
)

-- The bytes of the vector are the first that were copied.
read-copied : (v : Vector) (n : ℕ) → read (copied v n) 0 (length v.bytes) ≡ ok v.bytes
read-copied v n =
    read-append [] v.bytes (take (n - length v.bytes) v.behind) 0 (length v.bytes) refl refl

-- A size that went through `htonl` and eight bytes of memory.
read_size :
    (h : Endian) (n : ℕ)
    → n < 2 ^ 32
    → ntohl h (load64 h (store64 h (htonl h (n % 2 ^ 32))) % 2 ^ 32) ≡ n
read_size h n small =
    let e : n % 2 ^ 32 ≡ n = omega arith in
    let f : htonl h n % 2 ^ 32 ≡ htonl h n = omega (arith, htonl-lt h n) in
    rw (e, load64-store64 h (htonl h n) (omega (arith, htonl-lt h n)), f) (ntohl-htonl h n small)

abbrev pub message : Buffer → Buffer → Buffer → Buffer → Buffer → Buffer → Buffer
message kb ks ct iv cs cb = kb ++ (ks ++ (ct ++ (iv ++ (cs ++ cb))))

-- The six parts of M3, at their places.
module _ (kb ks ct iv cs cb : Buffer) (kb_ok : 2048 ≡ length kb) (ks_ok : 8 ≡ length ks)
    (ct_ok : 272 ≡ length ct) (iv_ok : 16 ≡ length iv) (cs_ok : 8 ≡ length cs)
    (cb_ok : 5120 ≡ length cb) where
  read_kb : read (message kb ks ct iv cs cb) 0 2048 ≡ ok kb
  read_kb = read-append [] kb _ 0 2048 refl kb_ok

  read_ks : read (message kb ks ct iv cs cb) 2048 8 ≡ ok ks
  read_ks = read-append kb ks _ 2048 8 kb_ok ks_ok

  read_ct : read (message kb ks ct iv cs cb) 2056 272 ≡ ok ct
  read_ct =
      rw (← append_assoc kb ks (ct ++ (iv ++ (cs ++ cb))))
        (read-append (kb ++ ks) ct _ 2056 272 (omega (arith, length-append kb ks)) ct_ok)

  read_iv : read (message kb ks ct iv cs cb) 2328 16 ≡ ok iv
  read_iv =
      rw
        (
          ← append_assoc kb ks (ct ++ (iv ++ (cs ++ cb))),
          ← append_assoc (kb ++ ks) ct (iv ++ (cs ++ cb)),
        )
        (read-append ((kb ++ ks) ++ ct) iv _ 2328 16
          (omega (arith, length-append kb ks, length-append (kb ++ ks) ct)) iv_ok)

  abbrev front : Buffer
  front = ((kb ++ ks) ++ ct) ++ iv

  length-front : 2344 ≡ length front
  length-front =
      omega (
        arith,
        length-append kb ks,
        length-append (kb ++ ks) ct,
        length-append ((kb ++ ks) ++ ct) iv,
      )

  front-eq : front ++ (cs ++ cb) ≡ message kb ks ct iv cs cb
  front-eq =
      append_assoc ((kb ++ ks) ++ ct) iv (cs ++ cb)
      ∙ (append_assoc (kb ++ ks) ct _ ∙ append_assoc kb ks _)

  read_cs : read (message kb ks ct iv cs cb) 2344 8 ≡ ok cs
  read_cs = rw (← front-eq) (read-append front cs cb 2344 8 length-front cs_ok)

  read_cb : read (message kb ks ct iv cs cb) 2352 5120 ≡ ok cb
  read_cb =
      rw (← front-eq, ← append_assoc front cs cb)
        (read-append_end (front ++ cs) cb 2352 5120
          (omega (arith, length-front, length-append front cs)) cb_ok)

  write_parts :
      (write (zeros 7472) 0 kb >>= λ a. write a 2048 ks >>= λ b.
      write b 2056 ct >>= λ c. write c 2328 iv >>= λ d. write d 2344 cs >>= λ e. write e 2352 cb)
      ≡ ok (message kb ks ct iv cs cb)
  write_parts = rw (
    write-zeros [] kb 0 7472 5424 refl (omega arith),
    write-zeros kb ks 2048 5424 5416 kb_ok (omega arith),
    write-zeros (kb ++ ks) ct 2056 5416 5144 (omega (arith, length-append kb ks)) (omega arith),
    write-zeros ((kb ++ ks) ++ ct) iv 2328 5144 5128
        (omega (arith, length-append kb ks, length-append (kb ++ ks) ct)) (omega arith),
    write-zeros front cs 2344 5128 5120 length-front (omega arith),
    write-zeros_full (front ++ cs) cb 2352 5120
        (omega (arith, length-front, length-append front cs)) cb_ok,
    append_assoc front cs cb,
    front-eq,
  )

-- The memory that M3 is copied from.
pub record IsM3 (key cipher_text iv certificate : Vector) : Type 0 where
  pub key_ok : IsBacked key max_ephemeral_public_key_size
  pub cipher_text_ok : IsBacked cipher_text encrypted_signature_size
  pub iv_ok : IsBacked iv cbc_iv_length
  pub certificate_ok : IsBacked certificate max_certificate_size

module _ (h : Endian) (key cipher_text iv certificate : Vector)
    (m : IsM3 key cipher_text iv certificate) where
  abbrev sent : Buffer
  sent =
      message (copied key 2048) (store64 h (htonl h (length key.bytes % 2 ^ 32)))
        (copied cipher_text 272) (copied iv 16)
        (store64 h (htonl h (length certificate.bytes % 2 ^ 32))) (copied certificate 5120)

  serialize_m3_lem : serialize_m3 h key cipher_text iv certificate ≡ ok sent
  unfolding serialize_m3
  serialize_m3_lem =
      rw
        (
          read_vector_lem key 2048 m.key_ok,
          read_vector_lem cipher_text 272 m.cipher_text_ok,
          read_vector_lem iv 16 m.iv_ok,
          read_vector_lem certificate 5120 m.certificate_ok,
        )
        (write_parts _ _ _ _ _ _ (sym (length-copied key 2048 m.key_ok)) (sym (length-store64 h _))
          (sym (length-copied cipher_text 272 m.cipher_text_ok)) (sym (length-copied iv 16 m.iv_ok))
          (sym (length-store64 h _)) (sym (length-copied certificate 5120 m.certificate_ok)))

  deserialize_m3_lem :
      deserialize_m3 h sent
      ≡ ok (record {
        key = key.bytes;
        cipher_text = copied cipher_text 272;
        certificate = certificate.bytes;
        iv = copied iv 16;
      })
  unfolding deserialize_m3
  deserialize_m3_lem =
      let k = sym (length-copied key 2048 m.key_ok) in
      let s = sym (length-store64 h (htonl h (length key.bytes % 2 ^ 32))) in
      let c = sym (length-copied cipher_text 272 m.cipher_text_ok) in
      let i = sym (length-copied iv 16 m.iv_ok) in
      let t = sym (length-store64 h (htonl h (length certificate.bytes % 2 ^ 32))) in
      let b = sym (length-copied certificate 5120 m.certificate_ok) in
      rw (
        read_kb _ _ _ _ _ _ k s c i t b,
        read_ks _ _ _ _ _ _ k s c i t b,
        read_ct _ _ _ _ _ _ k s c i t b,
        read_iv _ _ _ _ _ _ k s c i t b,
        read_cs _ _ _ _ _ _ k s c i t b,
        read_cb _ _ _ _ _ _ k s c i t b,
        read_size h (length key.bytes) (omega (arith, m.key_ok.small)),
        read_size h (length certificate.bytes) (omega (arith, m.certificate_ok.small)),
        read-copied key 2048,
        read-copied certificate 5120,
      )

  -- M3 is read back as it was written, on a host of the same byte order: the key and the
  -- certificate are cut to their sizes, whatever memory was sent behind them. The memory behind
  -- the vectors reaches up to the sizes that are copied.
  pub deserialize_m3-serialize_m3 :
      (serialize_m3 h key cipher_text iv certificate >>= deserialize_m3 h)
      ≡ ok (record {
        key = key.bytes;
        cipher_text = copied cipher_text 272;
        certificate = certificate.bytes;
        iv = copied iv 16;
      })
  deserialize_m3-serialize_m3 = rw serialize_m3_lem deserialize_m3_lem

  -- Between the key and its size, M3 holds the bytes of the heap behind the key, as they are. The
  -- memory behind the vectors reaches up to the sizes that are copied.
  pub serialize_m3_leak :
      (serialize_m3 h key cipher_text iv certificate >>= λ msg.
      read msg (length key.bytes) (2048 - length key.bytes))
      ≡ ok (take (2048 - length key.bytes) key.behind)
  serialize_m3_leak =
      rw (serialize_m3_lem, append_assoc key.bytes (take (2048 - length key.bytes) key.behind) _)
        (read-append key.bytes (take (2048 - length key.bytes) key.behind) _ (length key.bytes)
          (2048 - length key.bytes) refl
          (omega (arith, length-take (2048 - length key.bytes) key.behind, m.key_ok.backed)))

-- M4 is read back as it was written, where the memory behind its two vectors reaches up to the
-- sizes that are copied.
pub deserialize_m4-serialize_m4 :
    (cipher_text iv : Vector)
    → IsBacked cipher_text encrypted_signature_size
    → IsBacked iv cbc_iv_length
    → (serialize_m4 cipher_text iv >>= deserialize_m4) ≡ ok (copied cipher_text 272, copied iv 16)
unfolding serialize_m4 deserialize_m4
deserialize_m4-serialize_m4 cipher_text iv bc bi =
    let c = length-copied cipher_text 272 bc in
    let i = length-copied iv 16 bi in
    rw (
      read_vector_lem cipher_text 272 bc,
      read_vector_lem iv 16 bi,
      write-zeros [] (copied cipher_text 272) 0 288 16 refl (omega (arith, c)),
      write-zeros_full (copied cipher_text 272) (copied iv 16) 272 16 (sym c) (sym i),
      read-append [] (copied cipher_text 272) (copied iv 16) 0 272 refl (sym c),
      read-append_end (copied cipher_text 272) (copied iv 16) 272 16 (sym c) (sym i),
    )

-- A message M3 of the right length whose key size is above the maximum has no defined behaviour
-- when it is read: the copy goes past its array before the size is checked.
pub deserialize_m3_overrun :
    (h : Endian) (kb ks ct iv cs cb : Buffer)
    → 2048 ≡ length kb
    → 8 ≡ length ks
    → 272 ≡ length ct
    → 16 ≡ length iv
    → 8 ≡ length cs
    → 5120 ≡ length cb
    → 2048 < ntohl h (load64 h ks % 2 ^ 32)
    → deserialize_m3 h (message kb ks ct iv cs cb) ≡ undefined
unfolding deserialize_m3
deserialize_m3_overrun h kb ks ct iv cs cb k s c i t b over = rw (
  read_kb kb ks ct iv cs cb k s c i t b,
  read_ks kb ks ct iv cs cb k s c i t b,
  read_ct kb ks ct iv cs cb k s c i t b,
  read_iv kb ks ct iv cs cb k s c i t b,
  read_cs kb ks ct iv cs cb k s c i t b,
  read_cb kb ks ct iv cs cb k s c i t b,
  read_short kb 0 (ntohl h (load64 h ks % 2 ^ 32)) (omega arith),
)
