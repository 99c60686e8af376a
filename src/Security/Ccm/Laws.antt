-- ===== src/Security/Ccm/Laws.antt =====
-- The ciphers against OpenSSL's documented sequences of calls.
use foc_project.Prelude.{
  ℕ, ◌+◌, ◌-◌, ◌%◌, ◌^◌, ◌≤◌, ◌≡◌, refl, sym, ap, ◌∙◌, Option, none, some, arith, length,
}
use foc_project.Memory.{Buffer, Result, ok, ◌>>=◌, or_failed, zeros, allocate}
use foc_project.Memory.Laws.{write-zeros_all, read_all, write-end_empty}
use foc_project.Words.{int_max, widen}
use foc_project.Security.Evp.{
  Evp, IsCcm, ◌>>=◌ as bind, tag_length, encrypt_start, encrypt_ready, decrypt_start, decrypt_ready,
  seal, unseal,
}
use foc_project.Security.Ccm.{encrypt_data, encrypt_aes_ccm, decrypt_aes_ccm}

-- A chain of calls that may fail, beside the same chain without writes to memory.
or_failed-bind {ℓ κ} :
    {A : Type ℓ} {B : Type κ} (o : Option A) (f : A → Option B) (g : A → Result B)
    → ((a : A) → o ≡ some a → g a ≡ or_failed (f a))
    → (or_failed o >>= g) ≡ or_failed (bind o f)
or_failed-bind none f g h = refl
or_failed-bind (some a) f g h = h a refl

bind-eq-some {ℓ κ} :
    {A : Type ℓ} {B : Type κ} (o : Option A) (f : A → Option B) {b : B}
    → bind o f ≡ some b
    → (a : A) × (o ≡ some a) × (f a ≡ some b)
bind-eq-some none f h = cc
bind-eq-some (some a) f h = (a, refl, h)

or_failed-eq-ok {ℓ} : {A : Type ℓ} (o : Option A) {a : A} → or_failed o ≡ ok a → o ≡ some a
or_failed-eq-ok none h = cc
or_failed-eq-ok (some b) h = cc

-- A size that an `int` holds is allocated as it is.
allocate-widen : (n : ℕ) → n ≤ int_max → allocate (widen (n % 2 ^ 32)) ≡ ok (zeros n)
unfolding allocate widen
allocate-widen n small =
    let same : n % 2 ^ 32 ≡ n = omega (arith, small) in rw same (ground (arith, small))

module _ (E : Evp) (C : IsCcm E) (key iv aad : Buffer) where
  module _ (key_ok : E.key_length ≡ length key) (iv_ok : E.iv_length ≡ length iv) where
    encrypt_data_lem :
        (clear : Buffer) → encrypt_data E clear key iv aad ≡ or_failed (seal E key iv aad clear)
    unfolding encrypt_data seal
    encrypt_data_lem clear = or_failed-bind (encrypt_start E) _ _ λ start _.
        rw (read_all key E.key_length key_ok, read_all iv E.iv_length iv_ok)
          (or_failed-bind (encrypt_ready E key iv aad (length clear) start) _ _ λ ctx _.
            or_failed-bind (E.encrypt_update clear ctx) _ _ λ r e.
              rw (write-zeros_all r.0 (length clear) (sym (C.length-encrypt_update clear ctx e))) (
                or_failed-bind (E.encrypt_final r.1) _ _ λ q f.
                  rw (C.encrypt_final_empty r.1 f, write-end_empty r.0 (length r.0) refl)
                    (or_failed-bind (E.get_tag tag_length q.1) _ _ λ tag _. refl)))

    pub decrypt_aes_ccm_lem :
        (cipher tag : Buffer)
        → length tag ≡ tag_length
        → length cipher ≤ int_max
        → decrypt_aes_ccm E cipher key iv aad tag ≡ or_failed (unseal E key iv aad tag cipher)
    unfolding decrypt_aes_ccm unseal
    decrypt_aes_ccm_lem cipher tag tag_ok small =
        let same : length cipher % 2 ^ 32 ≡ length cipher = omega (arith, small) in
        rw (allocate-widen (length cipher) small, same)
          (or_failed-bind (decrypt_start E) _ _ λ start _.
            rw
              (
                read_all tag tag_length (sym tag_ok),
                read_all key E.key_length key_ok,
                read_all iv E.iv_length iv_ok,
              )
              (or_failed-bind (decrypt_ready E key iv aad (length cipher) (E.set_tag tag start)) _ _
                λ ctx _. rw (read_all cipher (length cipher) refl) (
                  or_failed-bind (E.decrypt_update cipher ctx) _ _ λ r e.
                    rw
                      (write-zeros_all r.0 (length cipher)
                        (sym (C.length-decrypt_update cipher ctx e)))
                      (or_failed-bind (E.decrypt_final r.1) _ _ λ q f.
                        rw (C.decrypt_final_empty r.1 f, write-end_empty r.0 (length r.0) refl)
                          (read_all r.0 (length r.0 + 0) (omega arith))))))

    pub encrypt_aes_ccm_lem :
        (clear : Buffer)
        → length clear ≤ int_max - E.block_size
        → encrypt_aes_ccm E clear key iv aad ≡ or_failed (seal E key iv aad clear)
    unfolding encrypt_aes_ccm
    encrypt_aes_ccm_lem clear small = ground (arith, encrypt_data_lem clear)

    encrypt_aes_ccm-eq-ok :
        (clear : Buffer) {cipher tag : Buffer}
        → encrypt_aes_ccm E clear key iv aad ≡ ok (cipher, tag)
        → seal E key iv aad clear ≡ some (cipher, tag)
    unfolding encrypt_aes_ccm
    encrypt_aes_ccm-eq-ok clear h =
        ground (arith, encrypt_data_lem clear, or_failed-eq-ok (seal E key iv aad clear))

    seal_lengths :
        (clear : Buffer) {cipher tag : Buffer}
        → seal E key iv aad clear ≡ some (cipher, tag)
        → (length cipher ≡ length clear) × (length tag ≡ tag_length)
    unfolding seal
    seal_lengths clear h =
        let (start, _, h1) = bind-eq-some (encrypt_start E) _ h in
        let (ctx, _, h2) = bind-eq-some (encrypt_ready E key iv aad (length clear) start) _ h1 in
        let (r, e3, h3) = bind-eq-some (E.encrypt_update clear ctx) _ h2 in
        let (q, _, h4) = bind-eq-some (E.encrypt_final r.1) _ h3 in
        let (t, e5, h5) = bind-eq-some (E.get_tag tag_length q.1) _ h4 in
        ground (arith, C.length-encrypt_update clear ctx e3, C.length-get_tag tag_length q.1 e5)

    -- Sizes of what is sent.
    pub encrypt_aes_ccm_lengths :
        (clear : Buffer) {cipher tag : Buffer}
        → encrypt_aes_ccm E clear key iv aad ≡ ok (cipher, tag)
        → (length cipher ≡ length clear) × (length tag ≡ tag_length)
    encrypt_aes_ccm_lengths clear h = seal_lengths clear (encrypt_aes_ccm-eq-ok clear h)

    encrypt_aes_ccm_small :
        (clear : Buffer) {cipher tag : Buffer}
        → encrypt_aes_ccm E clear key iv aad ≡ ok (cipher, tag)
        → length clear ≤ int_max
    unfolding encrypt_aes_ccm
    encrypt_aes_ccm_small clear h = ground arith

    -- What was encrypted is decrypted to itself, under the same key, IV and AAD.
    pub decrypt-encrypt :
        (clear : Buffer) {cipher tag : Buffer}
        → encrypt_aes_ccm E clear key iv aad ≡ ok (cipher, tag)
        → decrypt_aes_ccm E cipher key iv aad tag ≡ ok clear
    decrypt-encrypt clear {cipher} {tag} h =
        let lengths = encrypt_aes_ccm_lengths clear h in
        let small : length clear ≤ int_max = encrypt_aes_ccm_small clear h in
        decrypt_aes_ccm_lem cipher tag lengths.1 (omega (arith, small, lengths.0))
        ∙ ap or_failed (C.unseal-seal key iv aad clear (encrypt_aes_ccm-eq-ok clear h))

    -- Whatever is accepted is what encryption gives for the plaintext that comes out.
    pub encrypt-decrypt :
        (cipher tag : Buffer) {clear : Buffer}
        → length tag ≡ tag_length
        → length cipher ≤ int_max - E.block_size
        → decrypt_aes_ccm E cipher key iv aad tag ≡ ok clear
        → encrypt_aes_ccm E clear key iv aad ≡ ok (cipher, tag)
    encrypt-decrypt cipher tag {clear} tag_ok small h =
        let sealed : seal E key iv aad clear ≡ some (cipher, tag) =
          C.seal-unseal key iv aad tag cipher (
            or_failed-eq-ok (unseal E key iv aad tag cipher)
              (sym (decrypt_aes_ccm_lem cipher tag tag_ok (omega (arith, small))) ∙ h)) in
        encrypt_aes_ccm_lem clear (omega (arith, (seal_lengths clear sealed).0))
        ∙ ap or_failed sealed
