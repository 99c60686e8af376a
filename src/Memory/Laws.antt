-- ===== src/Memory/Laws.antt =====
-- Laws of buffer reads and writes.
use foc_project.Prelude.{
  ℕ, zero, suc, ◌+◌, ◌-◌, ◌≤◌, ◌<◌, ◌≡◌, refl, sym, ap, ◌∙◌, ◌≢◌, [], ◌∷◌, ◌++◌, append-nil,
  append_assoc, arith, length, take, drop, replicate, le→leb, lt→leb_false, All, length-append,
  length-replicate, take-append, drop-append, drop-replicate, length-take, length-drop, take_all,
}
use foc_project.Memory.{
  Buffer, Result, ok, failed, thrown, ◌>>=◌, undefined, zeros, read, write, until_nul, strncpy,
  c_string, allocate,
}

pub length-zeros : (n : ℕ) → length (zeros n) ≡ n
unfolding zeros
length-zeros n = length-replicate n 0

take-eq-append : (n : ℕ) (xs ys : Buffer) → n ≡ length xs → take n (xs ++ ys) ≡ xs
take-eq-append n xs ys e = rw e (take-append xs ys)

drop-eq-append : (n : ℕ) (xs ys : Buffer) → n ≡ length xs → drop n (xs ++ ys) ≡ ys
drop-eq-append n xs ys e = rw e (drop-append xs ys)

-- A field that lies inside the buffer is read as it stands there.
pub read-append :
    (xs ys zs : Buffer) (pos n : ℕ)
    → pos ≡ length xs
    → n ≡ length ys
    → read (xs ++ (ys ++ zs)) pos n ≡ ok ys
unfolding read
read-append xs ys zs pos n e f = rw (
  le→leb (pos + n) (length (xs ++ (ys ++ zs)))
      (omega (arith, length-append xs (ys ++ zs), length-append ys zs)),
  drop-eq-append pos xs (ys ++ zs) e,
  take-eq-append n ys zs f,
)

pub read-append_end :
    (xs ys : Buffer) (pos n : ℕ) → pos ≡ length xs → n ≡ length ys → read (xs ++ ys) pos n ≡ ok ys
read-append_end xs ys pos n e f =
    ap (λ b. read (xs ++ b) pos n) (sym (append-nil ys)) ∙ read-append xs ys [] pos n e f

pub read_short : (buf : Buffer) (pos n : ℕ) → length buf < pos + n → read buf pos n ≡ undefined
unfolding read
read_short buf pos n h = rw (lt→leb_false (pos + n) (length buf) h)

pub length-read : (buf : Buffer) (pos n : ℕ) {b : Buffer} → read buf pos n ≡ ok b → length b ≡ n
unfolding read
length-read buf pos n h = ground (arith, length-take n (drop pos buf), length-drop pos buf)

drop-append_more : (xs ys : Buffer) (m : ℕ) → drop (length xs + m) (xs ++ ys) ≡ drop m ys
unfolding drop
drop-append_more [] ys m = let e : 0 + m ≡ m = omega arith in rw e
drop-append_more (x ∷ xs) ys m =
    let e : suc (length xs) + m ≡ suc (length xs + m) = omega arith in
    rw e (drop-append_more xs ys m)

drop-append_zeros :
    (xs : Buffer) (n m k k' : ℕ)
    → n ≡ length xs + m
    → k ≡ m + k'
    → drop n (xs ++ zeros k) ≡ zeros k'
unfolding zeros
drop-append_zeros xs n m k k' e f =
    let rest : k - m ≡ k' = omega arith in
    rw (e, drop-append_more xs (replicate k 0) m, drop-replicate {A = ℕ} m k 0, rest)

-- A write behind `xs` into zeroed space puts the bytes there and leaves the rest zero.
pub write-zeros :
    (xs bs : Buffer) (pos k k' : ℕ)
    → pos ≡ length xs
    → k ≡ length bs + k'
    → write (xs ++ zeros k) pos bs ≡ ok ((xs ++ bs) ++ zeros k')
unfolding write
write-zeros xs bs pos k k' e h = rw (
  le→leb (pos + length bs) (length (xs ++ zeros k))
      (omega (arith, length-append xs (zeros k), length-zeros k)),
  take-eq-append pos xs (zeros k) e,
  drop-append_zeros xs (pos + length bs) (length bs) k k' (omega arith) h,
  append_assoc xs bs (zeros k'),
)

-- The same where the bytes fill the buffer.
pub write-zeros_full :
    (xs bs : Buffer) (pos k : ℕ)
    → pos ≡ length xs
    → k ≡ length bs
    → write (xs ++ zeros k) pos bs ≡ ok (xs ++ bs)
unfolding zeros replicate
write-zeros_full xs bs pos k e h =
    write-zeros xs bs pos k 0 e (omega arith) ∙ ap (λ b. ok b) (append-nil (xs ++ bs))

pub write_long :
    (buf bs : Buffer) (pos : ℕ) → length buf < pos + length bs → write buf pos bs ≡ undefined
unfolding write
write_long buf bs pos h = rw (lt→leb_false (pos + length bs) (length buf) h)

pub length-write :
    (buf bs : Buffer) (pos : ℕ) {b : Buffer} → write buf pos bs ≡ ok b → length b ≡ length buf
unfolding write
length-write buf bs pos h = ground (
  arith,
  length-append (take pos buf) (bs ++ drop (pos + length bs) buf),
  length-append bs (drop (pos + length bs) buf),
  length-take pos buf,
  length-drop (pos + length bs) buf,
)

-- No byte of the list is 0.
abbrev pub NoNul : Buffer → Type 0
NoNul bs = All (λ b. b ≢ 0) bs

pub until_nul_id : (s : Buffer) → NoNul s → until_nul s ≡ s
unfolding until_nul
until_nul_id [] h = refl
until_nul_id (b ∷ bs) h = ground (arith, until_nul_id bs h.1)

pub until_nul-NoNul : (s : Buffer) → NoNul (until_nul s)
unfolding until_nul
until_nul-NoNul [] = tt
until_nul-NoNul (b ∷ bs) = ground (arith, until_nul-NoNul bs)

pub c_string-append : (s rest : Buffer) → NoNul s → c_string (s ++ (0 ∷ rest)) ≡ ok s
unfolding c_string
c_string-append [] rest h = refl
c_string-append (b ∷ bs) rest h = ground (arith, c_string-append bs rest h.1)

pub c_string_unterminated : (s : Buffer) → NoNul s → c_string s ≡ undefined
unfolding c_string
c_string_unterminated [] h = refl
c_string_unterminated (b ∷ bs) h = ground (arith, c_string_unterminated bs h.1)

NoNul-take : (n : ℕ) (s : Buffer) → NoNul s → NoNul (take n s)
unfolding take
NoNul-take zero s h = tt
NoNul-take (suc n) [] h = tt
NoNul-take (suc n) (b ∷ bs) h = (h.0, NoNul-take n bs h.1)

pub length-strncpy : (s : Buffer) (n : ℕ) → length (strncpy s n) ≡ n
unfolding strncpy
length-strncpy s n = omega (
  arith,
  length-append (take n (until_nul s)) (zeros (n - length (until_nul s))),
  length-take n (until_nul s),
  length-zeros (n - length (until_nul s)),
)

-- A name that leaves room for its terminator survives the `char` array.
pub c_string-strncpy :
    (s : Buffer) (n : ℕ) → length (until_nul s) < n → c_string (strncpy s n) ≡ ok (until_nul s)
unfolding strncpy zeros replicate
c_string-strncpy s n h =
    let room : n - length (until_nul s) ≡ suc (n - length (until_nul s) - 1) = omega arith in
    rw (take_all n (until_nul s) (omega arith), room)
      (c_string-append (until_nul s) (zeros (n - length (until_nul s) - 1)) (until_nul-NoNul s))

-- A longer one fills the array, and reading it back runs past the end.
pub c_string-strncpy_long :
    (s : Buffer) (n : ℕ) → n ≤ length (until_nul s) → c_string (strncpy s n) ≡ undefined
unfolding strncpy zeros replicate
c_string-strncpy_long s n h =
    let full : n - length (until_nul s) ≡ 0 = omega arith in
    rw (full, append-nil (take n (until_nul s)))
      (c_string_unterminated _ (NoNul-take n (until_nul s) (until_nul-NoNul s)))

pub allocate_small : (n : ℕ) → n ≤ 0x7fff_ffff_ffff_ffff → allocate n ≡ ok (zeros n)
unfolding allocate
allocate_small n h = rw (le→leb n 0x7fff_ffff_ffff_ffff h)

pub write-zeros_all : (bs : Buffer) (k : ℕ) → k ≡ length bs → write (zeros k) 0 bs ≡ ok bs
write-zeros_all bs k e = write-zeros_full [] bs 0 k refl e

pub read_all : (b : Buffer) (n : ℕ) → n ≡ length b → read b 0 n ≡ ok b
read_all b n e = read-append_end [] b 0 n refl e

-- A write of no bytes at the end.
pub write-end_empty : (b : Buffer) (n : ℕ) → n ≡ length b → write b n [] ≡ ok b
unfolding zeros replicate
write-end_empty b n e =
    ap (λ c. write c n []) (sym (append-nil b))
    ∙ (write-zeros b [] n 0 0 e refl ∙ ap (λ c. ok c) (append-nil (b ++ []) ∙ append-nil b))

-- A write at the front.
pub write_front :
    (buf bs : Buffer) → length bs ≤ length buf → write buf 0 bs ≡ ok (bs ++ drop (length bs) buf)
unfolding write take
write_front buf bs h =
    let e : 0 + length bs ≡ length bs = omega arith in rw (e, le→leb (length bs) (length buf) h)

pub ok-injective {ℓ} : {A : Type ℓ} (a b : A) → ok a ≡ ok b → a ≡ b
ok-injective a b h = cc

-- The first part of a chain that ends well gave a value.
pub first_part {κ ℓ} :
    {B : Type κ} {A : Type ℓ} {last : B} (r : Result A) (next : A → Result B)
    → ok last ≡ (r >>= next)
    → (first : A) × (ok first ≡ r) × (ok last ≡ next first)
first_part undefined next h = cc
first_part thrown next h = cc
first_part failed next h = cc
first_part (ok first) next h = (first, refl, h)

-- The second step of a chain, when the first one ended well.
pub >>=-ok {ℓ κ} :
    {A : Type ℓ} {B : Type κ} (m : Result A) (f : A → Result B) {a : A} {r : Result B}
    → m ≡ ok a
    → (m >>= f) ≡ r
    → f a ≡ r
>>=-ok m f e h = ap (λ x. x >>= f) (sym e) ∙ h
