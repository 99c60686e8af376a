-- ===== src/Memory.antt =====
-- Buffers (`vector<unsigned char>`) and the C routines that the sources run on them: `memcpy` with
-- its offsets, zeroed allocation, `strncpy`, and the conversion of a `char` array to a string.
-- A read or a write outside its object has no defined behaviour: it gives `undefined`.
pub mod Laws
use foc_project.Prelude.{
  ℕ, zero, suc, ◌+◌, ◌-◌, Bool, true, false, Option, none, some, List, [], ◌∷◌, ◌++◌, length, take,
  drop, replicate, leb, ◌==◌, if◌then◌else◌,
}

-- Bytes are numbers below 256.
abbrev pub Buffer : Type 0
Buffer = List ℕ

-- What a call does: it returns a value, reports failure (`false`, `0` or a null pointer), throws an
-- exception, or has no defined behaviour.
pub data Result {ℓ} (A : Type ℓ) : Type ℓ where
  ok : A → Result A
  failed thrown undefined : Result A

infixl 5 ◌>>=◌
abbrev pub ◌>>=◌ {κ ℓ} : {B : Type κ} {A : Type ℓ} → Result A → (A → Result B) → Result B
undefined >>= next = undefined
thrown >>= next = thrown
failed >>= next = failed
ok first >>= next = next first

-- A pointer or a status that tells of failure.
abbrev pub or_failed {ℓ} : {A : Type ℓ} → Option A → Result A
or_failed none = failed
or_failed (some a) = ok a

-- A call that throws instead of giving a value.
abbrev pub or_thrown {ℓ} : {A : Type ℓ} → Option A → Result A
or_thrown none = thrown
or_thrown (some a) = ok a

unfoldable pub zeros : ℕ → Buffer
zeros n = replicate n 0

-- The source of `memcpy(…, buf.data() + pos, n)`.
unfoldable pub read : Buffer → ℕ → ℕ → Result Buffer
read buf pos n = if leb (pos + n) (length buf) then ok (take n (drop pos buf)) else undefined

-- `memcpy(buf.data() + pos, …)` of the given bytes.
unfoldable pub write : Buffer → ℕ → Buffer → Result Buffer
write buf pos bytes =
    if leb (pos + length bytes) (length buf)
    then ok (take pos buf ++ (bytes ++ drop (pos + length bytes) buf))
    else undefined

-- A one-byte object, after `memcpy(&object, buf.data() + pos, 1)`.
unfoldable pub read_byte : Buffer → ℕ → Result ℕ
read_byte [] pos = undefined
read_byte (b ∷ buf) zero = ok b
read_byte (b ∷ buf) (suc pos) = read_byte buf pos

-- The bytes before the first 0: what `c_str()` shows to C code, whose own end stands for a 0.
unfoldable pub until_nul : Buffer → Buffer
until_nul [] = []
until_nul (b ∷ bs) = if b == 0 then [] else b ∷ until_nul bs

-- `strncpy(dst, s.c_str(), n)`: all `n` bytes of `dst`.
unfoldable pub strncpy : Buffer → ℕ → Buffer
strncpy s n = take n (until_nul s) ++ zeros (n - length (until_nul s))

-- `(string)array`. With no 0 in the array the read goes past its end.
unfoldable pub c_string : Buffer → Result Buffer
c_string [] = undefined
c_string (b ∷ bs) = let rest = c_string bs in if b == 0 then ok [] else rest >>= λ s. ok (b ∷ s)

-- `Buffer(n)`: zeroed, and refused above what a vector may hold.
unfoldable pub allocate : ℕ → Result Buffer
allocate n = if leb n 0x7fff_ffff_ffff_ffff then ok (zeros n) else thrown
