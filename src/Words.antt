-- ===== src/Words.antt =====
-- Machine words in memory. An `int` and a `uint32_t` are patterns of 32 bits (numbers below
-- 2 ^ 32), a `size_t` one of 64 bits. `Endian` is the byte order of the host.
pub mod Laws
use foc_project.Prelude.{
  ℕ, ◌+◌, ◌-◌, ◌*◌, ◌/◌, ◌%◌, ◌^◌, Bool, List, [], ◌∷◌, ◌++◌, ltb, ◌==◌, if◌then◌else◌,
}
use foc_project.Memory.{Buffer}

pub data Endian : Type 0 where
  little big : Endian

-- Four bytes, most significant first: the network's order.
abbrev pub be_bytes : ℕ → Buffer
be_bytes x = (x / 0x1000000 % 256) ∷ (x / 0x10000 % 256) ∷ (x / 0x100 % 256) ∷ (x % 256) ∷ []

abbrev pub le_bytes : ℕ → Buffer
le_bytes x = (x % 256) ∷ (x / 0x100 % 256) ∷ (x / 0x10000 % 256) ∷ (x / 0x1000000 % 256) ∷ []

-- The four bytes that a 32-bit object occupies.
unfoldable pub store32 : Endian → ℕ → Buffer
store32 little x = le_bytes x
store32 big x = be_bytes x

-- The object that four bytes make up. (Other lengths do not occur.)
abbrev from_be : Buffer → ℕ
from_be (a ∷ b ∷ c ∷ d ∷ []) = a * 0x1000000 + b * 0x10000 + c * 0x100 + d
from_be _ = 0

abbrev from_le : Buffer → ℕ
from_le (a ∷ b ∷ c ∷ d ∷ []) = d * 0x1000000 + c * 0x10000 + b * 0x100 + a
from_le _ = 0

unfoldable pub load32 : Endian → Buffer → ℕ
load32 little bs = from_le bs
load32 big bs = from_be bs

-- `htonl` and `ntohl`, which are one function: the bytes are swapped on a little-endian host.
unfoldable pub htonl : Endian → ℕ → ℕ
htonl little x = from_le (be_bytes x)
htonl big x = x % 2 ^ 32

abbrev pub ntohl : Endian → ℕ → ℕ
ntohl = htonl

-- The eight bytes of a `size_t`.
unfoldable pub store64 : Endian → ℕ → Buffer
store64 little x = le_bytes (x % 2 ^ 32) ++ le_bytes (x / 2 ^ 32)
store64 big x = be_bytes (x / 2 ^ 32) ++ be_bytes (x % 2 ^ 32)

abbrev load_halves : Endian → Buffer → ℕ
load_halves little (a ∷ b ∷ c ∷ d ∷ rest) = from_le (a ∷ b ∷ c ∷ d ∷ []) + from_le rest * 2 ^ 32
load_halves big (a ∷ b ∷ c ∷ d ∷ rest) = from_be (a ∷ b ∷ c ∷ d ∷ []) * 2 ^ 32 + from_be rest
load_halves _ _ = 0

unfoldable pub load64 : Endian → Buffer → ℕ
load64 = load_halves

-- The pattern of -1.
abbrev pub minus_one : ℕ
minus_one = 0xffff_ffff

-- `std::numeric_limits<int>::max()`
abbrev pub int_max : ℕ
int_max = 0x7fff_ffff

-- An `int` becomes a `size_t` by sign extension.
unfoldable pub widen : ℕ → ℕ
widen x = if ltb x 0x8000_0000 then x else x + 0xffff_ffff_0000_0000

-- A `size_t` difference wraps below 0.
unfoldable pub sub64 : ℕ → ℕ → ℕ
sub64 a b = (a + (2 ^ 64 - b)) % 2 ^ 64

-- How often `for (int i = 0; i < n; i++)` runs: never if `n` is negative.
unfoldable pub rounds : ℕ → ℕ
rounds n = if ltb n 0x8000_0000 then n else 0
