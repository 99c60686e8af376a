-- ===== src/Words/Laws.antt =====
-- Laws of words in memory: what is stored on a host is loaded back there, and a word that went
-- through `htonl` stands in the network's order on either host.
use foc_project.Prelude.{ℕ, ◌<◌, ◌^◌, ◌≡◌, refl, arith, length, [], ◌∷◌}
use foc_project.Words.{
  Endian, little, big, be_bytes, store32, load32, htonl, ntohl, store64, load64,
}

pub length-store32 : (h : Endian) (x : ℕ) → length (store32 h x) ≡ 4
unfolding store32
length-store32 little x = refl
length-store32 big x = refl

pub store32-htonl : (h : Endian) (x : ℕ) → x < 2 ^ 32 → store32 h (htonl h x) ≡ be_bytes x
unfolding store32 htonl
store32-htonl little x b = ground arith
store32-htonl big x b = ground arith

pub load32-store32 : (h : Endian) (x : ℕ) → x < 2 ^ 32 → load32 h (store32 h x) ≡ x
unfolding load32 store32
load32-store32 little x b = omega arith
load32-store32 big x b = omega arith

pub htonl-lt : (h : Endian) (x : ℕ) → htonl h x < 2 ^ 32
unfolding htonl
htonl-lt little x = omega arith
htonl-lt big x = omega arith

pub ntohl-htonl : (h : Endian) (x : ℕ) → x < 2 ^ 32 → ntohl h (htonl h x) ≡ x
unfolding htonl
ntohl-htonl little x b = omega arith
ntohl-htonl big x b = omega arith

pub length-store64 : (h : Endian) (x : ℕ) → length (store64 h x) ≡ 8
unfolding store64
length-store64 little x = refl
length-store64 big x = refl

pub load64-store64 : (h : Endian) (x : ℕ) → x < 2 ^ 64 → load64 h (store64 h x) ≡ x
unfolding load64 store64
load64-store64 little x b = omega arith
load64-store64 big x b = omega arith

-- A word in the network's order is read to its value on either host.
pub ntohl-load32 : (h : Endian) (x : ℕ) → x < 2 ^ 32 → ntohl h (load32 h (be_bytes x)) ≡ x
unfolding load32 htonl
ntohl-load32 little x b = omega arith
ntohl-load32 big x b = omega arith

-- Four bytes are stored back as they were loaded.
pub store32-load32 :
    (h : Endian) (a b c d : ℕ)
    → a < 256
    → b < 256
    → c < 256
    → d < 256
    → store32 h (load32 h (a ∷ b ∷ c ∷ d ∷ [])) ≡ a ∷ b ∷ c ∷ d ∷ []
unfolding store32 load32
store32-load32 little a b c d ha hb hc hd = ground arith
store32-load32 big a b c d ha hb hc hd = ground arith

pub load32-lt :
    (h : Endian) (a b c d : ℕ)
    → a < 256
    → b < 256
    → c < 256
    → d < 256
    → load32 h (a ∷ b ∷ c ∷ d ∷ []) < 2 ^ 32
unfolding load32
load32-lt little a b c d ha hb hc hd = omega arith
load32-lt big a b c d ha hb hc hd = omega arith
