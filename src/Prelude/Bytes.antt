-- ===== src/Prelude/Bytes.antt =====
-- Byte strings as lists of numbers below 256: length, indexing, and little-endian words.
use Prim.Native.Nat.{ℕ, zero, suc, ◌+◌, ◌*◌, ◌/◌, ◌%◌, ◌^◌, ◌<◌}
use mathlib.Core.Path.{◌≡◌, refl, ap}
use mathlib.Core.List.{List, [], ◌∷◌, ◌++◌}
use native.Mathlib.Omega.{arith}

module _ {ℓ} {A : Type ℓ} where
  abbrev pub length : List A → ℕ
  length [] = 0
  length (x ∷ xs) = suc (length xs)

  abbrev pub get_or : List A → ℕ → A → A
  get_or [] i d = d
  get_or (x ∷ xs) zero d = x
  get_or (x ∷ xs) (suc i) d = get_or xs i d

  abbrev pub replicate : ℕ → A → List A
  replicate zero a = []
  replicate (suc n) a = a ∷ replicate n a

  pub length-append : (xs ys : List A) → length (xs ++ ys) ≡ length xs + length ys
  length-append [] ys = omega arith
  length-append (x ∷ xs) ys = omega (arith, length-append xs ys)

  pub length-replicate : (n : ℕ) (a : A) → length (replicate n a) ≡ n
  length-replicate zero a = refl
  length-replicate (suc n) a = ap suc (length-replicate n a)

  pub get_or-append_left :
      (xs ys : List A) (i : ℕ) (d : A) → i < length xs → get_or (xs ++ ys) i d ≡ get_or xs i d
  get_or-append_left [] ys i d h = absurd (omega arith)
  get_or-append_left (x ∷ xs) ys zero d h = refl
  get_or-append_left (x ∷ xs) ys (suc i) d h = get_or-append_left xs ys i d (omega arith)

-- `uint32_t` and `uint64_t` addition.
abbrev pub add32 : ℕ → ℕ → ℕ
add32 a b = (a + b) % 2 ^ 32

abbrev pub add64 : ℕ → ℕ → ℕ
add64 a b = (a + b) % 2 ^ 64

-- The `n` low bytes of a value, least significant first, as `memcpy` of an integer leaves them on
-- the little-endian hosts that the emulator runs on.
abbrev pub le_bytes : ℕ → ℕ → List ℕ
le_bytes zero v = []
le_bytes (suc n) v = (v % 256) ∷ le_bytes n (v / 256)

-- The value of a little-endian byte string.
abbrev pub le_value : List ℕ → ℕ
le_value [] = 0
le_value (b ∷ bs) = b + 256 * le_value bs

abbrev pub u16_bytes : ℕ → List ℕ
u16_bytes = le_bytes 2

abbrev pub u32_bytes : ℕ → List ℕ
u32_bytes = le_bytes 4

abbrev pub u64_bytes : ℕ → List ℕ
u64_bytes = le_bytes 8

-- The `n` bytes from index `i` on.
abbrev pub slice : ℕ → ℕ → List ℕ → List ℕ
slice i zero bs = []
slice i (suc n) bs = get_or bs i 0 ∷ slice (suc i) n bs

-- Fields of a packed struct that `memcpy` filled from the bytes.
abbrev pub u8_at : List ℕ → ℕ → ℕ
u8_at bs i = get_or bs i 0

abbrev pub u16_at : List ℕ → ℕ → ℕ
u16_at bs i = le_value (slice i 2 bs)

abbrev pub u32_at : List ℕ → ℕ → ℕ
u32_at bs i = le_value (slice i 4 bs)

abbrev pub u64_at : List ℕ → ℕ → ℕ
u64_at bs i = le_value (slice i 8 bs)

pub length-le_bytes : (n v : ℕ) → length (le_bytes n v) ≡ n
length-le_bytes zero v = refl
length-le_bytes (suc n) v = ap suc (length-le_bytes n (v / 256))

-- A 32-bit value survives the trip through its four bytes.
pub le_value-u32_bytes : (v : ℕ) → v < 2 ^ 32 → le_value (u32_bytes v) ≡ v
le_value-u32_bytes v h = omega arith

pub le_value-u64_bytes : (v : ℕ) → v < 2 ^ 64 → le_value (u64_bytes v) ≡ v
le_value-u64_bytes v h = omega arith
