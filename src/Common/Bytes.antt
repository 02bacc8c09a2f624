-- ===== src/Common/Bytes.antt =====
-- Numbers as bytes: what Python's `struct` packs and unpacks.
use Prim.Native.Nat.{ℕ, zero, suc, ◌+◌, ◌*◌, ◌/◌, ◌%◌, ◌^◌, ◌<◌}
use mathlib.Core.Path.{◌≡◌, refl, ap₂}
use mathlib.Core.List.{List, [], ◌∷◌, ◌++◌}
use native.Mathlib.Omega.{arith}
use executor_service.Common.Lists.{length, take, drop, All}

-- The bytes of a number, the lowest first.
unfoldable pub le_bytes : ℕ → ℕ → List ℕ
le_bytes zero n = []
le_bytes (suc width) n = n % 256 ∷ le_bytes width (n / 256)

unfoldable pub le_value : List ℕ → ℕ
le_value [] = 0
le_value (b ∷ bs) = b + 256 * le_value bs

-- The number whose bytes are given with the highest first.
unfoldable pub be_from : ℕ → List ℕ → ℕ
be_from acc [] = acc
be_from acc (b ∷ bs) = be_from (acc * 256 + b) bs

-- `count` numbers of `width` bytes each.
unfoldable pub words : (List ℕ → ℕ) → ℕ → ℕ → List ℕ → List ℕ
words value width zero bs = []
words value width (suc count) bs = value (take width bs) ∷ words value width count (drop width bs)

-- The numbers of a list, eight bytes each.
unfoldable pub packed : List ℕ → List ℕ
unfolding le_bytes
packed [] = []
packed (n ∷ ns) = le_bytes 8 n ++ packed ns

pub length-le_bytes : (width n : ℕ) → length (le_bytes width n) ≡ width
unfolding le_bytes
length-le_bytes zero n = refl
length-le_bytes (suc width) n = omega (arith, length-le_bytes width (n / 256))

pub le_value-le_bytes : (width n : ℕ) → n < 256 ^ width → le_value (le_bytes width n) ≡ n
unfolding le_bytes le_value
le_value-le_bytes zero n h = omega arith
le_value-le_bytes (suc width) n h = omega (arith, le_value-le_bytes width (n / 256) (omega arith))

pub length-packed : (ns : List ℕ) → length (packed ns) ≡ 8 * length ns
unfolding packed
length-packed [] = omega arith
length-packed (n ∷ ns) = omega (arith, length-packed ns)

abbrev pub IsWord : ℕ → Type 0
IsWord n = n < 2 ^ 64

-- Unpacking reads back what was packed, whatever follows it.
pub words-packed :
    (ns rest : List ℕ) → All IsWord ns → words le_value 8 (length ns) (packed ns ++ rest) ≡ ns
unfolding words packed
words-packed [] rest h = refl
words-packed (n ∷ ns) rest h = ap₂ ◌∷◌ (le_value-le_bytes 8 n h.0) (words-packed ns rest h.1)
