-- ===== src/Util/Memory/Words.antt =====
-- Little-endian words.
use native.Mathlib.Nat.{pow-succ'}
use csv_rs.Base.{ℕ, zero, suc, ◌+◌, ◌*◌, ◌/◌, ◌%◌, ◌^◌, ◌<◌, ◌≡◌, refl, ap, ap₂, ◌∙◌, arith}
use csv_rs.Base.{[], ◌∷◌, Bytes, IsArray}

-- The number that bytes stand for, lowest first.
unfoldable pub le_value : Bytes → ℕ
le_value [] = 0
le_value (b ∷ bs) = b + 256 * le_value bs

-- The `n` lowest bytes of a number, lowest first.
unfoldable pub le_bytes : ℕ → ℕ → Bytes
le_bytes zero v = []
le_bytes (suc n) v = (v % 256) ∷ le_bytes n (v / 256)

pub le_bytes-IsArray : (n v : ℕ) → IsArray n (le_bytes n v)
unfolding le_bytes
le_bytes-IsArray zero v = record { size = refl; bytes = tt }
le_bytes-IsArray (suc n) v =
    let rest = le_bytes-IsArray n (v / 256) in
    record { size = ap suc rest.size; bytes = (omega arith, rest.bytes) }

pub le_value-le_bytes : (n v : ℕ) → v < 256 ^ n → le_value (le_bytes n v) ≡ v
unfolding le_value le_bytes
le_value-le_bytes zero v h = omega arith
le_value-le_bytes (suc n) v h =
    omega (arith, le_value-le_bytes n (v / 256) (omega (arith, pow-succ' 256 n)))

pub le_bytes-le_value : (n : ℕ) (b : Bytes) → IsArray n b → le_bytes n (le_value b) ≡ b
unfolding le_value le_bytes
le_bytes-le_value zero [] h = refl
le_bytes-le_value zero (b ∷ bs) h = absurd (omega arith)
le_bytes-le_value (suc n) [] h = absurd (omega arith)
le_bytes-le_value (suc n) (b ∷ bs) h = ap₂ ◌∷◌ (omega arith) (
    ap (λ (v : ℕ). le_bytes n v) (omega arith)
    ∙ le_bytes-le_value n bs (record { size = omega arith; bytes = h.bytes.1 }))

pub le_value-lt : (n : ℕ) (b : Bytes) → IsArray n b → le_value b < 256 ^ n
unfolding le_value
le_value-lt zero [] h = omega arith
le_value-lt zero (b ∷ bs) h = absurd (omega arith)
le_value-lt (suc n) [] h = absurd (omega arith)
le_value-lt (suc n) (b ∷ bs) h =
    omega
      (arith, pow-succ' 256 n, le_value-lt n bs (record { size = omega arith; bytes = h.bytes.1 }))
