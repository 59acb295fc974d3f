-- ===== src/Base/Octets.antt =====
-- The values of Rust's bytes and of its arrays of them.
use Prim.Native.Nat.{ℕ, zero, suc, ◌<◌}
use mathlib.Core.Path.{◌≡◌}
use mathlib.Core.Logic.{inl, inr}
use mathlib.Core.Bool.{Bool, true, false}
use mathlib.Core.List.{[], ◌∷◌, reverse, reverse_aux}
use native.Mathlib.Omega.{arith}
use csv_rs.Base.Tests.{ltb, ltb→lt, if◌then◌else◌, Bool-cases}
use csv_rs.Base.Lists.{
  Bytes, length, All, All-replicate, replicate, resize, length-resize, length-replicate,
}

-- The values of a byte.
abbrev pub IsByte : ℕ → Type 0
IsByte b = b < 256

abbrev pub IsBytes : Bytes → Type 0
IsBytes = All IsByte

-- A value of the Rust type `[u8; n]`.
pub record IsArray (n : ℕ) (xs : Bytes) : Type 0 where
  pub size : length xs ≡ n
  pub bytes : IsBytes xs

pub resize-IsArray : (xs : Bytes) (n : ℕ) → IsBytes xs → IsArray n (resize xs n 0)
resize-IsArray xs n h = record { size = length-resize xs n 0; bytes = filled xs n h }
  where
    filled : (xs : Bytes) (n : ℕ) → IsBytes xs → IsBytes (resize xs n 0)
    filled [] n h = All-replicate IsByte n 0 (omega arith)
    filled (x ∷ xs) zero h = tt
    filled (x ∷ xs) (suc n) h = (h.0, filled xs n h.1)

pub replicate-IsArray : (n : ℕ) → IsArray n (replicate n 0)
replicate-IsArray n = record {
  size = length-replicate n 0;
  bytes = All-replicate IsByte n 0 (omega arith);
}

reverse_aux-IsBytes : (xs ys : Bytes) → IsBytes xs → IsBytes ys → IsBytes (reverse_aux xs ys)
reverse_aux-IsBytes [] ys hx hy = hy
reverse_aux-IsBytes (x ∷ xs) ys hx hy = reverse_aux-IsBytes xs (x ∷ ys) hx.1 (hx.0, hy)

pub reverse-IsBytes : (xs : Bytes) → IsBytes xs → IsBytes (reverse xs)
reverse-IsBytes xs h = reverse_aux-IsBytes xs [] h tt

-- Zeros are bytes.
pub zeros-IsBytes : (n : ℕ) → IsBytes (replicate n 0)
zeros-IsBytes n = (replicate-IsArray n).bytes

-- The test for bytes.
abbrev pub all_bytes : Bytes → Bool
all_bytes [] = true
all_bytes (b ∷ bs) = if ltb b 256 then all_bytes bs else false

pub all_bytes-IsBytes : (bs : Bytes) → all_bytes bs ≡ true → IsBytes bs
all_bytes-IsBytes [] h = tt
all_bytes-IsBytes (b ∷ bs) h = elim (Bool-cases (ltb b 256)) [
  | inl small ↦ (ltb→lt b 256 small, all_bytes-IsBytes bs (rw small at h))
  | inr large ↦ cc (rw large at h)
]
