-- ===== src/Util/Memory.antt =====
-- The memory layout of a `#[repr(C)]` type: its size, its bytes, and the value that bytes stand
-- for. Every structure that the crate loads or saves is free of padding, so its layout is the
-- layouts of its fields in order; padding elsewhere is written out as a field of its own.
mod Words
use Words.{le_value-le_bytes, le_bytes-le_value, le_value-lt}
pub use Words.{le_bytes-IsArray}
unfoldable pub use Words.{le_value, le_bytes}
use csv_rs.Base.{ℕ, ◌+◌, ◌^◌, ◌<◌, ◌≡◌, refl, ap, ap₂, ◌∙◌, arith}
use csv_rs.Base.{◌++◌, Bytes, length, take, drop, IsByte, IsArray, All-append}
use csv_rs.Base.{take-append, drop-append, length-append, take-append-drop, All-take, All-drop}
use csv_rs.Base.{length-take, length-drop}

pub record Layout {ℓ} (T : Type ℓ) : Type ℓ where
  pub size : ℕ
  pub to_bytes : T → Bytes
  pub of_bytes : Bytes → T

-- What makes a layout faithful, where `Fits` says which values the Rust type has: the bytes of a
-- value have the type's size and give the value back, and any bytes of that size are those of a
-- value.
pub record IsFaithful {ℓ} {T : Type ℓ} (L : Layout T) (Fits : T → Type 0) : Type ℓ where
  pub to_bytes-IsArray : (t : T) → Fits t → IsArray L.size (L.to_bytes t)
  pub of_bytes-to_bytes : (t : T) → Fits t → L.of_bytes (L.to_bytes t) ≡ t
  pub to_bytes-of_bytes : (b : Bytes) → IsArray L.size b → L.to_bytes (L.of_bytes b) ≡ b
  pub of_bytes-Fits : (b : Bytes) → IsArray L.size b → Fits (L.of_bytes b)

-- `[u8; n]`
abbrev pub array : ℕ → Layout Bytes
array n = record { size = n; to_bytes = λ b. b; of_bytes = λ b. b }

pub array-IsFaithful : (n : ℕ) → IsFaithful (array n) (IsArray n)
array-IsFaithful n = record {
  to_bytes-IsArray = λ t h. h;
  of_bytes-to_bytes = λ t h. refl;
  to_bytes-of_bytes = λ b h. refl;
  of_bytes-Fits = λ b h. h;
}

-- `u8`, `u16` and `u32`, of `n` bytes.
abbrev pub word : ℕ → Layout ℕ
word n = record { size = n; to_bytes = le_bytes n; of_bytes = le_value }

abbrev pub IsWord : ℕ → ℕ → Type 0
IsWord n v = v < 256 ^ n

pub length-le_bytes : (n v : ℕ) → length (le_bytes n v) ≡ n
length-le_bytes n v = (le_bytes-IsArray n v).size

pub word-IsFaithful : (n : ℕ) → IsFaithful (word n) (IsWord n)
word-IsFaithful n = record {
  to_bytes-IsArray = λ v h. le_bytes-IsArray n v;
  of_bytes-to_bytes = le_value-le_bytes n;
  to_bytes-of_bytes = λ b h. le_bytes-le_value n b h;
  of_bytes-Fits = λ b h. le_value-lt n b h;
}

module _ {ℓ} {A B : Type ℓ} (L : Layout A) (M : Layout B) where
  -- Two fields, one behind the other.
  abbrev pub fields : Layout (A × B)
  fields = record {
    size = L.size + M.size;
    to_bytes = λ (a, b). L.to_bytes a ++ M.to_bytes b;
    of_bytes = λ s. (L.of_bytes (take L.size s), M.of_bytes (drop L.size s));
  }

abbrev pub Both {ℓ} : {A B : Type ℓ} → (A → Type 0) → (B → Type 0) → A × B → Type 0
Both P Q (a, b) = P a × Q b

take-IsArray : (m n : ℕ) (s : Bytes) → IsArray (m + n) s → IsArray m (take m s)
take-IsArray m n s h = record {
  size = omega (arith, length-take m s, h.size);
  bytes = All-take IsByte m s h.bytes;
}

drop-IsArray : (m n : ℕ) (s : Bytes) → IsArray (m + n) s → IsArray n (drop m s)
drop-IsArray m n s h = record {
  size = omega (arith, length-drop m s, h.size);
  bytes = All-drop IsByte m s h.bytes;
}

pub append-IsArray : (m n : ℕ) (s t : Bytes) → IsArray m s → IsArray n t → IsArray (m + n) (s ++ t)
append-IsArray m n s t hs ht = record {
  size = omega (arith, length-append s t, hs.size, ht.size);
  bytes = All-append IsByte s t hs.bytes ht.bytes;
}

module _ {ℓ} {A B : Type ℓ} {L : Layout A} {M : Layout B} {P : A → Type 0} {Q : B → Type 0} where
  pub fields-IsFaithful : IsFaithful L P → IsFaithful M Q → IsFaithful (fields L M) (Both P Q)
  fields-IsFaithful F G = record {
    to_bytes-IsArray = λ (a, b) (p, q).
        append-IsArray L.size M.size _ _ (F.to_bytes-IsArray a p) (G.to_bytes-IsArray b q);
    of_bytes-to_bytes = λ (a, b) (p, q).
        let ha = (F.to_bytes-IsArray a p).size in
        ap₂ (λ x y. (x, y))
          (ap L.of_bytes (take-append L.size _ (M.to_bytes b) ha) ∙ F.of_bytes-to_bytes a p)
          (ap M.of_bytes (drop-append L.size _ (M.to_bytes b) ha) ∙ G.of_bytes-to_bytes b q);
    to_bytes-of_bytes = λ s h.
        ap₂ ◌++◌ (F.to_bytes-of_bytes _ (take-IsArray L.size M.size s h))
          (G.to_bytes-of_bytes _ (drop-IsArray L.size M.size s h))
        ∙ take-append-drop L.size s;
    of_bytes-Fits = λ s h. (
      F.of_bytes-Fits _ (take-IsArray L.size M.size s h),
      G.of_bytes-Fits _ (drop-IsArray L.size M.size s h),
    );
  }

-- A structure whose fields are those of a nested pair.
abbrev pub structure {ℓ} : {A B : Type ℓ} → Layout A → (A → B) → (B → A) → Layout B
structure L make parts = record {
  size = L.size;
  to_bytes = λ b. L.to_bytes (parts b);
  of_bytes = λ s. make (L.of_bytes s);
}

-- Where `make` and `parts` are inverse, the structure is as faithful as the pair.
pub structure-IsFaithful {ℓ} :
    {A B : Type ℓ} {L : Layout A} {P : A → Type 0} (make : A → B) (parts : B → A)
    → IsFaithful L P
    → ((b : B) → make (parts b) ≡ b)
    → ((a : A) → parts (make a) ≡ a)
    → IsFaithful (structure L make parts) (λ b. P (parts b))
structure-IsFaithful {L} {P} make parts F there back = record {
  to_bytes-IsArray = λ b h. F.to_bytes-IsArray (parts b) h;
  of_bytes-to_bytes = λ b h. ap make (F.of_bytes-to_bytes (parts b) h) ∙ there b;
  to_bytes-of_bytes = λ s h. ap L.to_bytes (back (L.of_bytes s)) ∙ F.to_bytes-of_bytes s h;
  of_bytes-Fits = λ s h. rw back (F.of_bytes-Fits s h);
}

-- A structure with padding: its bytes give back the value that `make` sees in its parts.
pub structure-of_bytes {ℓ} :
    {A B : Type ℓ} {L : Layout A} {P : A → Type 0} (make : A → B) (parts : B → A)
    → IsFaithful L P
    → (b : B) → P (parts b)
    → make (parts b) ≡ b
    → (structure L make parts).of_bytes ((structure L make parts).to_bytes b) ≡ b
structure-of_bytes make parts F b h there = ap make (F.of_bytes-to_bytes (parts b) h) ∙ there
