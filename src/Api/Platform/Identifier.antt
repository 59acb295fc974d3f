-- ===== src/Api/Platform/Identifier.antt =====
-- src/api/platform/mod.rs: the identifier of a platform, and its text.
use csv_rs.Base.{
  ℕ, ◌+◌, ◌-◌, ◌*◌, ◌/◌, ◌%◌, ◌<◌, ◌≡◌, refl, ap₂, arith, Bytes, [], ◌∷◌, length, ltb,
  if◌then◌else◌, IsBytes,
}

-- `Identifier(Vec<u8>)`
abbrev pub Identifier : Type 0
Identifier = Bytes

-- A digit of `{b:02X}`, as its character.
unfoldable pub digit : ℕ → ℕ
digit d = if ltb d 10 then 48 + d else 55 + d

-- `Display for Identifier`: two digits for each byte.
unfoldable pub display : Identifier → Bytes
unfolding digit
display [] = []
display (b ∷ id) = digit (b / 16) ∷ digit (b % 16) ∷ display id

-- What a reader of upper-case hexadecimal makes of a text.
unfoldable pub value : ℕ → ℕ
value c = if ltb c 58 then c - 48 else c - 55

unfoldable pub parse : Bytes → Bytes
unfolding value
parse [] = []
parse (c ∷ []) = []
parse (c ∷ e ∷ text) = (16 * value c + value e) ∷ parse text

value-digit : (d : ℕ) → d < 16 → value (digit d) ≡ d
unfolding value digit
value-digit d h = ground (arith, h)

-- The text of an identifier has two characters for each byte and reads back as the identifier.
parse-display :
    (id : Identifier)
    → IsBytes id
    → (length (display id) ≡ 2 * length id) × (parse (display id) ≡ id)
unfolding parse display
parse-display [] h = (refl, refl)
parse-display (b ∷ id) (byte, bytes) =
    let (len, same) = parse-display id bytes in
    let high = value-digit (b / 16) (omega (arith, byte)) in
    let low = value-digit (b % 16) (omega arith) in
    (
      omega (arith, len),
      ap₂ ◌∷◌ {x = 16 * value (digit (b / 16)) + value (digit (b % 16))} (omega (arith, high, low))
          same,
    )
