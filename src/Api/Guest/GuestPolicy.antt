-- ===== src/Api/Guest/GuestPolicy.antt =====
-- src/api/guest/types.rs: the policy of a guest, a number of 32 bits in twelve fields.
use csv_rs.Base.{ℕ, ◌+◌, ◌*◌, ◌-◌, ◌/◌, ◌%◌, ◌^◌, ◌<◌, ◌≡◌, arith, bit_xor, bit_xor_twice}

-- `struct GuestPolicy(u32)`
abbrev pub GuestPolicy : Type 0
GuestPolicy = ℕ

-- A getter of `bitfield!`: the bits from the lower to the upper one.
abbrev field : ℕ → ℕ → GuestPolicy → ℕ
field msb lsb p = p / 2 ^ lsb % 2 ^ (msb - lsb + 1)

unfoldable pub nodbg : GuestPolicy → ℕ
nodbg = field 0 0

unfoldable pub noks : GuestPolicy → ℕ
noks = field 1 1

unfoldable pub es : GuestPolicy → ℕ
es = field 2 2

unfoldable pub nosend : GuestPolicy → ℕ
nosend = field 3 3

unfoldable pub domain : GuestPolicy → ℕ
domain = field 4 4

unfoldable pub csv : GuestPolicy → ℕ
csv = field 5 5

unfoldable pub csv3 : GuestPolicy → ℕ
csv3 = field 6 6

unfoldable pub asid_reuse : GuestPolicy → ℕ
asid_reuse = field 7 7

unfoldable pub hsk_version : GuestPolicy → ℕ
hsk_version = field 11 8

unfoldable pub cek_version : GuestPolicy → ℕ
cek_version = field 15 12

unfoldable pub api_major : GuestPolicy → ℕ
api_major = field 23 16

unfoldable pub api_minor : GuestPolicy → ℕ
api_minor = field 31 24

-- `GuestPolicy::xor`
unfoldable pub xor : GuestPolicy → ℕ → GuestPolicy
xor p anonce = bit_xor p anonce

-- The eight flags, and the four versions.
abbrev pub flags : GuestPolicy → ℕ
flags p =
    nodbg p
    + 2 * noks p
    + 4 * es p
    + 8 * nosend p
    + 16 * domain p
    + 32 * csv p
    + 64 * csv3 p
    + 128 * asid_reuse p

flags-eq : (p : GuestPolicy) → flags p ≡ p % 256
unfolding nodbg noks es nosend domain csv csv3 asid_reuse
flags-eq p = omega arith

-- The twelve fields cover the 32 bits of a policy without a gap and without an overlap: they add up,
-- each at its own place, to the policy. This holds as well of a policy that was masked and unmasked
-- with the same number.
pub fields-tile :
    (p anonce : ℕ)
    → p < 2 ^ 32
    → (p
        ≡ flags p
          + 2 ^ 8 * hsk_version p
          + 2 ^ 12 * cek_version p
          + 2 ^ 16 * api_major p
          + 2 ^ 24 * api_minor p)
      × (xor (xor p anonce) anonce ≡ p)
unfolding hsk_version cek_version api_major api_minor xor
fields-tile p anonce h = (omega (arith, flags-eq p), bit_xor_twice p anonce)
