-- ===== src/Certs/Usage.antt =====
-- src/certs/mod.rs: what a key may be used for, and the algorithm that goes with it.
use csv_rs.Base.{ℕ, Bool, ◌||◌, ◌==◌, if◌then◌else◌, ascii, Bytes}
use csv_rs.Base.{Outcome, ok, err}
use csv_rs.Error.{IoError, of_kind, invalid_input}

-- `struct Usage(u32)`
abbrev pub Usage : Type 0
Usage = ℕ

-- HYGON Root Key.
abbrev pub hrk : Usage
hrk = 0x0000

-- HYGON Signing Key.
abbrev pub hsk : Usage
hsk = 0x0013

-- Owner Certificate Authority.
abbrev pub oca : Usage
oca = 0x1001

-- Platform Endorsement Key.
abbrev pub pek : Usage
pek = 0x1002

-- Platform Diffie-Hellman.
abbrev pub pdh : Usage
pdh = 0x1003

-- Chip Endorsement Key.
abbrev pub cek : Usage
cek = 0x1004

abbrev pub inv : Usage
inv = 0x1000

-- `Default for Usage`
abbrev pub default_usage : Usage
default_usage = 0

-- `From<u32> for Usage`, on a little-endian host.
abbrev pub usage_of_u32 : ℕ → Usage
usage_of_u32 value = value

-- `struct Algorithm(u32)`
abbrev pub Algorithm : Type 0
Algorithm = ℕ

abbrev pub sm2_sa : Algorithm
sm2_sa = 0x0004

abbrev pub sm2_dh : Algorithm
sm2_dh = 0x0005

abbrev pub no_algorithm : Algorithm
no_algorithm = 0x0000

-- `Default for Algorithm`
abbrev pub default_algorithm : Algorithm
default_algorithm = 0

-- `From<u32> for Algorithm`, on a little-endian host.
abbrev pub algorithm_of_u32 : ℕ → Algorithm
algorithm_of_u32 value = value

-- `TryFrom<Usage> for String`
unfoldable pub usage_name : Usage → Outcome IoError Bytes
usage_name usage =
    if usage == hrk
    then ok (ascii "HYGON-SSD-HRK")
    else if usage == hsk
    then ok (ascii "HYGON-SSD-HSK")
    else if usage == oca
    then ok (ascii "HYGON-SSD-OCA")
    else if usage == pek
    then ok (ascii "HYGON-SSD-PEK")
    else if usage == pdh
    then ok (ascii "HYGON-SSD-PDH")
    else if usage == cek
    then ok (ascii "HYGON-SSD-CEK")
    else err (of_kind invalid_input)

-- `TryFrom<Usage> for Algorithm`
unfoldable pub usage_algorithm : Usage → Outcome IoError Algorithm
usage_algorithm usage =
    if usage == pdh
    then ok sm2_dh
    else if usage == hrk || usage == hsk || usage == oca || usage == pek || usage == cek
    then ok sm2_sa
    else err (of_kind invalid_input)

-- The message digests that the crate asks OpenSSL for.
pub data MessageDigest : Type 0 where
  sm3 : MessageDigest

-- `TryFrom<Algorithm> for hash::MessageDigest`
unfoldable pub algorithm_digest : Algorithm → Outcome IoError MessageDigest
algorithm_digest algo =
    if algo == sm2_sa || algo == sm2_dh then ok sm3 else err (of_kind invalid_input)

-- One of the six usages that keys and signatures have.
unfoldable pub is_usage : Usage → Bool
is_usage usage =
    usage == cek || usage == hrk || usage == hsk || usage == oca || usage == pdh || usage == pek
