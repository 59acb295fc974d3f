-- ===== src/Error.antt =====
-- src/error.rs: the firmware's error conditions, the codes the kernel reports them by, their texts,
-- and the conversions between them and `std::io::Error`.
pub mod Laws
use Prim.Native.String.{◌++◌ as ◌<>◌}
use csv_rs.Base.{ℕ, String, if◌then◌else◌, ◌==◌, Option, none, some}

-- The `std::io::ErrorKind`s that the crate makes itself.
pub data ErrorKind : Type 0 where
  invalid_input invalid_data not_found unexpected_eof other : ErrorKind

-- `std::io::Error` by the ways in which the crate comes by one: from a kind, from a kind with a
-- text or with an error of its own inside, from the operating system by errno, and from OpenSSL by
-- the stack of error codes.
mutual
  pub data IoError : Type 0 where
    of_kind : ErrorKind → IoError
    message : ErrorKind → String → IoError
    wrapped : ErrorKind → Error → IoError
    os : ℕ → IoError
    openssl : ℕ → IoError

  pub data Error : Type 0 where
    io_error : IoError → Error
    invalid_platform_state invalid_guest_state invalid_config invalid_len already_owned
          invalid_certificate policy_failure inactive invalid_address bad_signature bad_measurement
          asid_owned invalid_asid wbinvd_required df_flush_required invalid_guest invalid_command
          active hardware_platform hardware_unsafe unsupported invalid_param resource_limit
          secure_data_invalid invalid_page_size invalid_page_state invalid_mdata_entry
          invalid_page_owner aead_oflow rb_mode_exited rmp_init_required bad_svn bad_version
          shutdown_required update_failed restore_required rmp_init_failed invalid_key unknown :
        Error

-- `Indeterminate<Error>`
pub data Indeterminate : Type 0 where
  known : Error → Indeterminate
  indeterminate : Indeterminate

-- `#[repr(u32)]`: a variant without a number is one more than the variant before it.
unfoldable pub discriminant : Error → ℕ
discriminant (io_error e) = 0
discriminant invalid_platform_state = 0x01
discriminant invalid_guest_state = 0x02
discriminant invalid_config = 0x03
discriminant invalid_len = 0x04
discriminant already_owned = 0x05
discriminant invalid_certificate = 0x06
discriminant policy_failure = 0x07
discriminant inactive = 0x08
discriminant invalid_address = 0x09
discriminant bad_signature = 0x0a
discriminant bad_measurement = 0x0b
discriminant asid_owned = 0x0c
discriminant invalid_asid = 0x0d
discriminant wbinvd_required = 0x0e
discriminant df_flush_required = 0x0f
discriminant invalid_guest = 0x10
discriminant invalid_command = 0x11
discriminant active = 0x12
discriminant hardware_platform = 0x13
discriminant hardware_unsafe = 0x14
discriminant unsupported = 0x15
discriminant invalid_param = 0x16
discriminant resource_limit = 0x17
discriminant secure_data_invalid = 0x18
discriminant invalid_page_size = 0x19
discriminant invalid_page_state = 0x1a
discriminant invalid_mdata_entry = 0x1b
discriminant invalid_page_owner = 0x1c
discriminant aead_oflow = 0x1d
discriminant rb_mode_exited = 0x1f
discriminant rmp_init_required = 0x20
discriminant bad_svn = 0x21
discriminant bad_version = 0x22
discriminant shutdown_required = 0x23
discriminant update_failed = 0x24
discriminant restore_required = 0x25
discriminant rmp_init_failed = 0x26
discriminant invalid_key = 0x27
discriminant unknown = 0x28

-- `From<u32> for Indeterminate<Error>`; `last` is what `io::Error::last_os_error()` gives.
unfoldable pub from_code : IoError → ℕ → Indeterminate
from_code last code =
    if code == 0x00
    then known (io_error last)
    else if code == 0x01
    then known invalid_platform_state
    else if code == 0x02
    then known invalid_guest_state
    else if code == 0x03
    then known invalid_config
    else if code == 0x04
    then known invalid_len
    else if code == 0x05
    then known already_owned
    else if code == 0x06
    then known invalid_certificate
    else if code == 0x07
    then known policy_failure
    else if code == 0x08
    then known inactive
    else if code == 0x09
    then known invalid_address
    else if code == 0x0a
    then known bad_signature
    else if code == 0x0b
    then known bad_measurement
    else if code == 0x0c
    then known asid_owned
    else if code == 0x0d
    then known invalid_asid
    else if code == 0x0e
    then known wbinvd_required
    else if code == 0x0f
    then known df_flush_required
    else if code == 0x10
    then known invalid_guest
    else if code == 0x11
    then known invalid_command
    else if code == 0x12
    then known active
    else if code == 0x13
    then known hardware_platform
    else if code == 0x14
    then known hardware_unsafe
    else if code == 0x15
    then known unsupported
    else if code == 0x16
    then known invalid_param
    else if code == 0x17
    then known resource_limit
    else if code == 0x18
    then known secure_data_invalid
    else if code == 0x19
    then known invalid_page_size
    else if code == 0x1a
    then known invalid_page_state
    else if code == 0x1b
    then known invalid_mdata_entry
    else if code == 0x1c
    then known invalid_page_owner
    else if code == 0x1d
    then known aead_oflow
    else if code == 0x1f
    then known rb_mode_exited
    else if code == 0x20
    then known rmp_init_required
    else if code == 0x21
    then known bad_svn
    else if code == 0x22
    then known bad_version
    else if code == 0x23
    then known shutdown_required
    else if code == 0x24
    then known update_failed
    else if code == 0x25
    then known restore_required
    else if code == 0x26
    then known rmp_init_failed
    else if code == 0x27
    then known invalid_key
    else indeterminate

-- `impl Display for Error`
unfoldable pub description : Error → String
description (io_error e) = "I/O Error"
description invalid_platform_state = "Invalid platform state"
description invalid_guest_state = "Invalid guest state"
description invalid_config = "Platform configuration invalid"
description invalid_len = "Memory buffer too small"
description already_owned = "Platform is already owned"
description invalid_certificate = "Invalid certificate"
description policy_failure = "Policy failure"
description inactive = "Guest is inactive"
description invalid_address = "Provided address is invalid"
description bad_signature = "Provided signature is invalid"
description bad_measurement = "Provided measurement is invalid"
description asid_owned = "ASID is already owned"
description invalid_asid = "ASID is invalid"
description wbinvd_required = "WBINVD instruction required"
description df_flush_required = "DF_FLUSH invocation required"
description invalid_guest = "Guest handle is invalid"
description invalid_command = "Issued command is invalid"
description active = "Guest is active"
description hardware_platform = "Hardware condition occured, safe to re-allocate parameter buffers"
description hardware_unsafe = "Hardware condition occured, unsafe to re-allocate parameter buffers"
description unsupported = "Feature is unsupported"
description invalid_param = "Given parameter is invalid"
description resource_limit = "CSV firmware has run out of required resources to carry out command"
description secure_data_invalid = "CSV platform observed a failed integrity check"
description invalid_page_size = "The RMP page size is incorrect."
description invalid_page_state = "The RMP page state is incorrect."
description invalid_mdata_entry = "The metadata entry is invalid."
description invalid_page_owner = "The page ownership is incorrect"
description aead_oflow = "The AEAD algorithm would have overflowed."
description rb_mode_exited =
    "A Mailbox mode command was sent while the CSV FW was in Ring Buffer mode. Ring Buffer mode has been exited; the Mailbox mode command has been ignored. Retry is recommended."
description rmp_init_required = "The RMP must be reinitialized."
description bad_svn = "SVN of provided image is lower than the committed SVN"
description bad_version = "Firmware version anti-rollback."
description shutdown_required = "An invocation of SNP_SHUTDOWN is required to complete this action."
description update_failed =
    "Update of the firmware internal state or a guest context page has failed."
description restore_required = "Installation of the committed firmware image required"
description rmp_init_failed = "The RMP initialization failed."
description invalid_key = "The key requested is invalid, not present, or not allowed"
description unknown = "Unknown Error"

-- `impl Display for Indeterminate<Error>`
unfoldable pub display : Indeterminate → String
unfolding description
display (known error) = "Known Error: " <> description error
display indeterminate = "Unknown Error Encountered"

-- `error::Error::source`
unfoldable pub cause : Error → Option IoError
cause (io_error e) = some e
cause _ = none

-- `From<io::Error> for Error`
abbrev pub of_io : IoError → Error
of_io error = io_error error

-- `From<ErrorStack> for Error`
abbrev pub of_error_stack : ℕ → Error
of_error_stack stack = io_error (openssl stack)

-- `From<io::Error> for Indeterminate<Error>`
abbrev pub known_io : IoError → Indeterminate
known_io error = known (of_io error)

-- `From<Indeterminate<Error>> for io::Error`
unfoldable pub to_io : Indeterminate → IoError
to_io (known e) = wrapped other e
to_io indeterminate = message other "unknown CSV error"
