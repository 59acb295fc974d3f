-- ===== src/Api/Guest/Signer.antt =====
-- src/api/guest/types.rs: the evidence that comes with a report, masked by a number and sealed with a
-- MAC under the guest's nonce.
use csv_rs.Base.{
  ℕ, zero, suc, ◌+◌, ◌%◌, Bytes, [], ◌∷◌, ◌++◌, length, replicate, bit_xor, not, bytes_eq, Outcome,
  ok, panicked, ◌>>=◌, ◌>>◌, fail_if,
}
use csv_rs.Error.{Error, bad_signature}
use csv_rs.Util.Memory.{le_bytes}
use csv_rs.Api.Guest.Request.{HashLib}

pub record ReportSigner : Type 0 where
  pub pek_cert : Bytes
  pub sn : Bytes
  pub reserved : Bytes
  pub mac : Bytes

-- `array[i]`
unfoldable pub byte_at : Bytes → ℕ → Outcome Error ℕ
byte_at [] i = panicked
byte_at (b ∷ bs) zero = ok b
byte_at (b ∷ bs) (suc i) = byte_at bs i

-- `for (index, item) in data.iter_mut().enumerate()`, from an index on.
unfoldable pub xor_from : Bytes → ℕ → Bytes → Outcome Error Bytes
xor_from array index [] = ok []
xor_from array index (b ∷ bs) = do
  a ← byte_at array (index % 4)
  rest ← xor_from array (index + 1) bs
  ok (bit_xor b a ∷ rest)

-- `xor_with_anonce`
unfoldable pub xor_with_anonce : Bytes → ℕ → Outcome Error Bytes
xor_with_anonce masked anonce = xor_from (le_bytes 4 anonce) 0 masked

-- `ReportSigner::restore`: the signer afterwards.
unfoldable pub restore : ReportSigner → ℕ → Outcome Error ReportSigner
restore s anonce = do
  pek_cert ← xor_with_anonce s.pek_cert anonce
  sn ← xor_with_anonce s.sn anonce
  ok (record {
    pek_cert = pek_cert;
    sn = sn;
    reserved = replicate (length s.reserved) 0;
    mac = s.mac;
  })

-- `ReportSigner::verify`: the signer afterwards.
unfoldable pub verify : HashLib → ReportSigner → Bytes → Bytes → ℕ → Outcome Error ReportSigner
verify h s input_mnonce mnonce anonce = do
  real_mnonce ← xor_with_anonce mnonce anonce
  fail_if (not (bytes_eq real_mnonce input_mnonce)) bad_signature
  mac ← h.hmac real_mnonce (s.pek_cert ++ s.sn ++ s.reserved)
  fail_if (not (bytes_eq mac s.mac)) bad_signature
  restore s anonce
