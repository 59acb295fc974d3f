-- ===== src/Certs/Ca/RoundTrip.antt =====
-- src/certs/ca/cert/mod.rs: reading a certificate inverts its memory layout.
use csv_rs.Base.{Bytes, ◌++◌, append_assoc, IsBytes, ok, >>=-eq-ok, ok_injective, ◌≡◌, subst}
use csv_rs.Util.{load, load-to_bytes, load_inverse}
use csv_rs.Util.Memory.{array, array-IsFaithful}
use csv_rs.Crypto.Ecdsa
use csv_rs.Certs.Ca.Data.{Certificate, body, certificate, IsCertificate, body-IsFaithful}
use csv_rs.Certs.Ca.Cert.{decode}

certificate_bytes :
    (c : Certificate) (rest : Bytes)
    → certificate.to_bytes c ++ rest
      ≡ body.to_bytes c.body ++ (Ecdsa.signature.to_bytes c.signature ++ (c.reserved ++ rest))
unfolding certificate
certificate_bytes c rest = simp append_assoc

-- The whole certificate, as it lies in memory, is read back, and what follows it is left.
pub decode-to_bytes :
    (c : Certificate) (rest : Bytes)
    → IsCertificate c
    → decode (certificate.to_bytes c ++ rest) ≡ ok (c, rest)
unfolding decode
decode-to_bytes c rest (b, (s, r)) = rw (
  certificate_bytes c rest,
  load-to_bytes body body-IsFaithful c.body _ b,
  load-to_bytes Ecdsa.signature Ecdsa.signature-IsFaithful c.signature _ s,
  load-to_bytes (array 112) (array-IsFaithful 112) c.reserved rest r,
)

-- Whatever is read is such an image of what was read.
pub decode_inverse :
    (reader : Bytes) {c : Certificate} {rest : Bytes}
    → IsBytes reader
    → decode reader ≡ ok (c, rest)
    → (reader ≡ certificate.to_bytes c ++ rest) × IsCertificate c × IsBytes rest
unfolding decode
decode_inverse reader {c} {rest} h e =
    let (b, read_b, e₁) = >>=-eq-ok (load body reader) _ e in
    let (split_b, fits_b, h₁) = load_inverse body-IsFaithful reader h read_b in
    let (s, read_s, e₂) = >>=-eq-ok (load Ecdsa.signature b.1) _ e₁ in
    let (split_s, fits_s, h₂) = load_inverse Ecdsa.signature-IsFaithful b.1 h₁ read_s in
    let (r, read_r, e₃) = >>=-eq-ok (load (array 112) s.1) _ e₂ in
    let (split_r, fits_r, h₃) = load_inverse (array-IsFaithful 112) s.1 h₂ read_r in
    let made : Certificate = record { body = b.0; signature = s.0; reserved = r.0 } in
    let same : Path (Certificate × Bytes) (made, r.1) (c, rest) = ok_injective e₃ in
    let image : reader ≡ certificate.to_bytes made ++ r.1 =
      rw (certificate_bytes made r.1, ← split_r, ← split_s) split_b in
    subst
      (λ (p : Certificate × Bytes).
        (reader ≡ certificate.to_bytes p.0 ++ p.1) × IsCertificate p.0 × IsBytes p.1)
      same (image, (fits_b, (fits_s, fits_r)), h₃)
