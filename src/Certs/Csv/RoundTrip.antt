-- ===== src/Certs/Csv/RoundTrip.antt =====
-- src/certs/csv/cert/mod.rs: reading a certificate inverts its memory layout.
use csv_rs.Base.{Bytes, ◌++◌, append_assoc, IsBytes, ok, >>=-eq-ok, ok_injective, ◌≡◌, subst}
use csv_rs.Util.{
  load, load-to_bytes, load_inverse, read_exact, read_exact_prefix, read_exact_inverse,
}
use csv_rs.Util.Memory.{word, word-IsFaithful}
use csv_rs.Crypto.Ecdsa
use csv_rs.Certs.Csv.Data.{
  Signatures, Certificate, body, signatures, certificate, IsSignatures, IsCertificate,
  body-IsFaithful,
}
use csv_rs.Certs.Csv.Cert.{decode_signatures, decode}

signatures_bytes :
    (s : Signatures) (rest : Bytes)
    → signatures.to_bytes s ++ rest
      ≡ (word 4).to_bytes s.usage
        ++ ((word 4).to_bytes s.algo
            ++ (Ecdsa.signature.to_bytes s.signature ++ (s.reserved ++ rest)))
unfolding signatures
signatures_bytes s rest = simp append_assoc

pub decode_signatures-to_bytes :
    (s : Signatures) (rest : Bytes)
    → IsSignatures s
    → decode_signatures (signatures.to_bytes s ++ rest) ≡ ok (s, rest)
unfolding decode_signatures
decode_signatures-to_bytes s rest (u, (a, (g, r))) = rw (
  signatures_bytes s rest,
  load-to_bytes (word 4) (word-IsFaithful 4) s.usage _ u,
  load-to_bytes (word 4) (word-IsFaithful 4) s.algo _ a,
  load-to_bytes Ecdsa.signature Ecdsa.signature-IsFaithful s.signature _ g,
  read_exact_prefix 368 s.reserved rest r.size,
)

pub decode_signatures_inverse :
    (reader : Bytes) {s : Signatures} {rest : Bytes}
    → IsBytes reader
    → decode_signatures reader ≡ ok (s, rest)
    → (reader ≡ signatures.to_bytes s ++ rest) × IsSignatures s × IsBytes rest
unfolding decode_signatures
decode_signatures_inverse reader {s} {rest} h e =
    let (u, read_u, e₁) = >>=-eq-ok (load (word 4) reader) _ e in
    let (split_u, fits_u, h₁) = load_inverse (word-IsFaithful 4) reader h read_u in
    let (a, read_a, e₂) = >>=-eq-ok (load (word 4) u.1) _ e₁ in
    let (split_a, fits_a, h₂) = load_inverse (word-IsFaithful 4) u.1 h₁ read_a in
    let (g, read_g, e₃) = >>=-eq-ok (load Ecdsa.signature a.1) _ e₂ in
    let (split_g, fits_g, h₃) = load_inverse Ecdsa.signature-IsFaithful a.1 h₂ read_g in
    let (r, read_r, e₄) = >>=-eq-ok (read_exact 368 g.1) _ e₃ in
    let (split_r, fits_r, h₄) = read_exact_inverse 368 g.1 r.0 r.1 h₃ read_r in
    let made : Signatures = record { usage = u.0; algo = a.0; signature = g.0; reserved = r.0 } in
    let same : Path (Signatures × Bytes) (made, r.1) (s, rest) = ok_injective e₄ in
    let image : reader ≡ signatures.to_bytes made ++ r.1 =
      rw (signatures_bytes made r.1, ← split_r, ← split_g, ← split_a) split_u in
    subst
      (λ (t : Signatures × Bytes).
        (reader ≡ signatures.to_bytes t.0 ++ t.1) × IsSignatures t.0 × IsBytes t.1)
      same (image, (fits_u, (fits_a, (fits_g, fits_r))), h₄)

certificate_bytes :
    (c : Certificate) (rest : Bytes)
    → certificate.to_bytes c ++ rest
      ≡ body.to_bytes c.body ++ (signatures.to_bytes c.sig0 ++ (signatures.to_bytes c.sig1 ++ rest))
unfolding certificate
certificate_bytes c rest = simp append_assoc

-- The whole certificate, as it lies in memory, is read back, and what follows it is left.
pub decode-to_bytes :
    (c : Certificate) (rest : Bytes)
    → IsCertificate c
    → decode (certificate.to_bytes c ++ rest) ≡ ok (c, rest)
unfolding decode
decode-to_bytes c rest (b, (s₀, s₁)) = rw (
  certificate_bytes c rest,
  load-to_bytes body body-IsFaithful c.body _ b,
  decode_signatures-to_bytes c.sig0 _ s₀,
  decode_signatures-to_bytes c.sig1 rest s₁,
)

-- Whatever is read is such an image of what was read.
pub decode_inverse :
    (reader : Bytes) {c : Certificate} {rest : Bytes}
    → IsBytes reader
    → decode reader ≡ ok (c, rest)
    → (reader ≡ certificate.to_bytes c ++ rest) × IsCertificate c × IsBytes rest
unfolding decode
decode_inverse reader {c} {rest} h e =
    let (b, read_b, e₁) = >>=-eq-ok (load body reader) _ e in
    let (split_b, fits_b, h₁) = load_inverse body-IsFaithful reader h read_b in
    let (s, read_s, e₂) = >>=-eq-ok (decode_signatures b.1) _ e₁ in
    let (split_s, fits_s, h₂) = decode_signatures_inverse b.1 h₁ read_s in
    let (t, read_t, e₃) = >>=-eq-ok (decode_signatures s.1) _ e₂ in
    let (split_t, fits_t, h₃) = decode_signatures_inverse s.1 h₂ read_t in
    let made : Certificate = record { body = b.0; sig0 = s.0; sig1 = t.0 } in
    let same : Path (Certificate × Bytes) (made, t.1) (c, rest) = ok_injective e₃ in
    let image : reader ≡ certificate.to_bytes made ++ t.1 =
      rw (certificate_bytes made t.1, ← split_t, ← split_s) split_b in
    subst
      (λ (p : Certificate × Bytes).
        (reader ≡ certificate.to_bytes p.0 ++ p.1) × IsCertificate p.0 × IsBytes p.1)
      same (image, (fits_b, (fits_s, fits_t)), h₃)
