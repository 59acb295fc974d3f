-- ===== src/Certs/Ca/ChainRoundTrip.antt =====
-- src/certs/ca/chain.rs: the authority's chain is read from exactly its two certificates in order,
-- each with its own usage.
use csv_rs.Base.{
  append_assoc, Bytes, ◌++◌, append_assoc, IsBytes, ok, >>=-eq-ok, fail_if-eq-ok, ok_injective, ◌≡◌,
  subst, not, false, ◌==◌, ==_iff, arith,
}
use csv_rs.Certs.Usage as Usages
use csv_rs.Certs.Ca.Cert
use csv_rs.Certs.Ca.Data.{Certificate, certificate, IsCertificate}
use csv_rs.Certs.Ca.RoundTrip
use csv_rs.Certs.Ca.Chain.{Chain, decode}

-- The two certificates as they lie in memory, one behind the other.
unfoldable pub image : Chain → Bytes
image c = certificate.to_bytes c.hsk ++ certificate.to_bytes c.hrk

-- Certificates of the Rust type, of the two usages.
pub record IsChain (c : Chain) : Type 0 where
  pub hsk : IsCertificate c.hsk
  pub hrk : IsCertificate c.hrk
  pub hsk_usage : Cert.usage c.hsk ≡ Usages.hsk
  pub hrk_usage : Cert.usage c.hrk ≡ Usages.hrk

image_bytes :
    (c : Chain) (rest : Bytes)
    → image c ++ rest ≡ certificate.to_bytes c.hsk ++ (certificate.to_bytes c.hrk ++ rest)
unfolding image
image_bytes c rest = simp append_assoc

pub decode-image : (c : Chain) (rest : Bytes) → IsChain c → decode (image c ++ rest) ≡ ok (c, rest)
unfolding decode
decode-image c rest h = rw (
  image_bytes c rest,
  RoundTrip.decode-to_bytes c.hsk _ h.hsk,
  h.hsk_usage,
  RoundTrip.decode-to_bytes c.hrk rest h.hrk,
  h.hrk_usage,
)

guarded : (u : Usages.Usage) (c : Certificate) → not (Cert.usage c == u) ≡ false → Cert.usage c ≡ u
guarded u c h = (==_iff (Cert.usage c) u).0 (ground (arith, h))

pub decode_inverse :
    (reader : Bytes) {c : Chain} {rest : Bytes}
    → IsBytes reader
    → decode reader ≡ ok (c, rest)
    → (reader ≡ image c ++ rest) × IsChain c × IsBytes rest
unfolding decode
decode_inverse reader {c} {rest} h e =
    let (a, read_a, e₁) = >>=-eq-ok (Cert.decode reader) _ e in
    let (split_a, fits_a, h₁) = RoundTrip.decode_inverse reader h read_a in
    let (use_a, f₁) = fail_if-eq-ok (not (Cert.usage a.0 == Usages.hsk)) _ _ e₁ in
    let (b, read_b, e₂) = >>=-eq-ok (Cert.decode a.1) _ f₁ in
    let (split_b, fits_b, h₂) = RoundTrip.decode_inverse a.1 h₁ read_b in
    let (use_b, f₂) = fail_if-eq-ok (not (Cert.usage b.0 == Usages.hrk)) _ _ e₂ in
    let made : Chain = record { hsk = a.0; hrk = b.0 } in
    let same : Path (Chain × Bytes) (made, b.1) (c, rest) = ok_injective f₂ in
    let whole : reader ≡ image made ++ b.1 = rw (image_bytes made b.1, ← split_b) split_a in
    let fits : IsChain made = record {
      hsk = fits_a;
      hrk = fits_b;
      hsk_usage = guarded Usages.hsk a.0 use_a;
      hrk_usage = guarded Usages.hrk b.0 use_b;
    } in
    subst (λ (p : Chain × Bytes). (reader ≡ image p.0 ++ p.1) × IsChain p.0 × IsBytes p.1) same
      (whole, fits, h₂)
