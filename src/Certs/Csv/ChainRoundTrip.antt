-- ===== src/Certs/Csv/ChainRoundTrip.antt =====
-- src/certs/csv/chain.rs: the platform's chain is read from exactly its four certificates in
-- order, each with its own usage.
use csv_rs.Base.{
  Bytes, ◌++◌, append_assoc, IsBytes, ok, >>=-eq-ok, fail_if-eq-ok, ok_injective, ◌≡◌, subst, not,
  false, ◌==◌, ==_iff, arith,
}
use csv_rs.Certs.Usage as Usages
use csv_rs.Certs.Csv.Cert
use csv_rs.Certs.Csv.Data.{Certificate, certificate, IsCertificate}
use csv_rs.Certs.Csv.RoundTrip
use csv_rs.Certs.Csv.Chain.{Chain, decode}

-- The four certificates as they lie in memory, one behind the other.
unfoldable pub image : Chain → Bytes
image c =
    certificate.to_bytes c.pdh
    ++ (certificate.to_bytes c.pek ++ (certificate.to_bytes c.oca ++ certificate.to_bytes c.cek))

-- Certificates of the Rust type, of the four usages.
pub record IsChain (c : Chain) : Type 0 where
  pub pdh : IsCertificate c.pdh
  pub pek : IsCertificate c.pek
  pub oca : IsCertificate c.oca
  pub cek : IsCertificate c.cek
  pub pdh_usage : Cert.usage c.pdh ≡ Usages.pdh
  pub pek_usage : Cert.usage c.pek ≡ Usages.pek
  pub oca_usage : Cert.usage c.oca ≡ Usages.oca
  pub cek_usage : Cert.usage c.cek ≡ Usages.cek

image_bytes :
    (c : Chain) (rest : Bytes)
    → image c ++ rest
      ≡ certificate.to_bytes c.pdh
        ++ (certificate.to_bytes c.pek
            ++ (certificate.to_bytes c.oca ++ (certificate.to_bytes c.cek ++ rest)))
unfolding image
image_bytes c rest = simp append_assoc

pub decode-image : (c : Chain) (rest : Bytes) → IsChain c → decode (image c ++ rest) ≡ ok (c, rest)
unfolding decode
decode-image c rest h = rw (
  image_bytes c rest,
  RoundTrip.decode-to_bytes c.pdh _ h.pdh,
  h.pdh_usage,
  RoundTrip.decode-to_bytes c.pek _ h.pek,
  h.pek_usage,
  RoundTrip.decode-to_bytes c.oca _ h.oca,
  h.oca_usage,
  RoundTrip.decode-to_bytes c.cek rest h.cek,
  h.cek_usage,
)

-- A certificate with a check of its usage behind it.
guarded : (u : Usages.Usage) (c : Certificate) → not (Cert.usage c == u) ≡ false → Cert.usage c ≡ u
guarded u c h = (==_iff (Cert.usage c) u).0 (ground (arith, h))

pub decode_inverse :
    (reader : Bytes) {c : Chain} {rest : Bytes}
    → IsBytes reader
    → decode reader ≡ ok (c, rest)
    → (reader ≡ image c ++ rest) × IsChain c × IsBytes rest
unfolding decode
decode_inverse reader {c} {rest} h e =
    let (a, read_a, e₁) = >>=-eq-ok (Cert.decode reader) _ e in
    let (split_a, fits_a, h₁) = RoundTrip.decode_inverse reader h read_a in
    let (use_a, f₁) = fail_if-eq-ok (not (Cert.usage a.0 == Usages.pdh)) _ _ e₁ in
    let (b, read_b, e₂) = >>=-eq-ok (Cert.decode a.1) _ f₁ in
    let (split_b, fits_b, h₂) = RoundTrip.decode_inverse a.1 h₁ read_b in
    let (use_b, f₂) = fail_if-eq-ok (not (Cert.usage b.0 == Usages.pek)) _ _ e₂ in
    let (d, read_d, e₃) = >>=-eq-ok (Cert.decode b.1) _ f₂ in
    let (split_d, fits_d, h₃) = RoundTrip.decode_inverse b.1 h₂ read_d in
    let (use_d, f₃) = fail_if-eq-ok (not (Cert.usage d.0 == Usages.oca)) _ _ e₃ in
    let (k, read_k, e₄) = >>=-eq-ok (Cert.decode d.1) _ f₃ in
    let (split_k, fits_k, h₄) = RoundTrip.decode_inverse d.1 h₃ read_k in
    let (use_k, f₄) = fail_if-eq-ok (not (Cert.usage k.0 == Usages.cek)) _ _ e₄ in
    let made : Chain = record { pdh = a.0; pek = b.0; oca = d.0; cek = k.0 } in
    let same : Path (Chain × Bytes) (made, k.1) (c, rest) = ok_injective f₄ in
    let whole : reader ≡ image made ++ k.1 =
      rw (image_bytes made k.1, ← split_k, ← split_d, ← split_b) split_a in
    let fits : IsChain made = record {
      pdh = fits_a;
      pek = fits_b;
      oca = fits_d;
      cek = fits_k;
      pdh_usage = guarded Usages.pdh a.0 use_a;
      pek_usage = guarded Usages.pek b.0 use_b;
      oca_usage = guarded Usages.oca d.0 use_d;
      cek_usage = guarded Usages.cek k.0 use_k;
    } in
    subst (λ (p : Chain × Bytes). (reader ≡ image p.0 ++ p.1) × IsChain p.0 × IsBytes p.1) same
      (whole, fits, h₄)
