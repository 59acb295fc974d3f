-- ===== src/Certs/RoundTrip.antt =====
-- src/certs/chain.rs: a whole chain is read from exactly its six certificates in order.
use csv_rs.Base.{Bytes, ◌++◌, append_assoc, IsBytes, ok, >>=-eq-ok, ok_injective, ◌≡◌, ◌↔◌, subst}
use csv_rs.Certs.Ca.ChainRoundTrip as Ca
use csv_rs.Certs.Ca.Chain as CaChain
use csv_rs.Certs.Csv.ChainRoundTrip as Csv
use csv_rs.Certs.Csv.Chain as CsvChain
use csv_rs.Certs.Chain.{Chain, decode}

-- The platform's certificates, then the authority's.
unfoldable pub image : Chain → Bytes
image c = Csv.image c.csv ++ Ca.image c.ca

pub record IsChain (c : Chain) : Type 0 where
  pub csv : Csv.IsChain c.csv
  pub ca : Ca.IsChain c.ca

decode-image : (c : Chain) (rest : Bytes) → IsChain c → decode (image c ++ rest) ≡ ok (c, rest)
unfolding decode image
decode-image c rest h = rw (
  append_assoc (Csv.image c.csv) (Ca.image c.ca) rest,
  Csv.decode-image c.csv (Ca.image c.ca ++ rest) h.csv,
  Ca.decode-image c.ca rest h.ca,
)

decode_inverse :
    (reader : Bytes) {c : Chain} {rest : Bytes}
    → IsBytes reader
    → decode reader ≡ ok (c, rest)
    → (reader ≡ image c ++ rest) × IsChain c
unfolding decode image
decode_inverse reader {c} {rest} h e =
    let (a, read_a, e₁) = >>=-eq-ok (CsvChain.decode reader) _ e in
    let (split_a, fits_a, h₁) = Csv.decode_inverse reader h read_a in
    let (b, read_b, e₂) = >>=-eq-ok (CaChain.decode a.1) _ e₁ in
    let (split_b, fits_b, h₂) = Ca.decode_inverse a.1 h₁ read_b in
    let made : Chain = record { csv = a.0; ca = b.0 } in
    let same : Path (Chain × Bytes) (made, b.1) (c, rest) = ok_injective e₂ in
    let whole : reader ≡ (Csv.image a.0 ++ Ca.image b.0) ++ b.1 =
      rw (append_assoc (Csv.image a.0) (Ca.image b.0) b.1, ← split_b) split_a in
    subst
      (λ (p : Chain × Bytes).
        (reader ≡ (Csv.image p.0.csv ++ Ca.image p.0.ca) ++ p.1) × IsChain p.0)
      same (whole, record { csv = fits_a; ca = fits_b })

-- From bytes, `decode` succeeds exactly on the images of chains whose six certificates have the six
-- usages, in the order PDH, PEK, OCA, CEK, HSK, HRK, and leaves exactly what follows the image.
pub decode-iff-image :
    (reader : Bytes) (c : Chain) (rest : Bytes)
    → IsBytes reader
    → (decode reader ≡ ok (c, rest)) ↔ ((reader ≡ image c ++ rest) × IsChain c)
decode-iff-image reader c rest h =
    (λ e. decode_inverse reader h e, λ (split, fits). rw split (decode-image c rest fits))
