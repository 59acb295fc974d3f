-- ===== src/Tests/Trusted.antt =====
-- A chain of certificates that check each other, with sums for signatures.
use csv_rs.Base.{
  ◌<◌, ◌^◌, ◌%◌, ◌≡◌, refl, arith, Bytes, replicate, resize, ok, resize-IsArray, replicate-IsArray,
  All-replicate, IsByte,
}
use csv_rs.Version.{version}
use csv_rs.Crypto.Ecc as Ecc
use csv_rs.Crypto.Ecdsa
use csv_rs.Crypto.Sm2
use csv_rs.Crypto
use csv_rs.Util.BigNum.{from_le}
use csv_rs.Util.{slice_to, save}
use csv_rs.Certs.Usage as Usages
use csv_rs.Certs.Usage.{Usage, is_usage}
use csv_rs.Certs.Csv.Data as Csv
use csv_rs.Certs.Csv.Cert as CsvCert
use csv_rs.Certs.Ca.Data as Ca
use csv_rs.Certs.Ca.Cert as CaCert
use csv_rs.Certs.Ca.Chain as CaChain
use csv_rs.Certs.Csv.Chain as CsvChain
use csv_rs.Certs.Chain.{Chain, verify}
use csv_rs.Tests.Toy.{numbers, curve, total}
use csv_rs.Tests.Samples.{
  certificate, authority, certificate-IsCertificate, authority-IsCertificate,
}
use csv_rs.Certs.RoundTrip.{IsChain}
use csv_rs.Certs.Trust.{AreCertificates}

-- The signature of a message under the sample key and the sample user id.
abbrev pub sealed : Bytes → Ecdsa.Signature
sealed msg = record {
  r = resize (replicate (total msg % 32) 1) 72 0;
  s = resize (replicate 3 1) 72 0;
}

abbrev slot : Usage → Csv.Body → Csv.Signatures
slot u b = record {
  usage = u;
  algo = Usages.sm2_sa;
  signature = sealed (Csv.body.to_bytes b);
  reserved = replicate 368 0;
}

-- A certificate signed with the key of a usage.
abbrev pub signed_by : Usage → Csv.Certificate → Csv.Certificate
signed_by u c = record c { sig0 = slot u c.body }

abbrev pub root_signed : Usage → Ca.Certificate
root_signed u = let c = authority u in record c { signature = sealed (Ca.body.to_bytes c.body) }

abbrev pub trusted : Chain
trusted = record {
  csv = record {
    pdh = signed_by Usages.pek (certificate Usages.pdh);
    pek =
        let c = signed_by Usages.oca (certificate Usages.pek) in
        record c { sig1 = slot Usages.cek c.body };
    oca = signed_by Usages.oca (certificate Usages.oca);
    cek = signed_by Usages.hsk (certificate Usages.cek);
  };
  ca = record { hsk = root_signed Usages.hsk; hrk = root_signed Usages.hrk };
}

pub trusted_verifies : verify numbers curve trusted ≡ ok trusted.csv.pdh
unfolding verify CaChain.verify CsvChain.verify CaCert.verify CaCert.signature CaCert.public_key
    CaCert.encode Crypto.verify Crypto.id_agrees Crypto.algo_agrees Sm2.verify Sm2.ec_key
    Ecc.group_size slice_to save Ecdsa.to_vec Ecdsa.to_ecdsa_sig from_le replicate Ca.body
    Ca.preamble csv_rs.Util.Memory.le_bytes Ca.info Ecc.pub_key CsvCert.verify CsvCert.verify_by_ca
    CsvCert.to_signatures CsvCert.to_signature CsvCert.is_empty is_usage CsvCert.any_signature
    CsvCert.accepts CsvCert.public_key CsvCert.encode Csv.body Csv.info Csv.pub_key
    CsvCert.no_signature version
trusted_verifies = refl

sealed-IsSignature : (msg : Bytes) → Ecdsa.IsSignature (sealed msg)
sealed-IsSignature msg = (
  resize-IsArray (replicate (total msg % 32) 1) 72
      (All-replicate IsByte (total msg % 32) 1 (omega arith)),
  resize-IsArray (replicate 3 1) 72 (All-replicate IsByte 3 1 (omega arith)),
)

slot-IsSignatures : (u : Usage) (b : Csv.Body) → u < 256 ^ 4 → Csv.IsSignatures (slot u b)
slot-IsSignatures u b h =
    (h, (omega arith, (sealed-IsSignature (Csv.body.to_bytes b), replicate-IsArray 368)))

signed_by-IsCertificate :
    (u : Usage) (c : Csv.Certificate)
    → u < 256 ^ 4
    → Csv.IsCertificate c
    → Csv.IsCertificate (signed_by u c)
signed_by-IsCertificate u c h (b, (s, t)) = (b, (slot-IsSignatures u c.body h, t))

root_signed-IsCertificate : (u : Usage) → u < 256 ^ 4 → Ca.IsCertificate (root_signed u)
root_signed-IsCertificate u h =
    let (b, (s, r)) = authority-IsCertificate u h in
    (b, (sealed-IsSignature (Ca.body.to_bytes (authority u).body), r))

pub trusted-IsChain : IsChain trusted
unfolding CsvCert.usage CaCert.usage
trusted-IsChain = record {
  csv = record {
    pdh =
        signed_by-IsCertificate Usages.pek _ (omega arith)
          (certificate-IsCertificate Usages.pdh (omega arith));
    pek =
        let (b, (s, t)) =
          signed_by-IsCertificate Usages.oca _ (omega arith)
            (certificate-IsCertificate Usages.pek (omega arith)) in
        (b, (s, slot-IsSignatures Usages.cek _ (omega arith)));
    oca =
        signed_by-IsCertificate Usages.oca _ (omega arith)
          (certificate-IsCertificate Usages.oca (omega arith));
    cek =
        signed_by-IsCertificate Usages.hsk _ (omega arith)
          (certificate-IsCertificate Usages.cek (omega arith));
    pdh_usage = refl;
    pek_usage = refl;
    oca_usage = refl;
    cek_usage = refl;
  };
  ca = record {
    hsk = root_signed-IsCertificate Usages.hsk (omega arith);
    hrk = root_signed-IsCertificate Usages.hrk (omega arith);
    hsk_usage = refl;
    hrk_usage = refl;
  };
}

pub trusted-AreCertificates : AreCertificates trusted
trusted-AreCertificates = record {
  pdh = trusted-IsChain.csv.pdh;
  pek = trusted-IsChain.csv.pek;
  oca = trusted-IsChain.csv.oca;
  cek = trusted-IsChain.csv.cek;
  hsk = trusted-IsChain.ca.hsk;
  hrk = trusted-IsChain.ca.hrk;
}
