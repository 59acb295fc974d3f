-- ===== src/Tests/Samples.antt =====
-- Certificates, chains, packets and keys to state the properties at.
use csv_rs.Base.{
  some, IsArray, ◌<◌, ◌^◌, arith, Bytes, [], ◌∷◌, replicate, resize, replicate-IsArray,
  resize-IsArray, All-replicate, IsByte, none, refl,
}
use csv_rs.Crypto.Ecc as Ecc
use csv_rs.Crypto.Ecdsa
use csv_rs.Crypto.{Signature, PrivateKey}
use csv_rs.Certs.Usage as Usages
use csv_rs.Certs.Usage.{Usage, sm3}
use csv_rs.Certs.Csv.Data as Csv
use csv_rs.Certs.Csv.Cert.{no_signature}
use csv_rs.Certs.Csv.Sign.{certificate_of}
use csv_rs.Certs.Csv.Typed.{certificate_of-IsCertificate}
use csv_rs.Certs.Ca.Data as Ca
use csv_rs.Certs.Csv.Cert as CsvCert
use csv_rs.Certs.Ca.Cert as CaCert
use csv_rs.Certs.Chain.{Chain}
use csv_rs.Api.Launch.Session.{Session, Start, IsStart}
use csv_rs.Api.Launch.Policy.{Policy}
use csv_rs.Certs.RoundTrip.{IsChain}
use csv_rs.Tests.Toy.{curve}

-- The key that the toy generator gives in environment 5.
abbrev pub key : Ecc.PubKey
key = record { g = 3; x = resize (replicate 32 5) 72 0; y = resize (replicate 32 7) 72 0 }

abbrev pub pub_key : Usage → Csv.PubKey
pub_key u = record { usage = u; algo = Usages.sm2_sa; key = key }

abbrev pub private_key : PrivateKey curve.EcKey
private_key = record {
  id = none;
  key = (replicate 32 5, replicate 32 7);
  hash = sm3;
  usage = Usages.oca;
}

abbrev pub uid : Bytes
uid = 65 ∷ 66 ∷ []

abbrev pub certificate : Usage → Csv.Certificate
certificate u = certificate_of uid (pub_key u)

pub key-IsPubKey : Ecc.IsPubKey key
key-IsPubKey = (
  omega arith,
  (
    resize-IsArray (replicate 32 5) 72 (All-replicate IsByte 32 5 (omega arith)),
    resize-IsArray (replicate 32 7) 72 (All-replicate IsByte 32 7 (omega arith)),
  ),
)

uid-IsArray : IsArray 254 (resize uid 254 0)
uid-IsArray = resize-IsArray uid 254 (omega arith, (omega arith, tt))

pub certificate-IsCertificate : (u : Usage) → u < 256 ^ 4 → Csv.IsCertificate (certificate u)
certificate-IsCertificate u h =
    certificate_of-IsCertificate uid (pub_key u) (omega arith) (omega arith, (omega arith, tt))
      (h, (omega arith, key-IsPubKey))

abbrev pub authority : Usage → Ca.Certificate
authority u = record {
  body = record {
    preamble = record {
      ver = 0;
      info = record {
        kid = replicate 16 0;
        sid = replicate 16 0;
        usage = u;
        reserved = replicate 24 0;
      };
    };
    pubkey = key;
    uid_size = 2;
    user_id = resize uid 254 0;
    reserved = replicate 108 0;
  };
  signature = Ecdsa.empty;
  reserved = replicate 112 0;
}

pub authority-IsCertificate : (u : Usage) → u < 256 ^ 4 → Ca.IsCertificate (authority u)
authority-IsCertificate u h = (
  (
    (omega arith, (replicate-IsArray 16, (replicate-IsArray 16, (h, replicate-IsArray 24)))),
    (key-IsPubKey, (omega arith, (uid-IsArray, replicate-IsArray 108))),
  ),
  ((replicate-IsArray 72, replicate-IsArray 72), replicate-IsArray 112),
)

abbrev pub chain : Chain
chain = record {
  csv = record {
    pdh = certificate Usages.pdh;
    pek = certificate Usages.pek;
    oca = certificate Usages.oca;
    cek = certificate Usages.cek;
  };
  ca = record { hsk = authority Usages.hsk; hrk = authority Usages.hrk };
}

pub chain-IsChain : IsChain chain
unfolding CsvCert.usage CaCert.usage
chain-IsChain = record {
  csv = record {
    pdh = certificate-IsCertificate Usages.pdh (omega arith);
    pek = certificate-IsCertificate Usages.pek (omega arith);
    oca = certificate-IsCertificate Usages.oca (omega arith);
    cek = certificate-IsCertificate Usages.cek (omega arith);
    pdh_usage = refl;
    pek_usage = refl;
    oca_usage = refl;
    cek_usage = refl;
  };
  ca = record {
    hsk = authority-IsCertificate Usages.hsk (omega arith);
    hrk = authority-IsCertificate Usages.hrk (omega arith);
    hsk_usage = refl;
    hrk_usage = refl;
  };
}

-- A certificate that claims a user id of 300 bytes.
abbrev pub long : Csv.Certificate
long =
    let c = certificate Usages.oca in
    record c { body = record c.body { info = record c.body.info { uid_size = 300 } } }

pub long-IsCertificate : Csv.IsCertificate long
long-IsCertificate =
    let ((v, (f, (r, (k, (u, rest))))), sigs) =
      certificate-IsCertificate Usages.oca (omega arith) in
    ((v, (f, (r, (k, (omega arith, rest))))), sigs)

-- A certificate with a signature of two zeros.
abbrev pub countersigned : Csv.Certificate
countersigned =
    let c = certificate Usages.pek in
    record c {
      sig0 = record {
        usage = Usages.oca;
        algo = Usages.sm2_sa;
        signature = Ecdsa.empty;
        reserved = replicate 368 0;
      };
    }

abbrev pub zeros_signature : Signature
zeros_signature = record {
  sig = 0 ∷ 0 ∷ [];
  usage = Usages.oca;
  algo = some Usages.sm2_sa;
  id = none;
}

-- The certificate of the same key for key exchange.
abbrev pub certificate_dh : Csv.Certificate
certificate_dh = certificate_of uid (record { usage = Usages.pdh; algo = Usages.sm2_dh; key = key })

-- A session of zeros.
abbrev pub blank : Session
blank = record {
  body = record {
    nonce = replicate 16 0;
    wrap_tk = replicate 32 0;
    wrap_iv = replicate 16 0;
    wrap_mac = replicate 32 0;
    session_mac = replicate 32 0;
    key_id = replicate 16 0;
    rnd_pub_key_data = replicate 148 0;
    ms_enc = replicate 256 0;
    vm_digest = replicate 32 0;
    pubkey_digest = replicate 32 0;
    vm_id = replicate 16 0;
    vm_version = replicate 16 0;
    user_data = replicate 64 0;
  };
  sig = record { r = replicate 32 0; s = replicate 32 0 };
}

abbrev pub policy : Policy
policy = record { flags = 5; minfw = record { major = 0x21; minor = 3 } }

abbrev pub packet : Start
packet = record { policy = policy; cert = certificate Usages.pdh; session = blank }

pub packet-IsStart : IsStart packet
packet-IsStart = (
  (omega arith, (omega arith, omega arith)),
  (
    certificate-IsCertificate Usages.pdh (omega arith),
    (
      (
        replicate-IsArray 16,
        (
          replicate-IsArray 32,
          (
            replicate-IsArray 16,
            (
              replicate-IsArray 32,
              (
                replicate-IsArray 32,
                (
                  replicate-IsArray 16,
                  (
                    replicate-IsArray 148,
                    (
                      replicate-IsArray 256,
                      (
                        replicate-IsArray 32,
                        (
                          replicate-IsArray 32,
                          (replicate-IsArray 16, (replicate-IsArray 16, replicate-IsArray 64)),
                        ),
                      ),
                    ),
                  ),
                ),
              ),
            ),
          ),
        ),
      ),
      (replicate-IsArray 32, replicate-IsArray 32),
    ),
  ),
)
