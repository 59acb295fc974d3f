-- ===== src/Tests/Tenant.antt =====
-- A tenant's session, the certificate made for its guest, and a certificate to encrypt to.
use csv_rs.Base.{◌∷◌, refl, [], replicate}
use csv_rs.Crypto.{PrivateKey}
use csv_rs.Certs.Usage as Usages
use csv_rs.Certs.Usage.{usage_algorithm, algorithm_digest}
use csv_rs.Certs.Csv.Data.{Certificate}
use csv_rs.Certs.Csv.Sign.{certificate_of}
use csv_rs.Session.Channel.{Session, Initialized, initialized, guest_user_id}
use csv_rs.Crypto.Points
use csv_rs.Crypto.Sm2
use csv_rs.Session.Protected.{Sealable, Sized}
use csv_rs.Tests.Toy.{curve, points}
use csv_rs.Tests.Trusted.{trusted}
use csv_rs.Tests.Samples.{key, key-IsPubKey, private_key}

abbrev pub tenant : Session Initialized
tenant = record {
  policy = record { flags = 5; minfw = record { major = 1; minor = 2 } };
  tek = replicate 16 11;
  tik = replicate 16 12;
  state = initialized;
}

abbrev pub guest_certificate : Certificate
guest_certificate =
    certificate_of guest_user_id (record { usage = Usages.pdh; algo = Usages.sm2_dh; key = key })

abbrev pub guest_key : PrivateKey curve.EcKey
guest_key = record private_key { usage = Usages.pdh }

pub sealable : Sealable curve points trusted.csv.pdh 3
unfolding replicate Points.points Sm2.ec_key
sealable = record {
  d = 160 ∷ [];
  own = 160;
  p = record {
    x1 = replicate 32 3;
    y1 = replicate 32 7;
    x2 = replicate 32 224;
    y2 = replicate 32 7;
  };
  x2 = replicate 32 224;
  y2 = replicate 32 7;
  fits = key-IsPubKey;
  known = refl;
  allocated = refl;
  private = refl;
  public = refl;
  points = refl;
  pad_x = refl;
  pad_y = refl;
  size_x = refl;
  size_y = refl;
  full_x = refl;
  full_y = refl;
}

pub sized : Sized tenant (replicate 16 3) (replicate 16 4) (replicate 16 2)
unfolding replicate
sized = record {
  size_tek = refl;
  size_tik = refl;
  size_nonce = refl;
  size_iv = refl;
  size_z = refl;
}
