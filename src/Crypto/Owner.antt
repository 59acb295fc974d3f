-- ===== src/Crypto/Owner.antt =====
-- src/crypto/sm.rs: how the owner of the private key reads what was encrypted.
use csv_rs.Base.{◌≡◌, sym, ap, ◌∙◌, Bytes, ◌∷◌, ◌++◌, length, Option, some, ok}
use csv_rs.OpenSsl.{Sm2Lib}
use csv_rs.Crypto.Points.{Points, CurveLib, CurveLaws, points, points-Multiplied}
use csv_rs.Crypto.Kdf.{Sm3Lib, Sm3Laws, ecdh_kdf_x9_63}
use csv_rs.Crypto.Encrypt.{xor_bytes, Sealed, left_justified_full}

module _ (l : Sm2Lib) (c : CurveLib l) (m : Sm3Lib) (hash : Sm3Laws m) where
  -- With the private scalar `d`, a ciphertext is read as the standard says: behind the byte 4 stand the
  -- 32 bytes of each coordinate of a point; the coordinates of `d` times that point, of 32 bytes each,
  -- give the mask that opens the end, and the digest of the two with the plain text in between.
  pub record Readable (d : l.Number) (plain ct : Bytes) : Type 0 where
    pub q : c.Point
    pub x1 : Bytes
    pub y1 : Bytes
    pub size_x1 : length x1 ≡ 32
    pub size_y1 : length y1 ≡ 32
    pub at_q : c.affine_coordinates q ≡ some (l.bin2bn x1, l.bin2bn y1)
    pub r : c.Point
    pub multiplied : c.mul (some q) d ≡ some r
    pub x : l.Number
    pub y : l.Number
    pub at_r : c.affine_coordinates r ≡ some (x, y)
    pub x2 : Bytes
    pub y2 : Bytes
    pub pad_x : l.bn2binpad x 32 ≡ some x2
    pub pad_y : l.bn2binpad y 32 ≡ some y2
    pub mask : Bytes
    pub c2 : Bytes
    pub shape : ct ≡ (4 ∷ x1) ++ y1 ++ hash.total (x2 ++ plain ++ y2) ++ c2
    pub derived : ecdh_kdf_x9_63 m (length plain) (x2 ++ y2) ≡ ok mask
    pub unmask : xor_bytes mask c2 ≡ plain

  -- What is encrypted to the public point of a private scalar is read with that scalar, if both
  -- coordinates of the random point have their full 32 bytes.
  pub Sealed-Readable :
      (curve : CurveLaws l c) (d : l.Number) (own : c.Point) (eckey : l.EcKey) (env : l.Env)
      (p : Points l.Number) (x2 y2 plain ct : Bytes)
      → c.mul_generator d ≡ some own
      → c.public_point eckey ≡ some own
      → points l c eckey env ≡ ok p
      → l.bn2binpad p.x2 32 ≡ some x2
      → l.bn2binpad p.y2 32 ≡ some y2
      → length (c.bn2bin p.x1) ≡ 32
      → length (c.bn2bin p.y1) ≡ 32
      → Sealed l c m hash plain (c.bn2bin p.x1) (c.bn2bin p.y1) x2 y2 ct
      → Readable d plain ct
  Sealed-Readable curve d own eckey env p x2 y2 plain ct private public made pad_x pad_y full_x
        full_y sealed =
      let t = points-Multiplied l c eckey env made in
      let (same_x, same_y) = curve.bin2bn-bn2bin t.k_g p.x1 p.y1 t.at_first in
      let shared : c.mul (some t.k_g) d ≡ some t.k_p =
        sym (curve.mul-mul_generator d t.k own t.k_g private t.first)
        ∙ ap (λ (a : Option c.Point). c.mul a t.k) (sym public)
        ∙ t.second in
      record {
        q = t.k_g;
        x1 = c.bn2bin p.x1;
        y1 = c.bn2bin p.y1;
        size_x1 = full_x;
        size_y1 = full_y;
        at_q = rw (same_x, same_y) t.at_first;
        r = t.k_p;
        multiplied = shared;
        x = p.x2;
        y = p.y2;
        at_r = t.at_second;
        x2 = x2;
        y2 = y2;
        pad_x = pad_x;
        pad_y = pad_y;
        mask = sealed.mask;
        c2 = sealed.c2;
        shape =
            rw
              (
                left_justified_full (c.bn2bin p.x1) full_x,
                left_justified_full (c.bn2bin p.y1) full_y,
              )
              at sealed.shape;
        derived = sealed.derived;
        unmask = sealed.unmask;
      }
