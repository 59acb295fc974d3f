-- ===== src/Crypto/Points.antt =====
-- src/crypto/sm.rs: the points of an encryption, the random k·G and k·P for the public point P.
use csv_rs.Base.{
  ◌≡◌, Bytes, Bool, Option, some, Outcome, ok, ok_or, ◌>>=◌, >>=_gives, subst, ok_injective,
}
use csv_rs.Error.{IoError, of_kind, invalid_data}
use csv_rs.OpenSsl.{Sm2Lib}
use csv_rs.Crypto.Signing.{ok_or-eq-ok}

-- Points of the SM2 curve.
pub record CurveLib (l : Sm2Lib) : Type 1 where
  -- Whether there is memory for the points, the context and its numbers.
  pub allocated : l.Env → Bool
  pub Point : Type 0
  -- `BN_priv_rand_range` below the order of the group.
  pub priv_rand_range : l.Env → Option l.Number
  -- `EC_KEY_get0_public_key`, where there is one.
  pub public_point : l.EcKey → Option Point
  -- `EC_POINT_mul` with a scalar for the generator alone, and with a point and its scalar alone.
  pub mul_generator : l.Number → Option Point
  pub mul : Option Point → l.Number → Option Point
  -- `EC_POINT_get_affine_coordinates`
  pub affine_coordinates : Point → Option (l.Number × l.Number)
  -- `BN_bn2bin`, the shortest bytes.
  pub bn2bin : l.Number → Bytes

-- Multiples of the generator are multiplied in any order, and the bytes of a coordinate are read back
-- as the coordinate.
pub record CurveLaws (l : Sm2Lib) (c : CurveLib l) : Type 0 where
  pub mul-mul_generator :
      (d k : l.Number) (p q : c.Point)
      → c.mul_generator d ≡ some p
      → c.mul_generator k ≡ some q
      → c.mul (some p) k ≡ c.mul (some q) d
  pub bin2bn-bn2bin :
      (p : c.Point) (x y : l.Number)
      → c.affine_coordinates p ≡ some (x, y)
      → (l.bin2bn (c.bn2bin x) ≡ x) × (l.bin2bn (c.bn2bin y) ≡ y)

-- The points k·G and k·P of a random k, by their coordinates.
pub record Points (Number : Type 0) : Type 0 where
  pub x1 : Number
  pub y1 : Number
  pub x2 : Number
  pub y2 : Number

module _ (l : Sm2Lib) (c : CurveLib l) where
  -- The random number and the two multiplications of `SM2::encrypt`.
  unfoldable pub points : l.EcKey → l.Env → Outcome IoError (Points l.Number)
  points eckey env = do
    k ← ok_or (c.priv_rand_range env) (of_kind invalid_data)
    k_g ← ok_or (c.mul_generator k) (of_kind invalid_data)
    (x1, y1) ← ok_or (c.affine_coordinates k_g) (of_kind invalid_data)
    k_p ← ok_or (c.mul (c.public_point eckey) k) (of_kind invalid_data)
    (x2, y2) ← ok_or (c.affine_coordinates k_p) (of_kind invalid_data)
    ok (record { x1 = x1; y1 = y1; x2 = x2; y2 = y2 })

  -- What the coordinates are those of.
  pub record Multiplied (eckey : l.EcKey) (p : Points l.Number) : Type 0 where
    pub k : l.Number
    pub k_g : c.Point
    pub k_p : c.Point
    pub first : c.mul_generator k ≡ some k_g
    pub at_first : c.affine_coordinates k_g ≡ some (p.x1, p.y1)
    pub second : c.mul (c.public_point eckey) k ≡ some k_p
    pub at_second : c.affine_coordinates k_p ≡ some (p.x2, p.y2)

  pub points-Multiplied :
      (eckey : l.EcKey) (env : l.Env) {p : Points l.Number}
      → points eckey env ≡ ok p
      → Multiplied eckey p
  unfolding points
  points-Multiplied eckey env h =
      >>=_gives (ok_or (c.priv_rand_range env) (of_kind invalid_data)) _ h λ k _ h₁.
        >>=_gives (ok_or (c.mul_generator k) (of_kind invalid_data)) _ h₁ λ k_g first h₂.
          >>=_gives (ok_or (c.affine_coordinates k_g) (of_kind invalid_data)) _ h₂ λ a at_first h₃.
            >>=_gives (ok_or (c.mul (c.public_point eckey) k) (of_kind invalid_data)) _ h₃
              λ k_p second h₄.
                >>=_gives (ok_or (c.affine_coordinates k_p) (of_kind invalid_data)) _ h₄
                  λ b at_second done. subst (Multiplied eckey) (ok_injective done) (record {
                    k = k;
                    k_g = k_g;
                    k_p = k_p;
                    first = ok_or-eq-ok _ _ first;
                    at_first = ok_or-eq-ok _ _ at_first;
                    second = ok_or-eq-ok _ _ second;
                    at_second = ok_or-eq-ok _ _ at_second;
                  })
