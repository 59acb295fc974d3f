-- ===== src/Crypto/Encrypt.antt =====
-- src/crypto/sm.rs: encryption to a public key.
use mathlib.Core.List.{reverse}
use csv_rs.Base.{
  ℕ, ◌+◌, ◌-◌, ◌≤◌, ◌≡◌, refl, ap, append-nil, ap₂, ◌∙◌, arith, Bytes, [], ◌∷◌, ◌++◌, length, take,
  replicate, not, true, bit_xor, some, Outcome, ok, ok_or, fail_if, ◌>>=◌, ◌>>◌, length-replicate,
  length-append, bit_xor_twice, bit_xor_comm, suc, drop-replicate, ◌/◌,
}
use csv_rs.Error.{IoError, of_kind, invalid_data}
use csv_rs.OpenSsl.{Sm2Lib}
use csv_rs.Util.{slice_to, slice_to_within}
use csv_rs.Util.BigNum.{write_from, write_from_fits}
use csv_rs.Crypto.Ecc.{PubKey, IsPubKey, sm2_256, group_size}
use csv_rs.Crypto.Sm2.{ec_key}
use csv_rs.Crypto.Points.{Points, CurveLib, points}
use csv_rs.Crypto.Kdf.{
  Sm3Lib, Sm3Laws, ecdh_kdf_max, blocks, ecdh_kdf_x9_63-eq-blocks, ecdh_kdf_x9_63,
}

-- `for i in 0..data.len() { mask[i] ^= data[i]; }`, where both are of one length.
unfoldable pub xor_bytes : Bytes → Bytes → Bytes
xor_bytes [] data' = []
xor_bytes (a ∷ mask) [] = a ∷ mask
xor_bytes (a ∷ mask) (b ∷ bs) = bit_xor a b ∷ xor_bytes mask bs

module _ (l : Sm2Lib) (c : CurveLib l) (m : Sm3Lib) where
  -- `SM2::encrypt`. The bytes of k·G are written into the front of 32; more would be a write beyond
  -- the buffer.
  unfoldable pub encrypt : Bytes → PubKey → l.Env → Outcome IoError Bytes
  encrypt plain key env = do
    pubkey_size ← group_size key.g
    x ← slice_to pubkey_size key.x
    y ← slice_to pubkey_size key.y
    let eckey = ec_key l (reverse x) (reverse y)
    fail_if (not (c.allocated env)) (of_kind invalid_data)
    p ← points l c eckey env
    x2 ← ok_or (l.bn2binpad p.x2 32) (of_kind invalid_data)
    y2 ← ok_or (l.bn2binpad p.y2 32) (of_kind invalid_data)
    mask ← ecdh_kdf_x9_63 m (length plain) (x2 ++ y2)
    fail_if (not m.context) (of_kind invalid_data)
    c3 ← ok_or (m.digest (x2 ++ plain ++ y2)) (of_kind invalid_data)
    x1 ← write_from (replicate 32 0) (c.bn2bin p.x1)
    y1 ← write_from (replicate 32 0) (c.bn2bin p.y1)
    ok ((4 ∷ x1) ++ y1 ++ c3 ++ xor_bytes mask plain)

-- An exclusive or with the same mask, done twice, gives the bytes back.
pub xor_bytes_twice :
    (mask plain : Bytes)
    → length mask ≡ length plain
    → xor_bytes mask (xor_bytes mask plain) ≡ plain
unfolding xor_bytes
xor_bytes_twice [] [] h = refl
xor_bytes_twice [] (b ∷ bs) h = absurd (omega arith)
xor_bytes_twice (a ∷ mask) [] h = absurd (omega arith)
xor_bytes_twice (a ∷ mask) (b ∷ bs) h =
    ap₂ ◌∷◌
      (bit_xor_comm a (bit_xor a b)
        ∙ ap (λ (k : ℕ). bit_xor k a) (bit_xor_comm a b)
        ∙ bit_xor_twice b a)
      (xor_bytes_twice mask bs (omega arith))

pub length-xor_bytes :
    (mask plain : Bytes) → length mask ≡ length plain → length (xor_bytes mask plain) ≡ length plain
unfolding xor_bytes
length-xor_bytes [] [] h = refl
length-xor_bytes [] (b ∷ bs) h = absurd (omega arith)
length-xor_bytes (a ∷ mask) [] h = absurd (omega arith)
length-xor_bytes (a ∷ mask) (b ∷ bs) h = ap suc (length-xor_bytes mask bs (omega arith))

-- A coordinate as it is written: the shortest bytes in front, and zeros behind them.
pub left_justified : Bytes → Bytes
left_justified b = b ++ replicate (32 - length b) 0

write_coordinate :
    (b : Bytes) → length b ≤ 32 → write_from (replicate 32 0) b ≡ ok (left_justified b)
unfolding left_justified
write_coordinate b h =
    write_from_fits (replicate 32 0) b (omega (arith, length-replicate {A = ℕ} 32 0))
    ∙ rw (drop-replicate {A = ℕ} 0) refl

-- A coordinate of 32 bytes fills its place.
pub left_justified_full : (b : Bytes) → length b ≡ 32 → left_justified b ≡ b
unfolding left_justified replicate
left_justified_full b h =
    ap (λ (k : ℕ). b ++ replicate k 0) {y = 0} (omega (arith, h)) ∙ append-nil b

length-left_justified : (b : Bytes) → length b ≤ 32 → length (left_justified b) ≡ 32
unfolding left_justified
length-left_justified b h = omega (
  arith,
  length-append b (replicate (32 - length b) 0),
  length-replicate {A = ℕ} (32 - length b) 0,
)

module _ (l : Sm2Lib) (c : CurveLib l) (m : Sm3Lib) (hash : Sm3Laws m) where
  -- What a ciphertext is: the byte 4, the first point, the digest, and the plain text masked by what is
  -- derived from the second point; unmasking gives the plain text back.
  pub record Sealed (plain x1 y1 x2 y2 ct : Bytes) : Type 0 where
    pub mask : Bytes
    pub c2 : Bytes
    pub shape :
        ct ≡ (4 ∷ left_justified x1) ++ left_justified y1 ++ hash.total (x2 ++ plain ++ y2) ++ c2
    pub size : length ct ≡ 97 + length plain
    pub derived : ecdh_kdf_x9_63 m (length plain) (x2 ++ y2) ≡ ok mask
    pub unmask : xor_bytes mask c2 ≡ plain

  -- For a plain text of at most 2^30 bytes and points whose coordinates have at most 32 bytes,
  -- encrypting succeeds with 97 bytes more than the plain text has; unmasking the end gives the plain
  -- text back; and a coordinate of the first point of fewer than 32 bytes stands in front of its zeros.
  pub encrypt-Sealed :
      (plain : Bytes) (key : PubKey) (env : l.Env) (p : Points l.Number) (x2 y2 : Bytes)
      → IsPubKey key
      → key.g ≡ sm2_256
      → length plain ≤ ecdh_kdf_max
      → c.allocated env ≡ true
      → points l c (ec_key l (reverse (take 32 key.x)) (reverse (take 32 key.y))) env ≡ ok p
      → l.bn2binpad p.x2 32 ≡ some x2
      → l.bn2binpad p.y2 32 ≡ some y2
      → length x2 ≡ 32
      → length y2 ≡ 32
      → length (c.bn2bin p.x1) ≤ 32
      → length (c.bn2bin p.y1) ≤ 32
      → (ct : Bytes) × (encrypt l c m plain key env ≡ ok ct)
        × Sealed plain (c.bn2bin p.x1) (c.bn2bin p.y1) x2 y2 ct
  unfolding encrypt group_size
  encrypt-Sealed plain key env p x2 y2 (g, (fx, fy)) known short allocated made pad_x pad_y size_x
        size_y fit_x fit_y =
      let shared =
        (ecdh_kdf_x9_63-eq-blocks m hash (length plain) (x2 ++ y2)).0 short
          (omega (arith, length-append x2 y2, size_x, size_y)) in
      let mask = take (length plain) (blocks m hash (length plain / 32 + 1) (x2 ++ y2) 1) in
      let x1 = c.bn2bin p.x1 in
      let y1 = c.bn2bin p.y1 in
      let c3 = hash.total (x2 ++ plain ++ y2) in
      let c2 = xor_bytes mask plain in
      let ct = (4 ∷ left_justified x1) ++ left_justified y1 ++ c3 ++ c2 in
      (
        ct,
        rw (
          known,
          slice_to_within 32 key.x (omega (arith, fx.size)),
          slice_to_within 32 key.y (omega (arith, fy.size)),
          allocated,
          made,
          pad_x,
          pad_y,
          shared.0,
          hash.has_context,
          hash.digest-total (x2 ++ plain ++ y2),
          write_coordinate x1 fit_x,
          write_coordinate y1 fit_y,
        ),
        record {
          mask = mask;
          c2 = c2;
          shape = refl;
          size = omega (
            arith,
            length-append ((4 ∷ left_justified x1) ++ left_justified y1 ++ c3) c2,
            length-append ((4 ∷ left_justified x1) ++ left_justified y1) c3,
            length-append (4 ∷ left_justified x1) (left_justified y1),
            length-left_justified x1 fit_x,
            length-left_justified y1 fit_y,
            hash.length-total (x2 ++ plain ++ y2),
            length-xor_bytes mask plain shared.1,
          );
          derived = shared.0;
          unmask = xor_bytes_twice mask plain shared.1;
        },
      )
