-- ===== src/Crypto/EcKey.antt =====
-- src/crypto/key: raw keys and groups, to and from the bindings' own.
use csv_rs.Base.{
  ℕ, ◌-◌, ◌≤◌, ◌≡◌, ap, ◌∙◌, arith, Bytes, ◌++◌, length, take, replicate, Option, some, Outcome, ok,
  ok_or, ◌>>=◌, >>=-eq-ok, length-append, length-reverse, length-replicate, take_across,
  take-replicate, reverse-replicate,
}
use mathlib.Core.List.{reverse, reverse-append, reverse-reverse}
use csv_rs.Error.{IoError, of_kind, invalid_input}
use csv_rs.OpenSsl.{Nid, sm2, BigNums, BigNumLaws}
use csv_rs.Util.{slice_to, slice_to_within}
use csv_rs.Util.BigNum.{from_le, as_le_bytes, as_le_bytes_fits}
use csv_rs.Crypto.Ecc.{Group, group_size, group_nid, nid_group, PubKey}

-- Curve groups and keys of the bindings.
pub record EcLib (o : BigNums) : Type 1 where
  pub EcGroup : Type 0
  pub PublicKey : Type 0
  pub PrivateKey : Type 0
  pub from_curve_name : Nid → Outcome IoError EcGroup
  pub curve_name : EcGroup → Option Nid
  pub from_public_key_affine_coordinates : EcGroup → o.BigNum → o.BigNum → Outcome IoError PublicKey
  pub group : PrivateKey → EcGroup
  -- The coordinates of the public half, where there is memory for the computation.
  pub affine_coordinates : PrivateKey → Outcome IoError (o.BigNum × o.BigNum)

module _ (o : BigNums) (e : EcLib o) where
  -- `TryFrom<Group> for ec::EcGroup`
  unfoldable pub to_ec_group : Group → Outcome IoError e.EcGroup
  to_ec_group value = do nid ← group_nid value; e.from_curve_name nid

  -- `TryFrom<&ec::EcGroupRef> for Group`
  unfoldable pub of_ec_group : e.EcGroup → Outcome IoError Group
  of_ec_group value = do nid ← ok_or (e.curve_name value) (of_kind invalid_input); nid_group nid

  -- `TryFrom<&PubKey> for ec::EcKey<pkey::Public>`
  unfoldable pub to_ec_key : PubKey → Outcome IoError e.PublicKey
  unfolding to_ec_group
  to_ec_key value = do
    s ← group_size value.g
    g ← to_ec_group value.g
    low_x ← slice_to s value.x
    x ← from_le o low_x
    low_y ← slice_to s value.y
    y ← from_le o low_y
    e.from_public_key_affine_coordinates g x y

  -- `TryFrom<&ec::EcKey<pkey::Private>> for PubKey`
  unfoldable pub of_private_key : e.PrivateKey → Outcome IoError PubKey
  unfolding of_ec_group
  of_private_key value = do
    (x, y) ← e.affine_coordinates value
    g ← of_ec_group (e.group value)
    low_x ← as_le_bytes o 72 x
    low_y ← as_le_bytes o 72 y
    ok (record { g = g; x = low_x; y = low_y })

module _ (o : BigNums) (laws : BigNumLaws o) where
  -- A number of at most 32 bytes, written into 72 and read from the first 32.
  written : (b : o.BigNum) → Bytes
  written b = reverse (o.to_vec b) ++ replicate (72 - length (o.to_vec b)) 0

  read_low :
      (b : o.BigNum) → length (o.to_vec b) ≤ 32 → (slice_to 32 (written b) >>= from_le o) ≡ ok b
  unfolding written from_le
  read_low b h =
      let n = length (o.to_vec b) in
      let low : Bytes = reverse (o.to_vec b) in
      let rest : Bytes = replicate (72 - n) 0 in
      let pad : Bytes = replicate (32 - n) 0 in
      let size : length low ≡ n = length-reverse (o.to_vec b) in
      let cut : take 32 (low ++ rest) ≡ low ++ pad =
        take_across 32 low rest (omega (arith, size, h))
        ∙ ap (λ (k : ℕ). low ++ take (32 - k) rest) size
        ∙ ap (λ t. low ++ t) (take-replicate {A = ℕ} 0 (32 - n) (72 - n) (omega arith)) in
      let turned : reverse (low ++ pad) ≡ pad ++ o.to_vec b =
        rw (reverse-append low pad, reverse-replicate {A = ℕ} 0, reverse-reverse) in
      rw
        (
          slice_to_within 32 (low ++ rest)
              (omega (arith, length-append low rest, size, length-replicate {A = ℕ} (72 - n) 0)),
          cut,
        )
        (ap o.from_slice turned ∙ laws.from_slice_padded (32 - n) b)

module _ (o : BigNums) (e : EcLib o) (laws : BigNumLaws o) where
  -- A private key on the SM2 curve whose public half has coordinates of at most 32 bytes: its raw public
  -- key is written, and read as the key of just these coordinates on that curve's group.
  pub to_ec_key-of_private_key :
      (k : e.PrivateKey) (g : e.EcGroup) (x y : o.BigNum)
      → e.affine_coordinates k ≡ ok (x, y)
      → e.curve_name (e.group k) ≡ some sm2
      → e.from_curve_name sm2 ≡ ok g
      → length (o.to_vec x) ≤ 32
      → length (o.to_vec y) ≤ 32
      → (of_private_key o e k >>= to_ec_key o e) ≡ e.from_public_key_affine_coordinates g x y
  unfolding of_private_key of_ec_group to_ec_key to_ec_group nid_group group_nid group_size written
  to_ec_key-of_private_key k g x y at curve group fit_x fit_y =
      let (low_x, sliced_x, read_x) =
        >>=-eq-ok (slice_to 32 (written o laws x)) (from_le o) (read_low o laws x fit_x) in
      let (low_y, sliced_y, read_y) =
        >>=-eq-ok (slice_to 32 (written o laws y)) (from_le o) (read_low o laws y fit_y) in
      rw (
        at,
        curve,
        as_le_bytes_fits o 72 x (omega (arith, fit_x)),
        as_le_bytes_fits o 72 y (omega (arith, fit_y)),
        group,
        sliced_x,
        read_x,
        sliced_y,
        read_y,
      )
