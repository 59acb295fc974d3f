-- ===== src/Crypto/Signing.antt =====
-- src/crypto/sm.rs and sig/ecdsa.rs: what a generated key signs, its public half accepts, and the
-- raw form of a signature gives its DER form back.
use mathlib.Core.List.{reverse, reverse-reverse}
use csv_rs.Base.{
  ap₂, ℕ, ◌-◌, ◌≤◌, ◌≡◌, ◌∙◌, refl, ap, subst, arith, Bytes, ◌++◌, length, take, replicate, resize,
  take-append, length-reverse, length-replicate, resize_fill, length-resize, Outcome, ok, some,
  none, Option, true, ok_or, ◌>>=◌, >>=-eq-ok, fail_if-eq-ok, ok_injective, length-resize,
}
use csv_rs.Error.{IoError}
use csv_rs.OpenSsl.{Nid, BigNums, BigNumLaws, Sm2Lib, Sm2Laws}
use csv_rs.Util.{slice_to, slice_to_within}
use csv_rs.Util.BigNum.{write_from_fits, as_le_bytes_fits, from_le-as_le_bytes}
use csv_rs.Crypto.Ecc.{PubKey, group_size, group_nid}
use csv_rs.Crypto.Ecdsa
use csv_rs.Crypto.Sm2

-- A coordinate of 32 bytes, turned round and filled up, is read back.
coordinate : (b : Bytes) → length b ≡ 32 → slice_to 32 (resize (reverse b) 72 0) ≡ ok (reverse b)
coordinate b size =
    let long : length (reverse b) ≡ 32 = omega (arith, size, length-reverse b) in
    slice_to_within 32 (resize (reverse b) 72 0) (omega (arith, length-resize (reverse b) 72 0))
    ∙ rw (resize_fill (reverse b) 72 0 (omega (arith, long)), take-append 32 (reverse b) _ long)
        refl

pub ok_or-eq-ok {ℓ} :
    {A : Type ℓ} (m : Option A) (e : IoError) {a : A}
    → Path (Outcome IoError A) (ok_or m e) (ok a)
    → m ≡ some a
ok_or-eq-ok none e h = cc
ok_or-eq-ok (some a) e h = ap some (ok_injective h)

group_nid-group_size : (g : ℕ) {n : Nid} → group_nid g ≡ ok n → group_size g ≡ ok 32
unfolding group_nid group_size
group_nid-group_size g h = ground (arith, h)

module _ (l : Sm2Lib) (laws : Sm2Laws l) where
  -- What generating gives: the point of the private key, in the bytes of the public one.
  pub record Generated (pk : PubKey) (k : l.EcKey) : Type 0 where
    pub x : l.Number
    pub y : l.Number
    pub bx : Bytes
    pub by : Bytes
    pub point : l.get_affine_coordinates k ≡ some (x, y)
    pub pad_x : l.bn2binpad x 32 ≡ some bx
    pub pad_y : l.bn2binpad y 32 ≡ some by
    pub known : group_size pk.g ≡ ok 32
    pub has_x : pk.x ≡ resize (reverse bx) 72 0
    pub has_y : pk.y ≡ resize (reverse by) 72 0

  generate-Generated :
      (g : ℕ) (env : l.Env) {pk : PubKey} {k : l.EcKey}
      → Sm2.generate l g env ≡ ok (pk, k)
      → Generated pk k
  unfolding Sm2.generate
  generate-Generated g env {pk} {k} h =
      let nid = >>=-eq-ok (group_nid g) _ h in
      let allocated = fail_if-eq-ok _ _ _ nid.2 in
      let set = >>=-eq-ok (ok_or (l.set_group nid.0) _) _ allocated.1 in
      let key = >>=-eq-ok (ok_or (l.generate_key set.0 env) _) _ set.2 in
      let at = >>=-eq-ok (ok_or (l.get_affine_coordinates key.0) _) _ key.2 in
      let qx = >>=-eq-ok (ok_or (l.bn2binpad at.0.0 32) _) _ at.2 in
      let qy = >>=-eq-ok (ok_or (l.bn2binpad at.0.1 32) _) _ qx.2 in
      let same : Path (PubKey × l.EcKey) _ (pk, k) = ok_injective qy.2 in
      subst (λ (p : PubKey × l.EcKey). Generated p.0 p.1) same
        (record {
          x = at.0.0;
          y = at.0.1;
          bx = qx.0;
          by = qy.0;
          point = ok_or-eq-ok _ _ at.1;
          pad_x = ok_or-eq-ok _ _ qx.1;
          pad_y = ok_or-eq-ok _ _ qy.1;
          known = group_nid-group_size g nid.1;
          has_x = refl;
          has_y = refl;
        })

  key_of_point :
      (bx by : Bytes) (x y : l.Number)
      → l.bin2bn bx ≡ x
      → l.bin2bn by ≡ y
      → Sm2.ec_key l bx by ≡ l.set_affine_coordinates l.ec_key_sm2 x y
  unfolding Sm2.ec_key
  key_of_point bx by x y hx hy = ap₂ (l.set_affine_coordinates l.ec_key_sm2) hx hy

  -- The key that checking makes of the public half is the one of the point.
  Generated-verify :
      {pk : PubKey} {k : l.EcKey} (g : Generated pk k) (p : l.Pkey) (sig id msg : Bytes)
      → l.pkey_assign (l.set_affine_coordinates l.ec_key_sm2 g.x g.y) ≡ some p
      → Sm2.verify l pk sig id msg ≡ ok (l.digest_verify p id msg sig)
  unfolding Sm2.verify
  Generated-verify g p sig id msg h =
      let (size_x, back_x) = laws.bn2binpad-bin2bn g.x 32 g.bx g.pad_x in
      let (size_y, back_y) = laws.bn2binpad-bin2bn g.y 32 g.by g.pad_y in
      rw (
        g.known,
        g.has_x,
        g.has_y,
        coordinate g.bx size_x,
        coordinate g.by size_y,
        reverse-reverse g.bx,
        reverse-reverse g.by,
        key_of_point g.bx g.by g.x g.y back_x back_y,
        h,
      )

  -- With a key pair that `generate` made and the memory to use it, signing succeeds, and what it
  -- gives is accepted under the public half for the same id and message.
  pub sm2_verify-sign :
      (g : ℕ) (env env' : l.Env) (pk : PubKey) (k : l.EcKey) (p : l.Pkey) (id msg : Bytes)
      → Sm2.generate l g env ≡ ok (pk, k)
      → l.pkey_allocated env' ≡ true
      → l.pkey_assign k ≡ some p
      → (Sm2.sign l k id msg env' ≡ ok (l.digest_sign p id msg env'))
        × (Sm2.verify l pk (l.digest_sign p id msg env') id msg ≡ ok true)
  unfolding Sm2.sign
  sm2_verify-sign g env env' pk k p id msg made allocated assigned =
      let sig = l.digest_sign p id msg env' in
      let made' = generate-Generated g env made in
      let (q, assigned', good) =
        laws.digest_verify-digest_sign k made'.x made'.y p id msg env' made'.point assigned in
      (
        rw (allocated, assigned)
            (ap (λ (r : Outcome IoError Bytes). r >>= λ s. Outcome.ok (take (length sig) s))
                (write_from_fits (replicate (l.digest_sign_room p msg) 0) sig (
                  omega (
                    arith,
                    laws.digest_sign-fits p id msg env',
                    length-replicate {A = ℕ} (l.digest_sign_room p msg) 0,
                  )))
              ∙ ap Outcome.ok (take-append (length sig) sig _ refl)),
        rw (Generated-verify made' q sig id msg assigned', good),
      )

-- The raw form of two numbers.
abbrev pub raw_of : (o : BigNums) → o.EcdsaSig → Ecdsa.Signature
raw_of o g = record {
  r = reverse (o.to_vec (o.r g)) ++ replicate (72 - length (o.to_vec (o.r g))) 0;
  s = reverse (o.to_vec (o.s g)) ++ replicate (72 - length (o.to_vec (o.s g))) 0;
}

module _ (o : BigNums) (g : o.EcdsaSig) (der : Bytes) (r_fits : length (o.to_vec (o.r g)) ≤ 72)
    (s_fits : length (o.to_vec (o.s g)) ≤ 72) where
  pub of_slice-raw_of : o.from_der der ≡ ok g → Ecdsa.of_slice o der ≡ ok (raw_of o g)
  unfolding Ecdsa.of_slice
  of_slice-raw_of parsed =
      rw (parsed, as_le_bytes_fits o 72 (o.r g) r_fits, as_le_bytes_fits o 72 (o.s g) s_fits)

  pub to_vec-raw_of : BigNumLaws o → o.to_der g ≡ ok der → Ecdsa.to_vec o (raw_of o g) ≡ ok der
  unfolding Ecdsa.to_vec
  to_vec-raw_of laws printed =
      let back_r = from_le-as_le_bytes o laws 72 (o.r g) r_fits in
      let back_s = from_le-as_le_bytes o laws 72 (o.s g) s_fits in
      rw (
        rw (as_le_bytes_fits o 72 (o.r g) r_fits) at back_r,
        rw (as_le_bytes_fits o 72 (o.s g) s_fits) at back_s,
        laws.from_private_components_parts g,
        printed,
      )
