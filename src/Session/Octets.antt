-- ===== src/Session/Octets.antt =====
-- src/session/mod.rs, src/session/key.rs and src/crypto/sm.rs: that what is made of bytes are bytes.
use mathlib.Core.List.{reverse}
use csv_rs.Base.{refl, all_bytes-IsBytes}
use csv_rs.Base.{
  ℕ, zero, suc, ◌+◌, ◌-◌, ◌/◌, ◌==◌, ◌≡◌, subst, arith, Bool, Bool-cases, true, false, inl, inr,
  leb, ltb, not, ◌||◌, if◌then◌else◌, Bytes, [], ◌∷◌, ◌++◌, length, take, drop, replicate, some,
  Outcome, ok, panicked, ok_or, IsByte, IsBytes, IsArray, All-append, All-take, All-drop,
  zeros-IsBytes, reverse-IsBytes, bit_xor_byte, >>=-eq-ok, >>=_gives, fail_if, fail_if-eq-ok,
  ok_injective,
}
use csv_rs.Error.{IoError, of_kind, invalid_data}
use csv_rs.OpenSsl.{BigNums, BigNumLaws, Sm2Lib}
use csv_rs.Util.{slice_to}
use csv_rs.Util.BigNum.{write_from, write_from-IsBytes}
use csv_rs.Crypto.Ecc.{PubKey, group_size}
use csv_rs.Crypto.Ecdsa
use csv_rs.Crypto.Sm2.{ec_key}
use csv_rs.Crypto.Kdf.{Sm3Lib, kdf_loop, ecdh_kdf_x9_63, ecdh_kdf_max, to_be_bytes}
use csv_rs.Crypto.Points.{CurveLib, points}
use csv_rs.Crypto.Encrypt.{xor_bytes, encrypt}
use csv_rs.Crypto.Signing.{ok_or-eq-ok}
use csv_rs.Session.Key.{Key, derive, prefix, room, random}
use csv_rs.Session.Symm.{SymmLib}
use csv_rs.Session.Mac.{mac, sign_into}
use csv_rs.Session.Channel.{guest_user_id, wrap_keys, splice}

-- What OpenSSL writes are bytes, and as many random ones as it was asked for.
pub record OctetLaws (l : Sm2Lib) (c : CurveLib l) (m : Sm3Lib) (y : SymmLib) : Type 0 where
  pub bn2binpad : (n : l.Number) (k : ℕ) (b : Bytes) → l.bn2binpad n k ≡ some b → IsBytes b
  pub bn2bin : (n : l.Number) → IsBytes (c.bn2bin n)
  pub digest : (s : Bytes) {b : Bytes} → m.digest s ≡ some b → IsBytes b
  pub rand_bytes : (draw n : ℕ) {b : Bytes} → y.rand_bytes draw n ≡ ok b → IsArray n b
  pub hmac : (key msg : Bytes) {b : Bytes} → y.hmac key msg ≡ ok b → IsBytes b
  pub update :
      (k : y.Crypter) (a : Bytes) {b : Bytes} {after : y.Crypter}
      → IsBytes a
      → y.update k a ≡ ok (b, after)
      → IsBytes b
  pub finalize : (k : y.Crypter) {b : Bytes} → y.finalize k ≡ ok b → IsBytes b

pub xor_bytes-IsBytes :
    (mask data' : Bytes) → IsBytes mask → IsBytes data' → IsBytes (xor_bytes mask data')
unfolding xor_bytes
xor_bytes-IsBytes [] data' hm hd = tt
xor_bytes-IsBytes (a ∷ mask) [] hm hd = hm
xor_bytes-IsBytes (a ∷ mask) (b ∷ bs) hm hd =
    (bit_xor_byte a b hm.0 hd.0, xor_bytes-IsBytes mask bs hm.1 hd.1)

module _ (l : Sm2Lib) (c : CurveLib l) (m : Sm3Lib) (y : SymmLib) (octets : OctetLaws l c m y) where
  kdf_loop-IsBytes :
      (fuel : ℕ) (input : Bytes) (n counter : ℕ) {b : Bytes}
      → kdf_loop m fuel input n counter ≡ ok b
      → IsBytes b
  unfolding kdf_loop
  kdf_loop-IsBytes zero input n counter h = cc
  kdf_loop-IsBytes (suc fuel) input n counter h = elim (Bool-cases (n == 0)) [
    | inl done ↦ subst IsBytes (ok_injective (rw done at h)) tt
    | inr more ↦ elim (Bool-cases (leb 32 n)) [
      | inl whole ↦
          let (d, digested, h₁) =
            >>=-eq-ok (ok_or (m.digest (input ++ to_be_bytes counter)) (of_kind invalid_data)) _
              (rw (more, whole) at h) in
          let first = octets.digest _ (ok_or-eq-ok _ _ digested) in
          elim (Bool-cases (n - 32 == 0)) [
            | inl last ↦ subst IsBytes (ok_injective (rw last at h₁)) first
            | inr left ↦
                let (rest, looped, h₂) =
                  >>=-eq-ok (kdf_loop m fuel input (n - 32) (counter + 1)) _ (rw left at h₁) in
                subst IsBytes (ok_injective h₂) (
                  All-append IsByte d rest first
                    (kdf_loop-IsBytes fuel input (n - 32) (counter + 1) looped))
          ]
      | inr part ↦
          let (d, digested, h₁) =
            >>=-eq-ok (ok_or (m.digest (input ++ to_be_bytes counter)) (of_kind invalid_data)) _
              (rw (more, part) at h) in
          subst IsBytes (ok_injective h₁)
            (All-take IsByte n d (octets.digest _ (ok_or-eq-ok _ _ digested)))
    ]
  ]

  kdf-IsBytes :
      (outlen : ℕ) (input : Bytes) {b : Bytes} → ecdh_kdf_x9_63 m outlen input ≡ ok b → IsBytes b
  unfolding ecdh_kdf_x9_63
  kdf-IsBytes outlen input h =
      let (_, h₁) =
        fail_if-eq-ok (ltb ecdh_kdf_max outlen || ltb ecdh_kdf_max (length input))
          (of_kind invalid_data) _ h in
      let (_, h₂) = fail_if-eq-ok (not m.context) (of_kind invalid_data) _ h₁ in
      kdf_loop-IsBytes (outlen / 32 + 1) input outlen 1 h₂

  pub derive-IsBytes :
      (key : Key) (size : ℕ) (ctx label : Bytes) {b : Key}
      → derive m key size ctx label ≡ ok b
      → IsBytes b
  unfolding derive
  derive-IsBytes key size ctx label h =
      let (first, made, h₁) = >>=-eq-ok (ecdh_kdf_x9_63 m (room size) (prefix key ctx label)) _ h in
      let (second, made', h₂) = >>=-eq-ok (ecdh_kdf_x9_63 m (room size) _) _ h₁ in
      subst IsBytes (ok_injective h₂)
        (All-take IsByte size second (kdf-IsBytes (room size) _ made'))

  pub mac-IsBytes : (key msg : Bytes) {b : Bytes} → mac y key msg ≡ ok b → IsBytes b
  unfolding mac sign_into
  mac-IsBytes key msg {b} h =
      let (written, made, h₁) = >>=-eq-ok (y.hmac key msg) _ h in
      write_from-IsBytes (replicate 32 0) written b (zeros-IsBytes 32) (octets.hmac key msg made) h₁

  pub random-IsBytes :
      (draw n : ℕ) {key : Key} → random (y.rand_bytes draw) n ≡ ok key → IsBytes key
  unfolding random
  random-IsBytes draw n h =
      let (key, drawn, h₁) = >>=-eq-ok (y.rand_bytes draw _) _ h in
      subst IsBytes (ok_injective h₁) (octets.rand_bytes draw _ drawn).bytes

  splice-IsBytes :
      (wrap : Bytes) (off : ℕ) (written : Bytes) {b : Bytes}
      → IsBytes wrap
      → IsBytes written
      → splice wrap off written ≡ ok b
      → IsBytes b
  unfolding splice
  splice-IsBytes wrap off written hw hs h =
      let (rest, put, done) = >>=-eq-ok (write_from (drop off wrap) written) _ h in
      subst IsBytes (ok_injective done) (
        All-append IsByte (take off wrap) rest (All-take IsByte off wrap hw)
          (write_from-IsBytes (drop off wrap) written rest (All-drop IsByte off wrap hw) hs put))

  -- What passed a test is what was tested.
  tested :
      (b : Bool) (x : Bytes) {z : Bytes}
      → IsBytes x
      → Path (Outcome IoError Bytes) (if b then ok x else panicked) (ok z)
      → IsBytes z
  tested true x hx h = subst IsBytes (ok_injective h) hx
  tested false x hx h = cc

  pub wrap_keys-IsBytes :
      (kek iv tek tik : Bytes) {b : Bytes}
      → IsBytes tek
      → IsBytes tik
      → wrap_keys y kek iv tek tik ≡ ok b
      → IsBytes b
  unfolding wrap_keys
  wrap_keys-IsBytes kek iv tek tik h_tek h_tik h =
      let (key, sliced, h₁) = >>=-eq-ok (slice_to 16 kek) _ h in
      let (start, starts, h₂) = >>=-eq-ok (y.crypter key iv) _ h₁ in
      let ((c1, between), first, h₃) = >>=-eq-ok (y.update start tek) _ h₂ in
      let (wrap1, spliced1, h₄) = >>=-eq-ok (splice (replicate 32 0) 0 c1) _ h₃ in
      let ((c2, after), second, h₅) = >>=-eq-ok (y.update between tik) _ h₄ in
      let (wrap2, spliced2, h₆) = >>=-eq-ok (splice wrap1 (length c1) c2) _ h₅ in
      let (c3, ends, h₇) = >>=-eq-ok (y.finalize after) _ h₆ in
      let (wrap3, spliced3, h₈) = >>=-eq-ok (splice wrap2 (length c1 + length c2) c3) _ h₇ in
      let b1 =
        splice-IsBytes (replicate 32 0) 0 c1 (zeros-IsBytes 32)
          (octets.update start tek h_tek first) spliced1 in
      let b2 = splice-IsBytes wrap1 _ c2 b1 (octets.update between tik h_tik second) spliced2 in
      let b3 = splice-IsBytes wrap2 _ c3 b2 (octets.finalize after ends) spliced3 in
      tested (length c1 + length c2 + length c3 == 32) wrap3 b3 h₈

  pub encrypt-IsBytes :
      (plain : Bytes) (key : PubKey) (env : l.Env) {ct : Bytes}
      → IsBytes plain
      → encrypt l c m plain key env ≡ ok ct
      → IsBytes ct
  unfolding encrypt
  encrypt-IsBytes plain key env h_plain h = >>=_gives (group_size key.g) _ h λ size known h₁.
      >>=_gives (slice_to size key.x) _ h₁ λ x sliced_x h₂.
        >>=_gives (slice_to size key.y) _ h₂ λ y' sliced_y h₃.
          >>=_gives (fail_if (not (c.allocated env)) (of_kind invalid_data)) _ h₃ λ _ _ h₄.
            >>=_gives (points l c (ec_key l (reverse x) (reverse y')) env) _ h₄ λ p _ h₅.
              >>=_gives (ok_or (l.bn2binpad p.x2 32) (of_kind invalid_data)) _ h₅ λ x2 pad_x h₆.
                >>=_gives (ok_or (l.bn2binpad p.y2 32) (of_kind invalid_data)) _ h₆ λ y2 pad_y h₇.
                  >>=_gives (ecdh_kdf_x9_63 m (length plain) (x2 ++ y2)) _ h₇ λ mask derived h₈.
                    >>=_gives (fail_if (not m.context) (of_kind invalid_data)) _ h₈ λ _ _ h₉.
                      >>=_gives (ok_or (m.digest (x2 ++ plain ++ y2)) (of_kind invalid_data)) _ h₉
                        λ c3 digested h₁₀.
                          >>=_gives (write_from (replicate 32 0) (c.bn2bin p.x1)) _ h₁₀
                            λ x1 put_x h₁₁.
                              >>=_gives (write_from (replicate 32 0) (c.bn2bin p.y1)) _ h₁₁
                                λ y1 put_y done. subst IsBytes (ok_injective done) (
                                  All-append IsByte ((4 ∷ x1) ++ y1 ++ c3) (xor_bytes mask plain)
                                    (All-append IsByte ((4 ∷ x1) ++ y1) c3
                                      (All-append IsByte (4 ∷ x1) y1
                                        (omega arith, coordinate p.x1 put_x)
                                        (coordinate p.y1 put_y))
                                      (octets.digest _ (ok_or-eq-ok _ _ digested)))
                                    (xor_bytes-IsBytes mask plain (kdf-IsBytes _ _ derived)
                                      h_plain))
    where
      coordinate :
          (n : l.Number) {b : Bytes} → write_from (replicate 32 0) (c.bn2bin n) ≡ ok b → IsBytes b
      coordinate n {b} =
          write_from-IsBytes (replicate 32 0) (c.bn2bin n) b (zeros-IsBytes 32) (octets.bn2bin n)

module _ (o : BigNums) (laws : BigNumLaws o) where
  -- The numbers of a signature that is read are bytes.
  pub of_slice-IsBytes :
      (sig : Bytes) {g : Ecdsa.Signature} → Ecdsa.of_slice o sig ≡ ok g → IsBytes g.r × IsBytes g.s
  unfolding Ecdsa.of_slice Ecdsa.of_ecdsa_sig csv_rs.Util.BigNum.as_le_bytes
  of_slice-IsBytes sig h =
      let (raw, parsed, h₁) = >>=-eq-ok (o.from_der sig) _ h in
      let number : (b : o.BigNum) → IsBytes (reverse (o.to_vec b)) =
        λ b. reverse-IsBytes (o.to_vec b) (laws.to_vec-IsBytes b) in
      let (r, put_r, h₂) =
        >>=-eq-ok (write_from (replicate 72 0) (reverse (o.to_vec (o.r raw)))) _ h₁ in
      let (s, put_s, done) =
        >>=-eq-ok (write_from (replicate 72 0) (reverse (o.to_vec (o.s raw)))) _ h₂ in
      subst (λ (q : Ecdsa.Signature). IsBytes q.r × IsBytes q.s) (ok_injective done)
        (
          write_from-IsBytes (replicate 72 0) _ r (zeros-IsBytes 72) (number (o.r raw)) put_r,
          write_from-IsBytes (replicate 72 0) _ s (zeros-IsBytes 72) (number (o.s raw)) put_s,
        )

pub guest_user_id-IsBytes : IsBytes guest_user_id
guest_user_id-IsBytes = all_bytes-IsBytes guest_user_id refl
