-- ===== src/Api/Guest/SignerLaws.antt =====
-- src/api/guest/types.rs: which evidence is accepted, and what it becomes.
use csv_rs.Base.{
  bit_xor_byte, IsBytes, subst, ℕ, zero, suc, ◌+◌, ◌%◌, ◌<◌, ◌≡◌, ◌↔◌, refl, sym, ◌∙◌, bit_xor,
  arith, false, not, Bytes, [], ◌∷◌, ◌++◌, length, replicate, bit_xor_twice, bytes_eq, bytes_eq_iff,
  bytes_eq_refl, ok, >>=-eq-ok, fail_if-eq-ok, ok_injective,
}
use csv_rs.Util.Memory.{le_bytes, length-le_bytes, le_bytes-IsArray}
use csv_rs.Api.Guest.Request.{HashLib}
use csv_rs.Api.Guest.Signer.{ReportSigner, byte_at, xor_from, xor_with_anonce, restore, verify}

byte_at-within : (xs : Bytes) (i : ℕ) → i < length xs → (a : ℕ) × (byte_at xs i ≡ ok a)
unfolding byte_at
byte_at-within [] i h = absurd (omega arith)
byte_at-within (x ∷ xs) zero h = (x, refl)
byte_at-within (x ∷ xs) (suc i) h = byte_at-within xs i (omega arith)

-- Masking never fails, and masking what came out gives back what went in.
xor_from-twice :
    (array : Bytes) (index : ℕ) (plain : Bytes)
    → length array ≡ 4
    → (out : Bytes) × (xor_from array index plain ≡ ok out) × (xor_from array index out ≡ ok plain)
unfolding xor_from
xor_from-twice array index [] size = ([], refl, refl)
xor_from-twice array index (b ∷ bs) size =
    let (a, here) = byte_at-within array (index % 4) (omega (arith, size)) in
    let (rest, there, back) = xor_from-twice array (index + 1) bs size in
    (bit_xor b a ∷ rest, rw (here, there), rw (here, back, bit_xor_twice b a))

module _ (anonce : ℕ) where
  -- What masking gives, masking gives back.
  pub xor_with_anonce-twice :
      (plain masked : Bytes)
      → xor_with_anonce plain anonce ≡ ok masked
      → xor_with_anonce masked anonce ≡ ok plain
  unfolding xor_with_anonce
  xor_with_anonce-twice plain masked h =
      let (out, there, back) =
        xor_from-twice (le_bytes 4 anonce) 0 plain (length-le_bytes 4 anonce) in
      let same : out ≡ masked = ok_injective (sym there ∙ h) in rw (← same) back

same_bytes : (a b : Bytes) → not (bytes_eq a b) ≡ false → a ≡ b
same_bytes a b h = (bytes_eq_iff a b).0 (ground (arith, h))

module _ (h : HashLib) (s : ReportSigner) (input_mnonce mnonce : Bytes) (anonce : ℕ) where
  -- Evidence is accepted exactly if the nonce of the report, unmasked, is the guest's own, and its MAC
  -- is the one under that nonce of its certificate, serial number and reserved bytes as they came; what
  -- the caller then has is what `restore` makes of it.
  pub verify-iff-restore :
      (after : ReportSigner)
      → (verify h s input_mnonce mnonce anonce ≡ ok after) ↔ (
          (xor_with_anonce mnonce anonce ≡ ok input_mnonce)
          × (h.hmac input_mnonce (s.pek_cert ++ s.sn ++ s.reserved) ≡ ok s.mac)
          × (restore s anonce ≡ ok after))
  unfolding verify
  verify-iff-restore after = (
    λ e.
        let (real, unmasked, e₁) = >>=-eq-ok (xor_with_anonce mnonce anonce) _ e in
        let (own, e₂) = fail_if-eq-ok _ _ _ e₁ in
        let (mac, sealed, e₃) = >>=-eq-ok (h.hmac real (s.pek_cert ++ s.sn ++ s.reserved)) _ e₂ in
        let (genuine, e₄) = fail_if-eq-ok _ _ _ e₃ in
        let same = same_bytes real input_mnonce own in
        let same_mac = same_bytes mac s.mac genuine in
        (rw same at unmasked, rw (same, same_mac) at sealed, e₄),
    λ (unmasked, sealed, restored).
        rw (unmasked, bytes_eq_refl input_mnonce, sealed, bytes_eq_refl s.mac) restored,
  )

-- Evidence as the secure processor makes it: a certificate, a serial number and the guest's nonce, all
-- masked by one number, and the MAC under the nonce of what is sent. It is accepted, and the caller has
-- the certificate and the serial number as they were, with reserved bytes of zeros.
pub verify-of-masked :
    (h : HashLib) (pek_cert sn reserved mac nonce masked_cert masked_sn masked_nonce : Bytes)
    (anonce : ℕ)
    → xor_with_anonce pek_cert anonce ≡ ok masked_cert
    → xor_with_anonce sn anonce ≡ ok masked_sn
    → xor_with_anonce nonce anonce ≡ ok masked_nonce
    → h.hmac nonce (masked_cert ++ masked_sn ++ reserved) ≡ ok mac
    → verify h
        (record { pek_cert = masked_cert; sn = masked_sn; reserved = reserved; mac = mac })
        nonce
        masked_nonce
        anonce
      ≡ ok (record {
        pek_cert = pek_cert;
        sn = sn;
        reserved = replicate (length reserved) 0;
        mac = mac;
      })
unfolding restore
verify-of-masked h pek_cert sn reserved mac nonce masked_cert masked_sn masked_nonce anonce c n m
      sealed =
    (verify-iff-restore h _ nonce masked_nonce anonce _).1 (
      xor_with_anonce-twice anonce nonce masked_nonce m,
      sealed,
      rw (
        xor_with_anonce-twice anonce pek_cert masked_cert c,
        xor_with_anonce-twice anonce sn masked_sn n,
      ),
    )

byte_at-IsByte : (xs : Bytes) (i a : ℕ) → IsBytes xs → byte_at xs i ≡ ok a → a < 256
unfolding byte_at
byte_at-IsByte [] i a h e = cc
byte_at-IsByte (x ∷ xs) zero a h e = omega (arith, h.0, ok_injective e)
byte_at-IsByte (x ∷ xs) (suc i) a h e = byte_at-IsByte xs i a h.1 e

xor_from-IsBytes :
    (array : Bytes) (index : ℕ) (masked out : Bytes)
    → IsBytes array
    → IsBytes masked
    → xor_from array index masked ≡ ok out
    → IsBytes out
unfolding xor_from
xor_from-IsBytes array index [] out h fits e = subst IsBytes (ok_injective e) tt
xor_from-IsBytes array index (b ∷ bs) out h fits e =
    let (a, here, e₁) = >>=-eq-ok (byte_at array (index % 4)) _ e in
    let (rest, there, e₂) = >>=-eq-ok (xor_from array (index + 1) bs) _ e₁ in
    subst IsBytes (ok_injective e₂) (
      bit_xor_byte b a fits.0 (byte_at-IsByte array (index % 4) a h here),
      xor_from-IsBytes array (index + 1) bs rest h fits.1 there,
    )

-- Unmasked bytes are bytes.
pub xor_with_anonce-IsBytes :
    (masked out : Bytes) (anonce : ℕ)
    → IsBytes masked
    → xor_with_anonce masked anonce ≡ ok out
    → IsBytes out
unfolding xor_with_anonce
xor_with_anonce-IsBytes masked out anonce fits e =
    xor_from-IsBytes (le_bytes 4 anonce) 0 masked out (le_bytes-IsArray 4 anonce).bytes fits e
