-- ===== src/Tests/Certificates.antt =====
-- The properties of certificates and chains, at the samples.
use csv_rs.Base.{
  if◌then◌else◌, ◌==◌, ℕ, ◌∷◌, ◌>>=◌, arith, Bytes, [], ◌++◌, ◌≡◌, ◌≢◌, inl, refl, append-nil, some,
  none, ok, panicked, length, replicate, take,
}
use csv_rs.Certs.Ca.Data as Ca
use csv_rs.Certs.Csv.Data as Csv
use csv_rs.Crypto.Ecdsa
use csv_rs.Crypto.Sm2
use csv_rs.Crypto.Ecc.{group_nid}
use csv_rs.Crypto.KeyStore.{KeyStore, sign_at, finished, use_after_free, sign_at-once}
use csv_rs.Crypto.Kdf.{ecdh_kdf_x9_63, ecdh_kdf_x9_63-eq-blocks, blocks}
use csv_rs.OpenSsl.{Nid, sm2}
use csv_rs.Crypto.EcKey.{EcLib, of_private_key, to_ec_key, to_ec_key-of_private_key}
use csv_rs.Crypto.Points
use csv_rs.Crypto.Encrypt.{encrypt, encrypt-Sealed, Sealed}
use csv_rs.Util.BigNum.{from_le}
use csv_rs.Certs.Usage as Usages
use csv_rs.Certs.Usage.{is_usage, usage_algorithm, algorithm_digest}
use csv_rs.Certs.Csv.Cert.{
  no_signature, is_empty, to_signature, generate, generate_body, generate_key, chosen_uid,
}
use csv_rs.Certs.Csv.Cert as CsvCert
use csv_rs.Certs.Csv.Verify.{verify_panics}
use csv_rs.Certs.Csv.SignVerify.{Signs, verify-sign_certificate}
use csv_rs.Certs.Chain.{Chain, decode, encode}
use csv_rs.Certs.RoundTrip.{image, decode-iff-image}
use csv_rs.Certs.Encode.{decode-encode, image-IsArray}
use csv_rs.Certs.Trust.{Trusted, verify-iff-Trusted}
use csv_rs.Session.Key.{derive, prefix, room}
use csv_rs.Session.Derive.{round, derive-eq-rounds}
use csv_rs.Tests.Toy.{numbers, numbers-laws, curve, curve-laws, curve-der, sums, sums-laws, points}
use csv_rs.Tests.Trusted.{trusted, trusted_verifies, trusted-AreCertificates}
use csv_rs.Tests.Samples.{
  long, long-IsCertificate, countersigned, zeros_signature, key, private_key, uid, certificate,
  certificate-IsCertificate, key-IsPubKey, chain, chain-IsChain,
}

verify-iff-Trusted_example : (trusted.csv.pdh ≡ trusted.csv.pdh) × Trusted numbers curve trusted
verify-iff-Trusted_example =
    (verify-iff-Trusted numbers curve trusted trusted-AreCertificates trusted.csv.pdh).0
      trusted_verifies

decode-iff-image_example : decode (image chain ++ []) ≡ ok (chain, [])
decode-iff-image_example =
    (decode-iff-image (image chain ++ []) chain []
        (rw (append-nil (image chain)) (image-IsArray chain chain-IsChain).bytes)).1
      (refl, chain-IsChain)

decode-encode_example :
    let written =
      Csv.body.to_bytes chain.csv.pdh.body
      ++ (Csv.body.to_bytes chain.csv.pek.body
          ++ (Csv.body.to_bytes chain.csv.oca.body
              ++ (Csv.body.to_bytes chain.csv.cek.body
                  ++ (Ca.body.to_bytes chain.ca.hsk.body
                      ++ Ca.body.to_bytes chain.ca.hrk.body)))) in
    (encode chain [] ≡ ok written)
    × (length written ≡ 5328)
    × ((c' : Chain) (rest : Bytes) → decode written ≢ ok (c', rest))
decode-encode_example = decode-encode chain chain-IsChain

verify-sign_certificate_example :
    Signs numbers curve numbers-laws curve-laws curve-der
      (certificate Usages.oca)
      private_key
      (certificate Usages.pek)
      uid
      0
unfolding generate generate_body generate_key chosen_uid Sm2.generate group_nid usage_algorithm
    algorithm_digest replicate to_signature is_empty is_usage no_signature
verify-sign_certificate_example =
    verify-sign_certificate numbers curve numbers-laws curve-laws curve-der Usages.oca (some uid)
      uid 5 0 (certificate Usages.oca) private_key (replicate 32 5, replicate 32 7)
      (certificate Usages.pek) none none refl (omega arith) refl
      (certificate-IsCertificate Usages.oca (omega arith)) refl refl refl refl (inl refl)

-- One key, at the address 7.
abbrev keys_at_7 : KeyStore curve
keys_at_7 a = if a == 7 then some (replicate 32 5, replicate 32 7) else none

sign_at-once_example :
    let after = (sign_at curve keys_at_7 7 uid uid 0).0 in
    ((sign_at curve keys_at_7 7 uid uid 0).1
      ≡ finished (Sm2.sign curve (replicate 32 5, replicate 32 7) uid uid 0))
    × (after 8 ≡ keys_at_7 8)
    × ((sign_at curve after 7 uid [] 0).1 ≡ use_after_free)
sign_at-once_example =
    sign_at-once curve keys_at_7 7 8 (replicate 32 5, replicate 32 7)
      (replicate 32 5, replicate 32 7) uid uid uid [] 0 0 refl refl refl refl
      (λ h. omega (arith, h))

verify_panics_example : CsvCert.verify numbers curve long countersigned ≡ panicked
unfolding to_signature is_empty is_usage no_signature Ecdsa.to_vec from_le replicate
verify_panics_example =
    (verify_panics numbers curve long countersigned (some zeros_signature) none long-IsCertificate
        refl refl).1
      (omega arith, inl (λ h. cc))

ecdh_kdf_x9_63-eq-blocks_example :
    (ecdh_kdf_x9_63 sums 40 uid ≡ ok (take 40 (blocks sums sums-laws 2 uid 1)))
    × (length (take 40 (blocks sums sums-laws 2 uid 1)) ≡ 40)
ecdh_kdf_x9_63-eq-blocks_example =
    (ecdh_kdf_x9_63-eq-blocks sums sums-laws 40 uid).0 (omega arith) (omega arith)

encrypt-Sealed_example :
    (ct : Bytes) × (encrypt curve points sums uid key 1 ≡ ok ct)
    × Sealed curve points sums sums-laws uid
        (9 ∷ [])
        (replicate 32 9)
        (replicate 32 160)
        (replicate 32 7)
        ct
unfolding replicate Points.points Sm2.ec_key
encrypt-Sealed_example =
    encrypt-Sealed curve points sums sums-laws uid key 1
      (record { x1 = 9 ∷ []; y1 = replicate 32 9; x2 = replicate 32 160; y2 = replicate 32 7 })
      (replicate 32 160) (replicate 32 7) key-IsPubKey refl (omega arith) refl refl refl refl refl
      refl (omega arith) (omega arith)

derive-eq-rounds_example :
    (derive sums uid 16 [] (1 ∷ [])
      ≡ ok (
          take 16 (
            round sums sums-laws
              (room 16)
              (prefix uid [] (1 ∷ []) ++ round sums sums-laws (room 16) (prefix uid [] (1 ∷ []))))))
    × (length (
          take 16 (
            round sums sums-laws
              (room 16)
              (prefix uid [] (1 ∷ []) ++ round sums sums-laws (room 16) (prefix uid [] (1 ∷ [])))))
        ≡ 16)
unfolding prefix room
derive-eq-rounds_example = derive-eq-rounds sums sums-laws uid 16 [] (1 ∷ []) (omega arith)

-- Keys on the group of their curve, with ones for coordinates.
abbrev keys : EcLib numbers
keys = record {
  EcGroup = Nid;
  PublicKey = Nid × (ℕ × ℕ);
  PrivateKey = ℕ × ℕ;
  from_curve_name = λ nid. ok nid;
  curve_name = λ g. some g;
  from_public_key_affine_coordinates = λ g x y. ok (g, (x, y));
  group = λ k. sm2;
  affine_coordinates = λ k. ok k;
}

to_ec_key-of_private_key_example :
    (of_private_key numbers keys (5, 7) >>= to_ec_key numbers keys) ≡ ok (sm2, (5, 7))
unfolding replicate
to_ec_key-of_private_key_example =
    to_ec_key-of_private_key numbers keys numbers-laws (5, 7) sm2 5 7 refl refl refl (omega arith)
      (omega arith)
