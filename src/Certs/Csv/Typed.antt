-- ===== src/Certs/Csv/Typed.antt =====
-- src/certs/csv/cert/mod.rs: that a generated certificate has the values of the Rust type.
use mathlib.Core.List.{reverse}
use csv_rs.Base.{
  ℕ, ◌^◌, ◌<◌, ◌≡◌, arith, subst, Bytes, length, some, none, ok, ok_or, not, >>=_gives, fail_if,
  ok_injective, IsBytes, replicate-IsArray, resize-IsArray, reverse-IsBytes, refl, sym, ◌∙◌,
}
use csv_rs.Error.{of_kind, invalid_data}
use csv_rs.OpenSsl.{Sm2Lib}
use csv_rs.Crypto.{PrivateKey}
use csv_rs.Crypto.Ecc as Ecc
use csv_rs.Crypto.Ecc.{group_nid, sm2_256}
use csv_rs.Crypto.Sm2
use csv_rs.Crypto.Signing.{ok_or-eq-ok}
use csv_rs.Certs.Usage.{Usage, Algorithm, usage_algorithm}
use csv_rs.Certs.Csv.Data as Csv
use csv_rs.Certs.Csv.Data.{Certificate, IsCertificate}
use csv_rs.Certs.Csv.Cert.{no_signature, generate, generate_key, chosen_uid}
use csv_rs.Certs.Csv.Sign.{certificate_of, generate-generate_key, generate_key-Issued}

no_signature-IsSignatures : Csv.IsSignatures no_signature
unfolding no_signature
no_signature-IsSignatures = (
  omega arith,
  (omega arith, ((replicate-IsArray 72, replicate-IsArray 72), replicate-IsArray 368)),
)

pub certificate_of-IsCertificate :
    (u : Bytes) (k : Csv.PubKey)
    → length u < 256 ^ 2
    → IsBytes u
    → Csv.IsPubKey k
    → Csv.IsCertificate (certificate_of u k)
certificate_of-IsCertificate u k short bytes fits = (
  (
    omega arith,
    (
      (omega arith, omega arith),
      (
        omega arith,
        (
          fits,
          (short, (resize-IsArray u 254 bytes, (replicate-IsArray 16, replicate-IsArray 608))),
        ),
      ),
    ),
  ),
  (no_signature-IsSignatures, no_signature-IsSignatures),
)

-- Every algorithm of a usage fits its field.
usage_algorithm-IsWord : (u : Usage) {a : Algorithm} → usage_algorithm u ≡ ok a → a < 256 ^ 4
unfolding usage_algorithm
usage_algorithm-IsWord u h = ground (arith, h)

module _ (l : Sm2Lib)
    (pads : (n : l.Number) (k : ℕ) (b : Bytes) → l.bn2binpad n k ≡ some b → IsBytes b) where
  sm2_generate-IsPubKey :
      (env : l.Env) {key : Ecc.PubKey} {prv : l.EcKey}
      → Sm2.generate l sm2_256 env ≡ ok (key, prv)
      → Ecc.IsPubKey key
  unfolding Sm2.generate
  sm2_generate-IsPubKey env {key} {prv} h = >>=_gives (group_nid sm2_256) _ h λ nid _ h₁.
      >>=_gives (fail_if (not (l.key_allocated env)) (of_kind invalid_data)) _ h₁ λ _ _ h₂.
        >>=_gives (ok_or (l.set_group nid) (of_kind invalid_data)) _ h₂ λ empty _ h₃.
          >>=_gives (ok_or (l.generate_key empty env) (of_kind invalid_data)) _ h₃ λ made _ h₄.
            >>=_gives (ok_or (l.get_affine_coordinates made) (of_kind invalid_data)) _ h₄ λ at _ h₅.
              >>=_gives (ok_or (l.bn2binpad at.0 32) (of_kind invalid_data)) _ h₅ λ qx pad_x h₆.
                >>=_gives (ok_or (l.bn2binpad at.1 32) (of_kind invalid_data)) _ h₆ λ qy pad_y done.
                  subst (λ (p : Ecc.PubKey × l.EcKey). Ecc.IsPubKey p.0) (ok_injective done)
                    (
                      omega arith,
                      (
                        resize-IsArray (reverse qx) 72
                            (reverse-IsBytes qx (pads _ _ _ (ok_or-eq-ok _ _ pad_x))),
                        resize-IsArray (reverse qy) 72
                            (reverse-IsBytes qy (pads _ _ _ (ok_or-eq-ok _ _ pad_y))),
                      ),
                    )

  -- What is generated for a user id that fits its field is a certificate of the Rust type.
  pub generate-IsCertificate :
      (u : Usage) (uid : Bytes) (env : l.Env) {crt : Certificate} {prv : PrivateKey l.EcKey}
      → u < 256 ^ 4
      → length uid < 2 ^ 16
      → IsBytes uid
      → generate l u (some uid) env ≡ ok (crt, prv)
      → IsCertificate crt
  unfolding chosen_uid
  generate-IsCertificate u uid env {crt} {prv} word short bytes h =
      >>=_gives (generate_key l u none env) _
        (sym (generate-generate_key l u (some uid) env uid refl short) ∙ h)
        λ k issues done.
          let issued = generate_key-Issued l u none env issues in
          subst (λ (p : Certificate × PrivateKey l.EcKey). IsCertificate p.0) (ok_injective done)
            (certificate_of-IsCertificate uid k.0 short bytes (
              rw issued.public_usage word,
              (usage_algorithm-IsWord u issued.algorithm, sm2_generate-IsPubKey env issued.pair),
            ))
