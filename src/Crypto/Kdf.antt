-- ===== src/Crypto/Kdf.antt =====
-- src/crypto/sm.rs: the X9.63 key derivation over SM3.
use mathlib.Core.List.{reverse}
use csv_rs.Base.{
  ℕ, zero, suc, ◌+◌, ◌-◌, ◌*◌, ◌/◌, ◌^◌, ◌≤◌, ◌<◌, ◌≡◌, refl, sym, ap, ◌∙◌, arith, Bytes, [], ◌++◌,
  length, take, not, ◌||◌, leb, ltb, ◌==◌, true, false, if◌then◌else◌, Option, some, Bool, Outcome,
  panicked, ok, err, ok_or, take_across, take_within, append-nil, length-append, length-take, inl,
  inr, ◌⊎◌, Bool-cases, leb→le, ◌*◌, ==_iff, fail_if, ◌>>=◌, ◌>>◌,
}
use csv_rs.Error.{IoError, of_kind, invalid_data}
use csv_rs.Util.Memory.{le_bytes}

-- SM3 of OpenSSL: whether a context is to be had, and the digest of what was put in, unless one of the
-- steps fails.
pub record Sm3Lib : Type 0 where
  pub context : Bool
  pub digest : Bytes → Option Bytes

-- A digest has 32 bytes (`EVP_MD_size`), and no step fails.
pub record Sm3Laws (m : Sm3Lib) : Type 0 where
  pub has_context : m.context ≡ true
  pub total : Bytes → Bytes
  pub digest-total : (s : Bytes) → m.digest s ≡ some (total s)
  pub length-total : (s : Bytes) → length (total s) ≡ 32

-- `ECDH_KDF_MAX`
abbrev pub ecdh_kdf_max : ℕ
ecdh_kdf_max = 2 ^ 30

-- `u32::to_be_bytes`
abbrev pub to_be_bytes : ℕ → Bytes
to_be_bytes n = reverse (le_bytes 4 n)

module _ (m : Sm3Lib) where
  -- `while outlen > 0`, from a counter on: what it writes into the rest of the buffer.
  unfoldable pub kdf_loop : ℕ → Bytes → ℕ → ℕ → Outcome IoError Bytes
  kdf_loop zero input outlen counter = panicked
  kdf_loop (suc fuel) input outlen counter = do
    let rest = kdf_loop fuel input (outlen - 32) (counter + 1)
    let block = ok_or (m.digest (input ++ to_be_bytes counter)) (of_kind invalid_data)
    let whole = do b ← block; if outlen - 32 == 0 then ok b else (do bs ← rest; ok (b ++ bs))
    let part = do b ← block; ok (take outlen b)
    if outlen == 0 then ok [] else if leb 32 outlen then whole else part

  -- `SM2::ecdh_kdf_x9_63`, into a buffer of `outlen` bytes.
  unfoldable pub ecdh_kdf_x9_63 : ℕ → Bytes → Outcome IoError Bytes
  ecdh_kdf_x9_63 outlen input = do
    fail_if (ltb ecdh_kdf_max outlen || ltb ecdh_kdf_max (length input)) (of_kind invalid_data)
    fail_if (not m.context) (of_kind invalid_data)
    kdf_loop (outlen / 32 + 1) input outlen 1

module _ (m : Sm3Lib) (laws : Sm3Laws m) where
  -- The digests of the input with the counters from `counter` on, one behind the other.
  pub blocks : ℕ → Bytes → ℕ → Bytes
  blocks zero input counter = []
  blocks (suc n) input counter =
      laws.total (input ++ to_be_bytes counter) ++ blocks n input (counter + 1)

  length-blocks : (n : ℕ) (input : Bytes) (counter : ℕ) → length (blocks n input counter) ≡ 32 * n
  unfolding blocks
  length-blocks zero input counter = refl
  length-blocks (suc n) input counter = omega (
    arith,
    length-append (laws.total (input ++ to_be_bytes counter)) (blocks n input (counter + 1)),
    laws.length-total (input ++ to_be_bytes counter),
    length-blocks n input (counter + 1),
  )

  -- One digest and the rest.
  next :
      (b rest : Bytes) (n : ℕ)
      → length b ≡ 32
      → 32 ≤ n
      → Path
          (Outcome IoError Bytes)
          (if n - 32 == 0 then ok b else (Outcome.ok (take (n - 32) rest) >>= λ bs. ok (b ++ bs)))
          (ok (take n (b ++ rest)))
  next b rest n size enough =
      let split : take n (b ++ rest) ≡ b ++ take (n - 32) rest =
        take_across n b rest (omega (arith, size, enough))
        ∙ ap (λ (k : ℕ). b ++ take (n - k) rest) size in
      elim (Bool-cases (n - 32 == 0)) [
        | inl last ↦
            let none_left : take (n - 32) rest ≡ [] =
              ap (λ (k : ℕ). take k rest) {y = 0} ((==_iff _ _).0 last) in
            rw (last, split, none_left) (ap Outcome.ok (sym (append-nil b)))
        | inr more ↦ rw (more, split) refl
      ]

  leb-eq-false : (n : ℕ) → leb 32 n ≡ false → n < 32
  leb-eq-false n h = ground (arith, h)

  -- Where the fuel is more than a thirty-second of what is asked for, the loop ends and has written
  -- the first bytes of the digests.
  kdf_loop-eq-blocks :
      (fuel : ℕ) (input : Bytes) (n counter : ℕ)
      → n < 32 * fuel
      → kdf_loop m fuel input n counter ≡ ok (take n (blocks fuel input counter))
  unfolding kdf_loop blocks
  kdf_loop-eq-blocks zero input n counter h = absurd (omega arith)
  kdf_loop-eq-blocks (suc fuel) input n counter h =
      let b = laws.total (input ++ to_be_bytes counter) in
      let rest = blocks fuel input (counter + 1) in
      let size : length b ≡ 32 = laws.length-total _ in
      elim (Bool-cases (n == 0)) [
        | inl none_left ↦ rw (none_left) (
            ap (λ (k : ℕ). Outcome.ok (take k (b ++ rest))) {x = 0}
              (sym ((==_iff n 0).0 none_left)))
        | inr some_left ↦ elim (Bool-cases (leb 32 n)) [
          | inl whole ↦
              let enough = leb→le 32 n whole in
              rw
                (
                  some_left,
                  whole,
                  laws.digest-total (input ++ to_be_bytes counter),
                  kdf_loop-eq-blocks fuel input (n - 32) (counter + 1) (omega (arith, h, enough)),
                )
                (next b rest n size enough)
          | inr part ↦
              let few : n ≤ length b = omega (arith, size, leb-eq-false n part) in
              rw (some_left, part, laws.digest-total (input ++ to_be_bytes counter))
                (ap Outcome.ok (sym (take_within n b rest few)))
        ]
      ]

  -- Within the limits, the derivation ends and gives the first `outlen` bytes of the digests of the
  -- input with the counters 1, 2, 3 and so on; beyond them it is an error.
  pub ecdh_kdf_x9_63-eq-blocks :
      (outlen : ℕ) (input : Bytes)
      → (outlen ≤ ecdh_kdf_max
          → length input ≤ ecdh_kdf_max
          → (ecdh_kdf_x9_63 m outlen input ≡ ok (take outlen (blocks (outlen / 32 + 1) input 1)))
            × (length (take outlen (blocks (outlen / 32 + 1) input 1)) ≡ outlen))
        × ((ecdh_kdf_max < outlen) ⊎ (ecdh_kdf_max < length input)
            → ecdh_kdf_x9_63 m outlen input ≡ err (of_kind invalid_data))
  unfolding ecdh_kdf_x9_63
  ecdh_kdf_x9_63-eq-blocks outlen input = (
    λ short_out short_in. (
      ground (
        arith,
        kdf_loop-eq-blocks (outlen / 32 + 1) input outlen 1 (omega arith),
        laws.has_context,
      ),
      omega (
        arith,
        length-take outlen (blocks (outlen / 32 + 1) input 1),
        length-blocks (outlen / 32 + 1) input 1,
      ),
    ),
    λ beyond. ground (arith, beyond),
  )
