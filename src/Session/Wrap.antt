-- ===== src/Session/Wrap.antt =====
-- src/session/mod.rs: what the wrapped transport keys are.
use csv_rs.Base.{
  ℕ, ◌+◌, ◌∷◌, ◌==◌, ==_iff, take-append-drop, Outcome, Bool, ◌≤◌, ◌≡◌, refl, sym, ap, ◌∙◌, arith,
  Bytes, [], ◌++◌, length, take, drop, replicate, ok, append-nil, take-append, drop-append,
  length-append, length-take, drop-replicate, length-replicate,
}
use csv_rs.Util.{slice_to_within}
use csv_rs.Util.BigNum.{write_from, write_from_fits}
use csv_rs.Crypto.Encrypt.{xor_bytes, xor_bytes_twice}
use csv_rs.Crypto.Kdf.{Sm3Lib, Sm3Laws}
use csv_rs.Session.Key.{Key, derive, prefix, room}
use csv_rs.Session.Derive.{derive-eq-rounds}
use csv_rs.Session.Symm.{SymmLib, SymmLaws, Ciphered}
use csv_rs.Session.Channel.{splice, wrap_keys}

-- What is written behind a front of known length replaces as much of what stood there.
splice_behind :
    (front back written : Bytes)
    → length written ≤ length back
    → splice (front ++ back) (length front) written
      ≡ ok (front ++ (written ++ drop (length written) back))
unfolding splice
splice_behind front back written h = rw (
  drop-append (length front) front back refl,
  write_from_fits back written h,
  take-append (length front) front back refl,
)

-- The rest of an array of zeros is filled up exactly.
splice_end :
    (front written : Bytes) (n : ℕ)
    → length written ≡ n
    → splice (front ++ replicate n 0) (length front) written ≡ ok (front ++ written)
unfolding replicate
splice_end front written n h =
    splice_behind front (replicate n 0) written (omega (arith, h, length-replicate {A = ℕ} n 0))
    ∙ ap (λ t. Outcome.ok (front ++ (written ++ t)))
        (drop-replicate {A = ℕ} 0 (length written) n
          ∙ ap (λ (k : ℕ). replicate k 0) {y = 0} (omega (arith, h)))
    ∙ ap (λ t. Outcome.ok (front ++ t)) (append-nil written)

splice_nothing : (wrap : Bytes) (n : ℕ) → splice wrap n [] ≡ ok wrap
unfolding splice write_from
splice_nothing wrap n = ap Outcome.ok (take-append-drop n wrap)

-- Two keys of 16 bytes, masked under the first half of a key of 32: unmasked with the same stream
-- they are the two again.
pub record Wrapped (y : SymmLib) (laws : SymmLaws y) (kek iv tek tik wrap : Bytes) : Type 0 where
  pub size : length wrap ≡ 32
  pub unwrap : xor_bytes (laws.stream (take 16 kek) iv 32) wrap ≡ tek ++ tik

-- Filling in the two parts that a crypter gives.
wrap_keys-Ciphered :
    (y : SymmLib) (kek iv tek tik stream : Bytes)
    → Ciphered y (take 16 kek) iv tek tik stream
    → length kek ≡ 32
    → length tek ≡ 16
    → length tik ≡ 16
    → (wrap : Bytes) × (wrap_keys y kek iv tek tik ≡ ok wrap)
      × (length wrap ≡ 32)
      × (wrap ≡ xor_bytes stream (tek ++ tik))
unfolding wrap_keys
wrap_keys-Ciphered y kek iv tek tik stream c size_kek size_tek size_tik =
    let size1 : length c.c1 ≡ 16 = c.size1 ∙ size_tek in
    let size2 : length c.c2 ≡ 16 = c.size2 ∙ size_tik in
    let first : splice (replicate 32 0) 0 c.c1 ≡ ok (c.c1 ++ replicate 16 0) =
      splice_behind [] (replicate 32 0) c.c1 (omega (arith, size1, length-replicate {A = ℕ} 32 0))
      ∙ rw (size1, drop-replicate {A = ℕ} 0) refl in
    let all : Bool.true ≡ (length c.c1 + length c.c2 + 0 == 32) =
      sym ((==_iff (length c.c1 + length c.c2 + 0) 32).1 (omega (arith, size1, size2))) in
    (
      c.c1 ++ c.c2,
      rw (
        slice_to_within 16 kek (omega (arith, size_kek)),
        c.starts,
        c.first,
        first,
        c.second,
        splice_end c.c1 c.c2 16 size2,
        c.ends,
        splice_nothing (c.c1 ++ c.c2) (length c.c1 + length c.c2),
        ← all,
      ),
      omega (arith, length-append c.c1 c.c2, size1, size2),
      c.masked,
    )

module _ (y : SymmLib) (laws : SymmLaws y) where
  pub wrap_keys-Wrapped :
      (kek iv tek tik : Bytes)
      → length kek ≡ 32
      → length iv ≡ 16
      → length tek ≡ 16
      → length tik ≡ 16
      → (wrap : Bytes) × (wrap_keys y kek iv tek tik ≡ ok wrap) × Wrapped y laws kek iv tek tik wrap
  wrap_keys-Wrapped kek iv tek tik size_kek size_iv size_tek size_tik =
      let n = length tek + length tik in
      let (wrap, made, size, masked) =
        wrap_keys-Ciphered y kek iv tek tik (laws.stream (take 16 kek) iv n)
          (laws.crypter-stream (take 16 kek) iv tek tik
            (omega (arith, length-take 16 kek, size_kek)) size_iv)
          size_kek size_tek size_tik in
      let back : xor_bytes (laws.stream (take 16 kek) iv n) wrap ≡ tek ++ tik =
        ap (xor_bytes (laws.stream (take 16 kek) iv n)) masked
        ∙ xor_bytes_twice (laws.stream (take 16 kek) iv n) (tek ++ tik)
            (omega (arith, laws.length-stream (take 16 kek) iv n, length-append tek tik)) in
      (
        wrap,
        made,
        record {
          size = size;
          unwrap =
              ap (λ (k : ℕ). xor_bytes (laws.stream (take 16 kek) iv k) wrap) {x = 32} {y = n}
                (omega (arith, size_tek, size_tik))
              ∙ back;
        },
      )

module _ (m : Sm3Lib) (hash : Sm3Laws m) where
  -- A key of 32 bytes from short keys, contexts and labels.
  pub derive_short :
      (key : Key) (ctx label : Bytes)
      → length key ≤ 100
      → length ctx ≤ 100
      → length label ≤ 100
      → (k : Key) × (derive m key 32 ctx label ≡ ok k) × (length k ≡ 32)
  unfolding prefix room
  derive_short key ctx label short_key short_ctx short_label =
      let made = derive-eq-rounds m hash key 32 ctx label (
        omega (
          arith,
          length-append ((key ++ label) ++ (0 ∷ [])) ctx,
          length-append (key ++ label) (0 ∷ []),
          length-append key label,
        )) in
      (_, made.0, made.1)
