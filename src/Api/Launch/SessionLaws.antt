-- ===== src/Api/Launch/SessionLaws.antt =====
-- src/api/launch/mod.rs: a signature put into a session and taken out, and the start packet as bytes.
use mathlib.Core.List.{reverse}
use csv_rs.Base.{
  ◌+◌, ap₂, ◌-◌, length-append, length-reverse, append_assoc, take_across, take-replicate,
  replicate-append, ◌≤◌, [], ◌↔◌, IsBytes, ok_injective, ℕ, ◌≡◌, refl, ap, ◌∙◌, arith, Bytes, ◌++◌,
  length, take, replicate, Outcome, ok, ◌>>=◌, append-nil, length-take, length-replicate,
  drop-replicate,
}
use csv_rs.Util.{save, load-to_bytes, load_inverse}
use csv_rs.Util.BigNum.{write_from, write_from_fits}
use csv_rs.Crypto.Ecdsa
use csv_rs.Crypto.Signing.{raw_of}
use csv_rs.OpenSsl.{BigNums}
use csv_rs.Api.Launch.Session.{
  Start, start, start-IsFaithful, IsStart, decode, encode, of_signature, to_signature,
}

-- The number cut to 32 bytes fills the array.
write_low : (b : Bytes) → length b ≡ 72 → write_from (replicate 32 0) (take 32 b) ≡ ok (take 32 b)
unfolding replicate
write_low b h =
    let size : length (take 32 b) ≡ 32 = omega (arith, length-take 32 b, h) in
    write_from_fits (replicate 32 0) (take 32 b)
      (omega (arith, size, length-replicate {A = ℕ} 32 0))
    ∙ rw (drop-replicate {A = ℕ} 0, size) (ap Outcome.ok (append-nil (take 32 b)))

write_padded :
    (b : Bytes) → length b ≡ 32 → write_from (replicate 72 0) b ≡ ok (b ++ replicate 40 0)
write_padded b size =
    write_from_fits (replicate 72 0) b (omega (arith, size, length-replicate {A = ℕ} 72 0))
    ∙ rw (drop-replicate {A = ℕ} 0, size) refl

-- The signature with the bytes from the thirty-third on cleared.
abbrev low : Ecdsa.Signature → Ecdsa.Signature
low g = record { r = take 32 g.r ++ replicate 40 0; s = take 32 g.s ++ replicate 40 0 }

-- A raw signature, of two numbers of 72 bytes, put into a session and taken out again keeps the 32 lowest bytes of its two numbers
-- and has zeros in the place of the 40 others.
to_signature-of_signature :
    (g : Ecdsa.Signature)
    → length g.r ≡ 72
    → length g.s ≡ 72
    → (of_signature g >>= to_signature) ≡ ok (low g)
unfolding of_signature to_signature
to_signature-of_signature g r s = rw (
  write_low g.r r,
  write_low g.s s,
  write_padded (take 32 g.r) (omega (arith, length-take 32 g.r, r)),
  write_padded (take 32 g.s) (omega (arith, length-take 32 g.s, s)),
)

-- A number of at most 32 bytes loses nothing.
low_short :
    (xs : Bytes) (k : ℕ)
    → length xs ≡ k
    → k ≤ 32
    → take 32 (xs ++ replicate (72 - k) 0) ++ replicate 40 0 ≡ xs ++ replicate (72 - k) 0
low_short xs k size h =
    let rest = replicate {A = ℕ} (72 - k) 0 in
    let cut : take 32 (xs ++ rest) ≡ xs ++ replicate (32 - k) 0 =
      take_across 32 xs rest (omega (arith, size, h))
      ∙ ap (λ (n : ℕ). xs ++ take (32 - n) rest) size
      ∙ ap (λ t. xs ++ t) (take-replicate {A = ℕ} 0 (32 - k) (72 - k) (omega arith)) in
    rw (cut, append_assoc xs (replicate (32 - k) 0) (replicate 40 0), replicate-append {A = ℕ} 0)
      (ap (λ (n : ℕ). xs ++ replicate n 0) {x = 32 - k + 40} {y = 72 - k} (omega (arith, h)))

padded_size : (b : Bytes) → length b ≤ 32 → length (reverse b ++ replicate (72 - length b) 0) ≡ 72
padded_size b h = omega (
  arith,
  length-append (reverse b) (replicate (72 - length b) 0),
  length-reverse b,
  length-replicate {A = ℕ} (72 - length b) 0,
)

pub raw_of-kept :
    (o : BigNums) (g : o.EcdsaSig)
    → length (o.to_vec (o.r g)) ≤ 32
    → length (o.to_vec (o.s g)) ≤ 32
    → (of_signature (raw_of o g) >>= to_signature) ≡ ok (raw_of o g)
raw_of-kept o g r s =
    let a = o.to_vec (o.r g) in
    let b = o.to_vec (o.s g) in
    to_signature-of_signature (raw_of o g) (padded_size a r) (padded_size b s)
    ∙ ap₂ (λ x y. Outcome.ok (record { r = x; s = y }))
        (low_short (reverse a) (length a) (length-reverse a) r)
        (low_short (reverse b) (length b) (length-reverse b) s)

-- From bytes, `decode` reads a start packet exactly if what `encode` writes of it stands in front, and
-- leaves exactly what follows.
pub decode-iff-encode :
    (reader : Bytes) (s : Start) (rest : Bytes)
    → IsBytes reader
    → (decode reader ≡ ok (s, rest))
      ↔ ((written : Bytes) × (encode s [] ≡ ok written) × (reader ≡ written ++ rest) × IsStart s)
unfolding decode encode save
decode-iff-encode reader s rest h = (
  λ e.
      let (split, fits, after) = load_inverse start-IsFaithful reader h e in
      (start.to_bytes s, refl, split, fits),
  λ (written, made, split, fits).
      let same : start.to_bytes s ≡ written = ok_injective made in
      rw (split, ← same) (load-to_bytes start start-IsFaithful s rest fits),
)
