-- ===== src/Util/BigNum.antt =====
-- `FromLe` and `AsLeBytes`: big numbers as fixed arrays of bytes, lowest first.
use mathlib.Core.List.{reverse, reverse-append, reverse-reverse}
use csv_rs.Base.{
  subst, IsBytes, ap, sym, ok_injective, >>=-eq-ok, ℕ, ◌-◌, ◌≤◌, ◌≡◌, refl, ◌∙◌, arith, [], ◌∷◌,
  ◌++◌, Bytes, length,
}
use csv_rs.Base.{
  drop, replicate, drop-replicate, reverse-replicate, length-replicate, length-reverse, Outcome, ok,
  panicked, ◌>>=◌,
}
use csv_rs.Error.{IoError}
use csv_rs.OpenSsl.{BigNums, BigNumLaws}

-- `for (i, b) in source.enumerate() { buf[i] = b; }`, from the place where `buf` stands.
unfoldable pub write_from : Bytes → Bytes → Outcome IoError Bytes
write_from buf [] = ok buf
write_from [] (b ∷ source) = panicked
write_from (x ∷ buf) (b ∷ source) = do rest ← write_from buf source; ok (b ∷ rest)

pub write_from_fits :
    (buf source : Bytes)
    → length source ≤ length buf
    → write_from buf source ≡ ok (source ++ drop (length source) buf)
unfolding write_from
write_from_fits [] [] h = refl
write_from_fits (x ∷ buf) [] h = refl
write_from_fits [] (b ∷ source) h = absurd (omega arith)
write_from_fits (x ∷ buf) (b ∷ source) h = rw (write_from_fits buf source (omega arith))

-- Writing keeps the length of the buffer.
pub length-write_from :
    (buf source b : Bytes) → write_from buf source ≡ ok b → length b ≡ length buf
unfolding write_from
length-write_from buf [] b h = ap length (sym (ok_injective h))
length-write_from [] (c ∷ source) b h = cc
length-write_from (x ∷ buf) (c ∷ source) b h =
    let (rest, written, done) = >>=-eq-ok (write_from buf source) _ h in
    let size : length rest ≡ length buf = length-write_from buf source rest written in
    let same : length (c ∷ rest) ≡ length b = ap length (ok_injective done) in
    omega (arith, size, same)

-- Bytes written over bytes are bytes.
pub write_from-IsBytes :
    (buf source b : Bytes) → IsBytes buf → IsBytes source → write_from buf source ≡ ok b → IsBytes b
unfolding write_from
write_from-IsBytes buf [] b hb hs h = subst IsBytes (ok_injective h) hb
write_from-IsBytes [] (c ∷ source) b hb hs h = cc
write_from-IsBytes (x ∷ buf) (c ∷ source) b hb hs h =
    let (rest, written, done) = >>=-eq-ok (write_from buf source) _ h in
    subst IsBytes (ok_injective done) (hs.0, write_from-IsBytes buf source rest hb.1 hs.1 written)

module _ (o : BigNums) where
  -- `BigNum::from_le`
  unfoldable pub from_le : Bytes → Outcome IoError o.BigNum
  from_le value = o.from_slice (reverse value)

  -- `as_le_bytes`, into an array of `n` bytes: a longer number is an index out of range.
  unfoldable pub as_le_bytes : ℕ → o.BigNum → Outcome IoError Bytes
  unfolding write_from
  as_le_bytes n b = write_from (replicate n 0) (reverse (o.to_vec b))

  -- A number that fits is its bytes, lowest first, and zeros behind them.
  pub as_le_bytes_fits :
      (n : ℕ) (b : o.BigNum)
      → length (o.to_vec b) ≤ n
      → as_le_bytes n b ≡ ok (reverse (o.to_vec b) ++ replicate (n - length (o.to_vec b)) 0)
  unfolding as_le_bytes
  as_le_bytes_fits n b h =
      write_from_fits (replicate n 0) (reverse (o.to_vec b))
        (omega (arith, length-reverse (o.to_vec b), length-replicate {A = ℕ} n 0))
      ∙ rw (length-reverse, drop-replicate {A = ℕ} 0)

module _ (o : BigNums) (laws : BigNumLaws o) where
  -- What `as_le_bytes` wrote, `from_le` reads back.
  pub from_le-as_le_bytes :
      (n : ℕ) (b : o.BigNum) → length (o.to_vec b) ≤ n → (as_le_bytes o n b >>= from_le o) ≡ ok b
  unfolding from_le
  from_le-as_le_bytes n b h =
      let zeros : Bytes = replicate (n - length (o.to_vec b)) 0 in
      let turned : reverse (reverse (o.to_vec b) ++ zeros) ≡ zeros ++ o.to_vec b = rw (
        reverse-append (reverse (o.to_vec b)) zeros,
        reverse-replicate {A = ℕ} 0,
        reverse-reverse,
      ) in
      rw (as_le_bytes_fits o n b h)
        (ap o.from_slice turned ∙ laws.from_slice_padded (n - length (o.to_vec b)) b)
