-- ===== src/Util.antt =====
-- src/util/mod.rs: values read from and written to byte streams by their memory layout, and the
-- byte order of OpenSSL's big numbers. The host is little-endian, as every HYGON CPU is.
pub mod Memory
pub mod BigNum
pub mod Heap
pub mod CachedChain
pub mod CacheOrder
use csv_rs.Base.{
  IsBytes, IsByte, IsArray, Bool-cases, inl, inr, sym, subst, ap, ap₂, ok_injective, >>=-eq-ok, ◌∙◌,
  take-append-drop, length-take, All-take, All-drop, leb→le, ℕ, ◌+◌, ◌≤◌, ◌<◌, ◌≡◌, Bytes, ◌++◌,
  length, take, drop, leb, ltb, if◌then◌else◌,
}
use csv_rs.Base.{Outcome, ok, err, panicked, ◌>>=◌, arith, length-append, take-append, drop-append}
use csv_rs.Base.{le→leb}
use csv_rs.Error.{IoError, of_kind, unexpected_eof}
use csv_rs.Util.Memory.{Layout, IsFaithful}

-- A reader is the bytes that are still to come. `read_exact` takes `n` of them or fails.
unfoldable pub read_exact : ℕ → Bytes → Outcome IoError (Bytes × Bytes)
read_exact n reader =
    if leb n (length reader)
    then ok (take n reader, drop n reader)
    else err (of_kind unexpected_eof)

pub read_exact_prefix :
    (n : ℕ) (s rest : Bytes) → length s ≡ n → read_exact n (s ++ rest) ≡ ok (s, rest)
unfolding read_exact
read_exact_prefix n s rest h = rw (
  le→leb n (length (s ++ rest)) (omega (arith, length-append s rest)),
  take-append n s rest h,
  drop-append n s rest h,
)

pub read_exact_short :
    (n : ℕ) (s : Bytes) → length s < n → read_exact n s ≡ err (of_kind unexpected_eof)
unfolding read_exact
read_exact_short n s h = ground arith

module _ {T : Type 0} (L : Layout T) where
  -- `TypeLoad::load`
  unfoldable pub load : Bytes → Outcome IoError (T × Bytes)
  unfolding read_exact
  load reader = do (s, rest) ← read_exact L.size reader; ok (L.of_bytes s, rest)

  -- `TypeSave::save` at the end of a vector, which never fails.
  unfoldable pub save : T → Bytes → Outcome IoError Bytes
  save value writer = ok (writer ++ L.to_bytes value)

  -- Loading reads back what was saved and leaves what follows.
  pub load-to_bytes :
      {Fits : T → Type 0}
      → IsFaithful L Fits
      → (v : T) (rest : Bytes) → Fits v
      → load (L.to_bytes v ++ rest) ≡ ok (v, rest)
  unfolding load
  load-to_bytes F v rest h =
      rw (read_exact_prefix L.size _ rest (F.to_bytes-IsArray v h).size, F.of_bytes-to_bytes v h)

  pub load_short :
      (reader : Bytes) → length reader < L.size → load reader ≡ err (of_kind unexpected_eof)
  unfolding load
  load_short reader h = rw (read_exact_short L.size reader h)

-- What was read stood in front of what is left.
pub read_exact_inverse :
    (n : ℕ) (reader s rest : Bytes)
    → IsBytes reader
    → read_exact n reader ≡ ok (s, rest)
    → (reader ≡ s ++ rest) × IsArray n s × IsBytes rest
unfolding read_exact
read_exact_inverse n reader s rest h e = elim (Bool-cases (leb n (length reader))) [
  | inl enough ↦
      let same : Path (Bytes × Bytes) (take n reader, drop n reader) (s, rest) =
        ok_injective (rw enough at e) in
      let split : (take n reader ≡ s) × (drop n reader ≡ rest) =
        (ap (λ (p : Bytes × Bytes). p.0) same, ap (λ (p : Bytes × Bytes). p.1) same) in
      (
        sym (take-append-drop n reader) ∙ ap₂ ◌++◌ split.0 split.1,
        subst (IsArray n) split.0 (record {
          size = omega (arith, length-take n reader, leb→le n (length reader) enough);
          bytes = All-take IsByte n reader h;
        }),
        subst IsBytes split.1 (All-drop IsByte n reader h),
      )
  | inr short ↦ absurd (ground (arith, e, short))
]

module _ {T : Type 0} {L : Layout T} {Fits : T → Type 0} (F : IsFaithful L Fits) where
  pub load_inverse :
      (reader : Bytes) {v : T} {rest : Bytes}
      → IsBytes reader
      → load L reader ≡ ok (v, rest)
      → (reader ≡ L.to_bytes v ++ rest) × Fits v × IsBytes rest
  unfolding load
  load_inverse reader {v} {rest} h e =
      let (p, read, made) = >>=-eq-ok (read_exact L.size reader) _ e in
      let (split, fits, bytes) = read_exact_inverse L.size reader p.0 p.1 h read in
      let same : Path (T × Bytes) (L.of_bytes p.0, p.1) (v, rest) = ok_injective made in
      let value : L.of_bytes p.0 ≡ v = ap (λ (q : T × Bytes). q.0) same in
      let left : p.1 ≡ rest = ap (λ (q : T × Bytes). q.1) same in
      (
        split ∙ ap₂ ◌++◌ (sym (F.to_bytes-of_bytes p.0 fits) ∙ ap L.to_bytes value) left,
        subst Fits value (F.of_bytes-Fits p.0 fits),
        subst IsBytes left bytes,
      )

-- `&v[..n]`
unfoldable pub slice_to : ℕ → Bytes → Outcome IoError Bytes
slice_to n v = if leb n (length v) then ok (take n v) else panicked

pub slice_to_within : (n : ℕ) (v : Bytes) → n ≤ length v → slice_to n v ≡ ok (take n v)
unfolding slice_to
slice_to_within n v h = ground arith

pub slice_to_beyond : (n : ℕ) (v : Bytes) → length v < n → slice_to n v ≡ panicked
unfolding slice_to
slice_to_beyond n v h = ground arith

-- A slice that does not panic is in range.
pub slice_to-eq-ok : (n : ℕ) (v : Bytes) {s : Bytes} → slice_to n v ≡ ok s → n ≤ length v
unfolding slice_to
slice_to-eq-ok n v h = ground (arith, h)
