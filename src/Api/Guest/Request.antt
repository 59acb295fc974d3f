-- ===== src/Api/Guest/Request.antt =====
-- src/api/guest/types.rs: what a guest hands to the secure processor with a request for a report.
use csv_rs.Base.{
  ◌==◌, Bytes, ◌++◌, length, replicate, Option, some, none, Outcome, ok, panicked, ◌>>=◌,
  if◌then◌else◌, ◌≡◌, refl, ap, ◌∙◌, subst, ok_injective, >>=_gives, Bool-cases, inl, inr,
}
use csv_rs.Error.{Error}

-- SM3 and HMAC over SM3, of the bytes put in one after the other; a step that fails is an error.
pub record HashLib : Type 0 where
  pub sm3 : Bytes → Outcome Error Bytes
  pub hmac : Bytes → Bytes → Outcome Error Bytes

pub record ReportReq : Type 0 where
  pub guest_data : Bytes
  pub mnonce : Bytes
  pub hash : Bytes

-- `copy_from_slice`, which panics on another length.
unfoldable pub copy_from_slice : Bytes → Bytes → Outcome Error Bytes
copy_from_slice dst src = if length src == length dst then ok src else panicked

module _ (h : HashLib) where
  -- `ReportReq::calculate_hash`: the request afterwards.
  unfoldable pub calculate_hash : ReportReq → Outcome Error ReportReq
  calculate_hash r = do
    digest ← h.sm3 (r.guest_data ++ r.mnonce)
    hash ← copy_from_slice r.hash digest
    ok (record r { hash = hash })

  -- `ReportReq::new`
  unfoldable pub new : Option Bytes → Bytes → Outcome Error ReportReq
  unfolding calculate_hash
  new given mnonce = do
    let chosen : Bytes = elim given [ none ↦ replicate 64 0 | some d ↦ d ]
    calculate_hash (record { guest_data = chosen; mnonce = mnonce; hash = replicate 32 0 })

-- The data given, or zeros.
abbrev pub data_or_zeros : Option Bytes → Bytes
data_or_zeros none = replicate 64 0
data_or_zeros (some d) = d

-- Copying that does not panic copies all.
copy_from_slice-eq-ok :
    (dst src : Bytes) {copied : Bytes} → copy_from_slice dst src ≡ ok copied → src ≡ copied
unfolding copy_from_slice
copy_from_slice-eq-ok dst src copies = elim (Bool-cases (length src == length dst)) [
  | inl fits ↦ ok_injective (rw fits at copies)
  | inr other ↦ cc (rw other at copies)
]

module _ (h : HashLib) where
  -- A request for some data and a nonce, with the digest of both.
  abbrev pub Requests : Bytes → Bytes → ReportReq → Type 0
  Requests d mnonce r = (r.guest_data ≡ d) × (r.mnonce ≡ mnonce) × (h.sm3 (d ++ mnonce) ≡ ok r.hash)

  calculate_hash-Requests :
      (d mnonce : Bytes) {r : ReportReq}
      → calculate_hash h (record { guest_data = d; mnonce = mnonce; hash = replicate 32 0 }) ≡ ok r
      → Requests d mnonce r
  unfolding calculate_hash
  calculate_hash-Requests d mnonce e = >>=_gives (h.sm3 (d ++ mnonce)) _ e λ digest digests e₁.
      >>=_gives (copy_from_slice (replicate 32 0) digest) _ e₁ λ hash copies done.
        subst (Requests d mnonce) (ok_injective done)
          (refl, refl, digests ∙ ap Outcome.ok (copy_from_slice-eq-ok _ digest copies))

  pub new-Requests :
      (given : Option Bytes) (mnonce : Bytes) {r : ReportReq}
      → new h given mnonce ≡ ok r
      → Requests (data_or_zeros given) mnonce r
  unfolding new
  new-Requests none mnonce e = calculate_hash-Requests (replicate 64 0) mnonce e
  new-Requests (some d) mnonce e = calculate_hash-Requests d mnonce e
