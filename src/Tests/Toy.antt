-- ===== src/Tests/Toy.antt =====
-- Small stand-ins for OpenSSL that satisfy the laws: numbers in base one, signatures that are sums.
use csv_rs.Base.{all_bytes, all_bytes-IsBytes, IsBytes, subst}
use csv_rs.Base.{
  ℕ, zero, suc, ◌+◌, ◌*◌, ◌%◌, ◌≡◌, refl, ap, sym, ◌∙◌, arith, Bytes, [], ◌∷◌, ◌++◌, length,
  replicate, true, ◌==◌, ==_iff, bytes_eq, bytes_eq_refl, Option, some, none, Outcome, ok, err,
  IsByte, All-replicate, length-replicate, if◌then◌else◌, Bool-cases, inl, inr,
}
use native.Mathlib.Nat.{mul_comm}
use csv_rs.Error.{IoError, of_kind, invalid_data}
use csv_rs.OpenSsl.{BigNums, BigNumLaws, Sm2Lib, Sm2Laws, DerLaws}
use csv_rs.Crypto.Kdf.{Sm3Lib, Sm3Laws}
use csv_rs.Crypto.Points.{CurveLib, CurveLaws}

abbrev pub total : Bytes → ℕ
total [] = 0
total (b ∷ bs) = b + total bs

abbrev from_der : Bytes → Outcome IoError (ℕ × ℕ)
from_der (r ∷ s ∷ []) = ok (r, s)
from_der _ = err (of_kind invalid_data)

abbrev pub numbers : BigNums
numbers = record {
  BigNum = ℕ;
  from_slice = λ b. ok (total b);
  to_vec = λ n. replicate n 1;
  EcdsaSig = ℕ × ℕ;
  from_der = from_der;
  to_der = λ (r, s). ok (r ∷ s ∷ []);
  r = λ g. g.0;
  s = λ g. g.1;
  from_private_components = λ r s. ok (r, s);
}

total_ones : (n : ℕ) → total (replicate n 1) ≡ n
unfolding replicate
total_ones zero = refl
total_ones (suc n) = omega (arith, total_ones n)

total_padded : (k : ℕ) (bs : Bytes) → total (replicate k 0 ++ bs) ≡ total bs
unfolding replicate
total_padded zero bs = refl
total_padded (suc k) bs = omega (arith, total_padded k bs)

pub numbers-laws : BigNumLaws numbers
numbers-laws = record {
  to_vec-IsBytes = λ (n : ℕ). All-replicate IsByte n 1 (omega arith);
  from_slice_padded = λ (k n : ℕ). ap Outcome.ok (total_padded k (replicate n 1) ∙ total_ones n);
  from_private_components_parts = λ (r, s). refl;
}

abbrev pub sum_sign : Bytes × Bytes → Bytes → Bytes → Bytes
sum_sign (x, y) id msg = total msg % 32 ∷ (total id + total x + total y) % 32 ∷ []

abbrev pad : Bytes → ℕ → Option Bytes
pad b k = if length b == k then (if all_bytes b then some b else none) else none

abbrev pub curve : Sm2Lib
curve = record {
  Number = Bytes;
  EcKey = Bytes × Bytes;
  Pkey = Bytes × Bytes;
  Env = ℕ;
  pkey_allocated = λ _. true;
  key_allocated = λ _. true;
  bin2bn = λ b. b;
  bn2binpad = pad;
  ec_key_sm2 = ([], []);
  set_affine_coordinates = λ k x y. (x, y);
  set_group = λ _. some ([], []);
  generate_key = λ k e. some (replicate 32 e, replicate 32 7);
  get_affine_coordinates = λ k. some k;
  pkey_assign = λ k. some k;
  digest_sign_room = λ p msg. 2;
  digest_sign = λ p id msg e. sum_sign p id msg;
  digest_verify = λ p id msg sig. bytes_eq sig (sum_sign p id msg);
}

abbrev option_or {ℓ} : {A : Type ℓ} → A → Option A → A
option_or d none = d
option_or d (some a) = a

pub some_injective {ℓ} : {A : Type ℓ} {a b : A} → Path (Option A) (some a) (some b) → a ≡ b
some_injective {a} h = ap (option_or a) h

pad_lem :
    (n : Bytes) (k : ℕ) (b : Bytes)
    → pad n k ≡ some b
    → (length b ≡ k) × (n ≡ b) × (all_bytes b ≡ true)
pad_lem n k b h = elim (Bool-cases (length n == k)) [
  | inl same ↦ elim (Bool-cases (all_bytes n)) [
    | inl bytes ↦
        let kept : n ≡ b = some_injective (rw (same, bytes) at h) in
        (
          subst (λ (q : Bytes). length q ≡ k) kept ((==_iff (length n) k).0 same),
          kept,
          subst (λ (q : Bytes). all_bytes q ≡ true) kept bytes,
        )
    | inr beyond ↦ cc (rw (same, beyond) at h)
  ]
  | inr other ↦ cc (rw other at h)
]

pub curve-laws : Sm2Laws curve
curve-laws = record {
  bn2binpad-bin2bn =
      λ (n : Bytes) (k : ℕ) (b : Bytes) h. ((pad_lem n k b h).0, sym (pad_lem n k b h).1);
  digest_sign-fits = λ p id msg e. omega arith;
  digest_verify-digest_sign = λ k x y (p : Bytes × Bytes) id msg e at assigned.
      let same : Path (Bytes × Bytes) (x, y) p = some_injective (sym at ∙ assigned) in
      (p, ap some same, bytes_eq_refl (sum_sign p id msg));
}

pub curve-der : DerLaws curve numbers
curve-der = record {
  digest_sign-der = λ (p : Bytes × Bytes) id msg e.
      let r = total msg % 32 in
      let s = (total id + total p.0 + total p.1) % 32 in
      (
        (r, s),
        refl,
        refl,
        omega (arith, length-replicate {A = ℕ} r 1),
        omega (arith, length-replicate {A = ℕ} s 1),
      );
}

abbrev pub sum_hash : Bytes → Bytes
sum_hash b = replicate 32 (total b % 256)

abbrev pub sums : Sm3Lib
sums = record { context = true; digest = λ b. some (sum_hash b) }

pub sums-laws : Sm3Laws sums
sums-laws = record {
  has_context = refl;
  total = sum_hash;
  digest-total = λ b. refl;
  length-total = λ b. length-replicate {A = ℕ} 32 (total b % 256);
}

abbrev low_bytes : Bytes → Bytes
low_bytes [] = []
low_bytes (b ∷ bs) = b % 256 ∷ low_bytes bs

-- Points are numbers, and the coordinates of the point 1 have fewer bytes.
abbrev coordinates : ℕ → Bytes × Bytes
coordinates p =
    if p == 1 then (9 ∷ [], replicate 32 9) else (replicate 32 (p % 256), replicate 32 7)

-- The generator is 1, and a private scalar is as long a string as its sum is.
abbrev pub points : CurveLib curve
points = record {
  allocated = λ _. true;
  Point = ℕ;
  priv_rand_range = λ e. some (e ∷ []);
  public_point = λ k. some (total k.0);
  mul_generator = λ k. some (total k);
  mul = λ p k. elim p [ none ↦ none | some a ↦ some (a * total k) ];
  affine_coordinates = λ p. some (coordinates p);
  bn2bin = low_bytes;
}

low_bytes-replicate : (n a : ℕ) → low_bytes (replicate n (a % 256)) ≡ replicate n (a % 256)
unfolding replicate
low_bytes-replicate zero a = refl
low_bytes-replicate (suc n) a =
    ap (λ (b : ℕ). b ∷ low_bytes (replicate n (a % 256))) {y = a % 256} (omega arith)
    ∙ ap (λ t. a % 256 ∷ t) (low_bytes-replicate n a)

low_bytes-coordinates :
    (p : ℕ)
    → (low_bytes (coordinates p).0 ≡ (coordinates p).0)
      × (low_bytes (coordinates p).1 ≡ (coordinates p).1)
low_bytes-coordinates p = elim (Bool-cases (p == 1)) [
  | inl short ↦ (rw short refl, rw short (low_bytes-replicate 32 9))
  | inr full ↦ (rw full (low_bytes-replicate 32 p), rw full (low_bytes-replicate 32 7))
]

pub points-laws : CurveLaws curve points
points-laws = record {
  mul-mul_generator = λ d k p q private first.
      let same_p : total d ≡ p = some_injective private in
      let same_q : total k ≡ q = some_injective first in
      rw (← same_p, ← same_q) (ap (λ (n : ℕ). some n) (mul_comm (total d) (total k)));
  bin2bn-bn2bin = λ (p : ℕ) x y at.
      let same : Path (Bytes × Bytes) (coordinates p) (x, y) = some_injective at in
      subst (λ (q : Bytes × Bytes). (low_bytes q.0 ≡ q.0) × (low_bytes q.1 ≡ q.1)) same
        (low_bytes-coordinates p);
}

pub pad-IsBytes : (n : Bytes) (k : ℕ) (b : Bytes) → pad n k ≡ some b → IsBytes b
pad-IsBytes n k b h = all_bytes-IsBytes b (pad_lem n k b h).2

pub low_bytes-IsBytes : (b : Bytes) → IsBytes (low_bytes b)
low_bytes-IsBytes [] = tt
low_bytes-IsBytes (b ∷ bs) = (omega arith, low_bytes-IsBytes bs)

pub sum_hash-IsBytes : (b : Bytes) → IsBytes (sum_hash b)
sum_hash-IsBytes b = All-replicate IsByte 32 (total b % 256) (omega arith)
