-- ===== src/Tests/Symm.antt =====
-- A cipher that masks every byte with one byte, and a MAC that adds up.
use csv_rs.Base.{subst, IsByte, IsBytes, IsArray, All-replicate, ok_injective}
use csv_rs.Base.{
  ℕ, suc, ◌+◌, ◌%◌, ◌≡◌, refl, ap, ◌∙◌, arith, Bytes, [], ◌∷◌, ◌++◌, length, replicate, ok,
  length-replicate, bit_xor,
}
use csv_rs.Crypto.Encrypt.{xor_bytes, length-xor_bytes}
use csv_rs.Session.Symm.{SymmLib, SymmLaws}
use csv_rs.Session.Octets.{OctetLaws, xor_bytes-IsBytes}
use csv_rs.Tests.Toy.{
  total, sum_hash, curve, points, sums, some_injective, pad-IsBytes, low_bytes-IsBytes,
  sum_hash-IsBytes,
}

abbrev mask : Bytes → Bytes → ℕ
mask key iv = total (key ++ iv) % 256

-- The number of a draw is its random byte, and a crypter is the sum of its key and its nonce.
abbrev pub symm : SymmLib
symm = record {
  rand_bytes = λ draw n. ok (replicate n (draw % 256));
  hmac = λ key msg. ok (sum_hash (key ++ msg));
  Crypter = ℕ;
  crypter = λ key iv. ok (total (key ++ iv));
  update = λ k a. ok (xor_bytes (replicate (length a) (k % 256)) a, k);
  finalize = λ k. ok [];
  encrypt = λ key iv plain. ok (xor_bytes (replicate (length plain) (mask key iv)) plain);
  Hasher = Bytes;
  hasher = ok [];
  hash_update = λ s a. ok (s ++ a);
  hash_finish = λ s. ok (sum_hash s);
}

masked_length : (k : ℕ) (a : Bytes) → length (xor_bytes (replicate (length a) k) a) ≡ length a
masked_length k a =
    length-xor_bytes (replicate (length a) k) a (length-replicate {A = ℕ} (length a) k)

masked_append :
    (k : ℕ) (a b : Bytes)
    → xor_bytes (replicate (length a) k) a ++ xor_bytes (replicate (length b) k) b
      ≡ xor_bytes (replicate (length a + length b) k) (a ++ b)
unfolding xor_bytes replicate
masked_append k [] b = ap (λ (n : ℕ). xor_bytes (replicate n k) b) {x = length b} (omega arith)
masked_append k (x ∷ a) b =
    ap (λ t. bit_xor k x ∷ t) (masked_append k a b)
    ∙ ap (λ (n : ℕ). xor_bytes (replicate n k) (x ∷ (a ++ b))) {x = suc (length a + length b)}
        (omega arith)

pub symm-laws : SymmLaws symm
symm-laws = record {
  mac = λ key msg. sum_hash (key ++ msg);
  hmac-mac = λ key msg. refl;
  length-mac = λ key msg. length-replicate {A = ℕ} 32 (total (key ++ msg) % 256);
  stream = λ key iv n. replicate n (mask key iv);
  length-stream = λ key iv n. length-replicate {A = ℕ} n (mask key iv);
  encrypt-stream = λ key iv plain size_key size_iv. refl;
  crypter-stream = λ key iv a b size_key size_iv. record {
    start = total (key ++ iv);
    between = total (key ++ iv);
    after = total (key ++ iv);
    c1 = xor_bytes (replicate (length a) (mask key iv)) a;
    c2 = xor_bytes (replicate (length b) (mask key iv)) b;
    starts = refl;
    first = refl;
    second = refl;
    ends = refl;
    size1 = masked_length (mask key iv) a;
    size2 = masked_length (mask key iv) b;
    masked = masked_append (mask key iv) a b;
  };
}

pub octets : OctetLaws curve points sums symm
octets = record {
  bn2binpad = pad-IsBytes;
  bn2bin = low_bytes-IsBytes;
  digest = λ s h. subst IsBytes (some_injective h) (sum_hash-IsBytes s);
  rand_bytes = λ draw n h. subst (IsArray n) (ok_injective h) (record {
    size = length-replicate {A = ℕ} n (draw % 256);
    bytes = All-replicate IsByte n (draw % 256) (omega arith);
  });
  hmac = λ key msg h. subst IsBytes (ok_injective h) (sum_hash-IsBytes (key ++ msg));
  update = λ (k : ℕ) a {b} fits h. subst IsBytes (ap (λ (q : Bytes × ℕ). q.0) (ok_injective h)) (
      xor_bytes-IsBytes (replicate (length a) (k % 256)) a
        (All-replicate IsByte (length a) (k % 256) (omega arith)) fits);
  finalize = λ k h. subst IsBytes (ok_injective h) tt;
}
