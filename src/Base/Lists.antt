-- ===== src/Base/Lists.antt =====
-- Byte strings: lists measured and cut by native numbers, as the source's slices are.
use Prim.Native.Nat.{ℕ, zero, suc, ◌+◌, ◌-◌, ◌≤◌, min}
use mathlib.Core.Path.{◌≡◌, refl, ap, ◌∙◌}
use mathlib.Core.List.{List, [], ◌∷◌, ◌++◌, reverse, reverse_aux, append-nil}
use native.Mathlib.Omega.{arith}

abbrev pub Bytes : Type 0
Bytes = List ℕ

module _ {ℓ} {A : Type ℓ} where
  abbrev pub length : List A → ℕ
  length [] = 0
  length (x ∷ xs) = suc (length xs)

  abbrev pub take : ℕ → List A → List A
  take zero xs = []
  take (suc n) [] = []
  take (suc n) (x ∷ xs) = x ∷ take n xs

  abbrev pub drop : ℕ → List A → List A
  drop zero xs = xs
  drop (suc n) [] = []
  drop (suc n) (x ∷ xs) = drop n xs

  unfoldable pub replicate : ℕ → A → List A
  replicate zero a = []
  replicate (suc n) a = a ∷ replicate n a

  -- `Vec::resize`: cut to the new length, or fill up with the value.
  abbrev pub resize : List A → ℕ → A → List A
  resize [] n a = replicate n a
  resize (x ∷ xs) zero a = []
  resize (x ∷ xs) (suc n) a = x ∷ resize xs n a

  -- Every element satisfies `P`.
  abbrev pub All {κ} : (A → Type κ) → List A → Type κ
  All P [] = Unit
  All P (x ∷ xs) = P x × All P xs

module _ {ℓ} {A : Type ℓ} where
  pub length-append : (xs ys : List A) → length (xs ++ ys) ≡ length xs + length ys
  length-append [] ys = omega arith
  length-append (x ∷ xs) ys = omega (arith, length-append xs ys)

  pub take-append-drop : (n : ℕ) (xs : List A) → take n xs ++ drop n xs ≡ xs
  take-append-drop zero xs = refl
  take-append-drop (suc n) [] = refl
  take-append-drop (suc n) (x ∷ xs) = ap (λ t. x ∷ t) (take-append-drop n xs)

  pub length-take : (n : ℕ) (xs : List A) → length (take n xs) ≡ min n (length xs)
  length-take zero xs = omega arith
  length-take (suc n) [] = omega arith
  length-take (suc n) (x ∷ xs) = omega (arith, length-take n xs)

  pub length-drop : (n : ℕ) (xs : List A) → length (drop n xs) ≡ length xs - n
  length-drop zero xs = omega arith
  length-drop (suc n) [] = omega arith
  length-drop (suc n) (x ∷ xs) = omega (arith, length-drop n xs)

  pub length-replicate : (n : ℕ) (a : A) → length (replicate n a) ≡ n
  unfolding replicate
  length-replicate zero a = refl
  length-replicate (suc n) a = ap suc (length-replicate n a)

  -- A prefix of known length comes off in one piece.
  pub take-append : (n : ℕ) (xs ys : List A) → length xs ≡ n → take n (xs ++ ys) ≡ xs
  take-append zero [] ys e = refl
  take-append zero (x ∷ xs) ys e = absurd (omega arith)
  take-append (suc n) [] ys e = absurd (omega arith)
  take-append (suc n) (x ∷ xs) ys e = ap (λ t. x ∷ t) (take-append n xs ys (omega arith))

  pub drop-append : (n : ℕ) (xs ys : List A) → length xs ≡ n → drop n (xs ++ ys) ≡ ys
  drop-append zero [] ys e = refl
  drop-append zero (x ∷ xs) ys e = absurd (omega arith)
  drop-append (suc n) [] ys e = absurd (omega arith)
  drop-append (suc n) (x ∷ xs) ys e = drop-append n xs ys (omega arith)

  -- Taking from two lists in a row.
  pub take_across :
      (n : ℕ) (xs ys : List A) → length xs ≤ n → take n (xs ++ ys) ≡ xs ++ take (n - length xs) ys
  take_across n [] ys h = ap (λ (m : ℕ). take m ys) {x = n} (omega arith)
  take_across zero (x ∷ xs) ys h = absurd (omega arith)
  take_across (suc n) (x ∷ xs) ys h =
      ap (λ t. x ∷ t)
        (take_across n xs ys (omega arith) ∙ ap (λ (m : ℕ). xs ++ take m ys) (omega arith))

  pub take_within : (n : ℕ) (xs ys : List A) → n ≤ length xs → take n (xs ++ ys) ≡ take n xs
  take_within zero xs ys h = refl
  take_within (suc n) [] ys h = absurd (omega arith)
  take_within (suc n) (x ∷ xs) ys h = ap (λ t. x ∷ t) (take_within n xs ys (omega arith))

  pub take_all : (xs : List A) → take (length xs) xs ≡ xs
  take_all [] = refl
  take_all (x ∷ xs) = ap (λ t. x ∷ t) (take_all xs)

  pub length-resize : (xs : List A) (n : ℕ) (a : A) → length (resize xs n a) ≡ n
  length-resize [] n a = length-replicate n a
  length-resize (x ∷ xs) zero a = refl
  length-resize (x ∷ xs) (suc n) a = ap suc (length-resize xs n a)

  -- Filling up keeps the old contents in front.
  pub resize_fill :
      (xs : List A) (n : ℕ) (a : A)
      → length xs ≤ n
      → resize xs n a ≡ xs ++ replicate (n - length xs) a
  resize_fill [] n a h = ap (λ (k : ℕ). replicate k a) (omega arith)
  resize_fill (x ∷ xs) zero a h = absurd (omega arith)
  resize_fill (x ∷ xs) (suc n) a h =
      ap (λ t. x ∷ t)
        (resize_fill xs n a (omega arith) ∙ ap (λ (k : ℕ). xs ++ replicate k a) (omega arith))

  length-reverse_aux : (xs ys : List A) → length (reverse_aux xs ys) ≡ length xs + length ys
  length-reverse_aux [] ys = omega arith
  length-reverse_aux (x ∷ xs) ys = omega (arith, length-reverse_aux xs (x ∷ ys))

  pub length-reverse : (xs : List A) → length (reverse xs) ≡ length xs
  length-reverse xs = omega (arith, length-reverse_aux xs [])

  pub All-append {κ} : (P : A → Type κ) (xs ys : List A) → All P xs → All P ys → All P (xs ++ ys)
  All-append P [] ys hx hy = hy
  All-append P (x ∷ xs) ys hx hy = (hx.0, All-append P xs ys hx.1 hy)

  pub All-take {κ} : (P : A → Type κ) (n : ℕ) (xs : List A) → All P xs → All P (take n xs)
  All-take P zero xs h = tt
  All-take P (suc n) [] h = tt
  All-take P (suc n) (x ∷ xs) h = (h.0, All-take P n xs h.1)

  pub All-drop {κ} : (P : A → Type κ) (n : ℕ) (xs : List A) → All P xs → All P (drop n xs)
  All-drop P zero xs h = h
  All-drop P (suc n) [] h = tt
  All-drop P (suc n) (x ∷ xs) h = All-drop P n xs h.1

  pub All-replicate {κ} : (P : A → Type κ) (n : ℕ) (a : A) → P a → All P (replicate n a)
  unfolding replicate
  All-replicate P zero a h = tt
  All-replicate P (suc n) a h = (h, All-replicate P n a h)

module _ {ℓ} {A : Type ℓ} (a : A) where
  pub drop-replicate : (k n : ℕ) → drop k (replicate n a) ≡ replicate (n - k) a
  unfolding replicate
  drop-replicate zero zero = refl
  drop-replicate zero (suc n) = ap (λ (m : ℕ). replicate m a) {x = suc n} (omega arith)
  drop-replicate (suc k) zero = ap (λ (m : ℕ). replicate m a) {x = 0} (omega arith)
  drop-replicate (suc k) (suc n) = drop-replicate k n ∙ ap (λ (m : ℕ). replicate m a) (omega arith)

  pub take-replicate : (k n : ℕ) → k ≤ n → take k (replicate n a) ≡ replicate k a
  unfolding replicate
  take-replicate zero n h = refl
  take-replicate (suc k) zero h = absurd (omega arith)
  take-replicate (suc k) (suc n) h = ap (λ t. a ∷ t) (take-replicate k n (omega arith))

  pub replicate-append : (k n : ℕ) → replicate k a ++ replicate n a ≡ replicate (k + n) a
  unfolding replicate
  replicate-append zero n = ap (λ (m : ℕ). replicate m a) {x = n} (omega arith)
  replicate-append (suc k) n =
      ap (λ t. a ∷ t) (replicate-append k n)
      ∙ ap (λ (m : ℕ). replicate m a) {x = suc (k + n)} (omega arith)

  replicate_shift : (n : ℕ) (ys : List A) → replicate n a ++ (a ∷ ys) ≡ a ∷ (replicate n a ++ ys)
  unfolding replicate
  replicate_shift zero ys = refl
  replicate_shift (suc n) ys = ap (λ t. a ∷ t) (replicate_shift n ys)

  reverse_aux-replicate :
      (n : ℕ) (ys : List A) → reverse_aux (replicate n a) ys ≡ replicate n a ++ ys
  unfolding replicate
  reverse_aux-replicate zero ys = refl
  reverse_aux-replicate (suc n) ys = reverse_aux-replicate n (a ∷ ys) ∙ replicate_shift n ys

  pub reverse-replicate : (n : ℕ) → reverse (replicate n a) ≡ replicate n a
  reverse-replicate n = reverse_aux-replicate n [] ∙ append-nil (replicate n a)
