-- ===== src/Base/Fallible.antt =====
-- Fallible code. `ok` and `err` are Rust's `Result`; `panicked` is a panic: a slice out of
-- range, a failed `unwrap` or a failed assertion.
use mathlib.Core.Path.{◌≡◌, refl, ap}
use mathlib.Core.Bool.{Bool, true, false}
use mathlib.Core.Option.{Option, none, some}

pub data Outcome {ℓ κ} (E : Type κ) (A : Type ℓ) : Type (ℓ ⊔ κ) where
  ok : A → Outcome E A
  err : E → Outcome E A
  panicked : Outcome E A

infixl 5 ◌>>=◌ ◌>>◌
abbrev pub ◌>>=◌ {ℓ κ μ} :
    {E : Type μ} {A : Type ℓ} {B : Type κ} → Outcome E A → (A → Outcome E B) → Outcome E B
ok a >>= next = next a
err e >>= next = err e
panicked >>= next = panicked

abbrev pub ◌>>◌ {ℓ μ} : {E : Type μ} {B : Type ℓ} → Outcome E (Unit {0}) → Outcome E B → Outcome E B
first >> second = first >>= λ _. second

-- `if test { return Err(e) }`
abbrev pub fail_if {μ} : {E : Type μ} → Bool → E → Outcome E (Unit {0})
fail_if true e = err e
fail_if false e = ok tt

-- `Result::is_ok`, of a computation that may panic.
abbrev pub is_ok {ℓ μ} : {E : Type μ} {A : Type ℓ} → Outcome E A → Outcome E Bool
is_ok (ok a) = ok true
is_ok (err e) = ok false
is_ok panicked = panicked

-- `Result::map_err`
abbrev pub map_err {ℓ κ μ} :
    {D : Type μ} {E : Type κ} {A : Type ℓ} → (D → E) → Outcome D A → Outcome E A
map_err f (ok a) = ok a
map_err f (err e) = err (f e)
map_err f panicked = panicked

-- `Result::unwrap`, which panics on an error.
abbrev pub unwrap {ℓ κ μ} : {E : Type μ} {F : Type κ} {A : Type ℓ} → Outcome E A → Outcome F A
unwrap (ok a) = ok a
unwrap (err e) = panicked
unwrap panicked = panicked

-- `assert!`
abbrev pub assert {μ} : {E : Type μ} → Bool → Outcome E (Unit {0})
assert true = ok tt
assert false = panicked

-- `Option::ok_or`
abbrev pub ok_or {ℓ μ} : {E : Type μ} {A : Type ℓ} → Option A → E → Outcome E A
ok_or none e = err e
ok_or (some a) e = ok a

-- A slice, an index or an `unwrap` that panics when there is nothing.
abbrev pub expect {ℓ μ} : {E : Type μ} {A : Type ℓ} → Option A → Outcome E A
expect none = panicked
expect (some a) = ok a

module _ {ℓ κ μ} {E : Type μ} {A : Type ℓ} {B : Type κ} where
  -- A chain that succeeds did so in its first step, and from what that gave.
  pub >>=-eq-ok :
      (first : Outcome E A) (next : A → Outcome E B) {out : B}
      → (first >>= next) ≡ ok out
      → (mid : A) × (first ≡ ok mid) × (next mid ≡ ok out)
  >>=-eq-ok (ok mid) next done = (mid, refl, done)
  >>=-eq-ok (err e) next done = cc
  >>=-eq-ok panicked next done = cc

-- The same, for what follows from each of the two steps.
pub >>=_gives {ℓ κ μ ν} :
    {E : Type μ} {A : Type ℓ} {B : Type κ} {R : Type ν} (first : Outcome E A)
    (next : A → Outcome E B) {out : B}
    → (first >>= next) ≡ ok out
    → ((mid : A) → first ≡ ok mid → next mid ≡ ok out → R)
    → R
>>=_gives first next done follows =
    let (mid, started, went_on) = >>=-eq-ok first next done in follows mid started went_on

pub >>=_assoc {ℓ κ μ ν} :
    {E : Type μ} {A : Type ℓ} {B : Type κ} {C : Type ν} (m : Outcome E A) (f : A → Outcome E B)
    (g : B → Outcome E C)
    → ((m >>= f) >>= g) ≡ (m >>= λ a. f a >>= g)
>>=_assoc (ok a) f g = refl
>>=_assoc (err e) f g = refl
>>=_assoc panicked f g = refl

-- A guard that lets through has a test that fails.
pub fail_if-eq-ok {ℓ μ} :
    {E : Type μ} {B : Type ℓ} (test : Bool) (e : E) (k : Outcome E B) {b : B}
    → (fail_if test e >> k) ≡ ok b
    → (test ≡ false) × (k ≡ ok b)
fail_if-eq-ok true e k h = cc
fail_if-eq-ok false e k h = (refl, h)

abbrev value_or {ℓ μ} : {E : Type μ} {A : Type ℓ} → A → Outcome E A → A
value_or d (ok a) = a
value_or d (err e) = d
value_or d panicked = d

pub ok_injective {ℓ μ} :
    {E : Type μ} {A : Type ℓ} {a b : A} → Path (Outcome E A) (ok a) (ok b) → a ≡ b
ok_injective {a} h = ap (value_or a) h

-- What is unwrapped was there.
pub unwrap-eq-ok {ℓ κ μ} :
    {E : Type μ} {F : Type κ} {A : Type ℓ} (m : Outcome E A) {a : A}
    → Path (Outcome F A) (unwrap m) (ok a)
    → m ≡ ok a
unwrap-eq-ok (ok b) h = ap Outcome.ok (ok_injective h)
unwrap-eq-ok (err e) h = cc
unwrap-eq-ok panicked h = cc

-- A chain behind an `unwrap` that succeeds.
pub unwrap_bind-eq-ok {ℓ κ μ ν} :
    {E : Type μ} {F : Type ν} {A : Type ℓ} {B : Type κ} (first : Outcome E A)
    (next : A → Outcome F B) {out : B}
    → (unwrap first >>= next) ≡ ok out
    → (mid : A) × (first ≡ ok mid) × (next mid ≡ ok out)
unwrap_bind-eq-ok (ok mid) next done = (mid, refl, done)
unwrap_bind-eq-ok (err e) next done = cc
unwrap_bind-eq-ok panicked next done = cc

-- The same behind an `Option` and behind an assertion.
pub expect_bind-eq-ok {ℓ κ μ} :
    {E : Type μ} {A : Type ℓ} {B : Type κ} (first : Option A) (next : A → Outcome E B) {out : B}
    → (expect first >>= next) ≡ ok out
    → (mid : A) × (first ≡ some mid) × (next mid ≡ ok out)
expect_bind-eq-ok (some mid) next done = (mid, refl, done)
expect_bind-eq-ok none next done = cc

pub assert_then-eq-ok {ℓ μ} :
    {E : Type μ} {B : Type ℓ} (test : Bool) (k : Outcome E B) {b : B}
    → (assert test >> k) ≡ ok b
    → (test ≡ true) × (k ≡ ok b)
assert_then-eq-ok true k h = (refl, h)
assert_then-eq-ok false k h = cc

pub assert-eq-ok {μ} :
    {E : Type μ} (test : Bool) → Path (Outcome E (Unit {0})) (assert test) (ok tt) → test ≡ true
assert-eq-ok true h = refl
assert-eq-ok false h = cc
