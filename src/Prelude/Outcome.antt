-- ===== src/Prelude/Outcome.antt =====
-- What a call ends with: a value, an error value, or a panic.
use mathlib.Core.Path.{◌≡◌, refl, sym}
use mathlib.Core.Bool.{Bool, true, false}
use mathlib.Core.Option.{Option, none, some}
use Prim.Native.Nat.{ℕ, ◌+◌, ◌-◌, ◌*◌}
use fiddlers_db.Prelude.Tests.{ltb, leb, if◌then◌else◌}

pub data Outcome {ℓ κ} (E : Type κ) (A : Type ℓ) : Type (ℓ ⊔ κ) where
  ok : A → Outcome E A
  err : E → Outcome E A
  panic : Outcome E A

infixl 5 ◌>>=◌ ◌>>◌
abbrev pub ◌>>=◌ {ℓ κ μ} :
    {E : Type μ} {A : Type ℓ} {B : Type κ} → Outcome E A → (A → Outcome E B) → Outcome E B
ok a >>= f = f a
err e >>= f = err e
panic >>= f = panic

abbrev pub ◌>>◌ {κ μ} : {E : Type μ} {B : Type κ} → Outcome E (Unit {0}) → Outcome E B → Outcome E B
m >> k = m >>= λ _. k

module _ {ℓ κ} {E : Type κ} {A : Type ℓ} where
  -- An access that panics where there is no element.
  abbrev pub or_panic : Option A → Outcome E A
  or_panic none = panic
  or_panic (some a) = ok a

  -- `ok_or(e)?`
  abbrev pub ok_or : E → Option A → Outcome E A
  ok_or e none = err e
  ok_or e (some a) = ok a

-- `map_err`
abbrev pub map_err {ℓ κ μ} :
    {E : Type κ} {F : Type μ} {A : Type ℓ} → (E → F) → Outcome E A → Outcome F A
map_err f (ok a) = ok a
map_err f (err e) = err (f e)
map_err f panic = panic

-- An early `return Err(e)` under a test.
abbrev pub ensure {κ} : {E : Type κ} → Bool → E → Outcome E (Unit {0})
ensure true e = ok tt
ensure false e = err e

-- `assert!` and the explicit panics.
abbrev pub assert {κ} : {E : Type κ} → Bool → Outcome E (Unit {0})
assert true = ok tt
assert false = panic

-- A chain that succeeds: its first call did, and so did what follows.
pub >>=-eq-ok {ℓ κ μ} :
    {E : Type μ} {A : Type ℓ} {B : Type κ} (call : Outcome E A) (next : A → Outcome E B)
    {result : B}
    → (call >>= next) ≡ ok result
    → (value : A) × (call ≡ ok value) × (next value ≡ ok result)
>>=-eq-ok panic next run = cc
>>=-eq-ok (err e) next run = cc
>>=-eq-ok (ok value) next run = (value, refl, run)

pub or_panic-eq-ok {ℓ κ} :
    {E : Type κ} {A : Type ℓ} (o : Option A) {a : A} → or_panic {E = E} o ≡ ok a → o ≡ some a
or_panic-eq-ok none h = cc
or_panic-eq-ok (some b) h = cc

pub ok_or-eq-ok {ℓ κ} :
    {E : Type κ} {A : Type ℓ} (e : E) (o : Option A) {a : A} → ok_or e o ≡ ok a → o ≡ some a
ok_or-eq-ok e none h = cc
ok_or-eq-ok e (some b) h = cc

pub ensure-eq-ok {κ} : {E : Type κ} (b : Bool) (e : E) {u : Unit {0}} → ensure b e ≡ ok u → b ≡ true
ensure-eq-ok true e h = refl
ensure-eq-ok false e h = cc

pub map_err-eq-ok {ℓ κ μ} :
    {E : Type κ} {F : Type μ} {A : Type ℓ} (f : E → F) (o : Outcome E A) {a : A}
    → map_err f o ≡ ok a
    → o ≡ ok a
map_err-eq-ok f (ok b) h = cc
map_err-eq-ok f (err e) h = cc
map_err-eq-ok f panic h = cc

-- `a - b` on an unsigned type, with overflow checks.
abbrev pub checked_sub {κ} : {E : Type κ} → ℕ → ℕ → Outcome E ℕ
checked_sub a b = if leb b a then ok (a - b) else panic

-- `a + b` on an unsigned type of `bound` values, with overflow checks.
abbrev pub checked_add {κ} : {E : Type κ} → ℕ → ℕ → ℕ → Outcome E ℕ
checked_add bound a b = if ltb (a + b) bound then ok (a + b) else panic

-- `a * b` on an unsigned type of `bound` values, with overflow checks.
abbrev pub checked_mul {κ} : {E : Type κ} → ℕ → ℕ → ℕ → Outcome E ℕ
checked_mul bound a b = if ltb (a * b) bound then ok (a * b) else panic

pub >>=_ext {ℓ κ μ} :
    {E : Type μ} {A : Type ℓ} {B : Type κ} (m : Outcome E A) {f g : A → Outcome E B}
    → ((a : A) → f a ≡ g a)
    → (m >>= f) ≡ (m >>= g)
>>=_ext (ok a) h = h a
>>=_ext (err e) h = refl
>>=_ext panic h = refl

-- The continuations agree on the value of the call, if it has one.
pub >>=_ext_of {ℓ κ μ} :
    {E : Type μ} {A : Type ℓ} {B : Type κ} (m : Outcome E A) {f g : A → Outcome E B}
    → ((a : A) → m ≡ ok a → f a ≡ g a)
    → (m >>= f) ≡ (m >>= g)
>>=_ext_of (ok a) h = h a refl
>>=_ext_of (err e) h = refl
>>=_ext_of panic h = refl

pub ok_inj {ℓ κ} : {E : Type κ} {A : Type ℓ} {a b : A} → ◌≡◌ {A = Outcome E A} (ok a) (ok b) → a ≡ b
ok_inj h = cc

-- What holds of the value of a call, if it has one.
pub record Ensures {ℓ κ μ} {E : Type κ} {A : Type ℓ} (P : A → Type μ) (m : Outcome E A)
    : Type (ℓ ⊔ κ ⊔ μ) where
  pub holds : (a : A) → m ≡ ok a → P a

module _ {ℓ κ μ ν} {E : Type κ} {A : Type ℓ} {B : Type μ} {P : B → Type ν} where
  pub Ensures->>= :
      (m : Outcome E A) {f : A → Outcome E B} → ((a : A) → Ensures P (f a)) → Ensures P (m >>= f)
  Ensures->>= m {f} h = record {
    holds = λ b e. let (a, run, rest) = >>=-eq-ok m f e in (h a).holds b rest;
  }

  pub Ensures->>=_of {ρ} :
      {Q : A → Type ρ} (m : Outcome E A) {f : A → Outcome E B}
      → Ensures Q m
      → ((a : A) → Q a → Ensures P (f a))
      → Ensures P (m >>= f)
  Ensures->>=_of m {f} q h = record {
    holds = λ b e. let (a, run, rest) = >>=-eq-ok m f e in (h a (q.holds a run)).holds b rest;
  }

module _ {ℓ κ ν} {E : Type κ} {A : Type ℓ} {P : A → Type ν} where
  pub Ensures-ok : (a : A) → P a → Ensures {E = E} P (ok a)
  Ensures-ok a h = record { holds = λ b e. rw (ok_inj (sym e)) h }

  pub Ensures-if :
      (b : Bool) {m n : Outcome E A} → Ensures P m → Ensures P n → Ensures P (if b then m else n)
  Ensures-if true h k = h
  Ensures-if false h k = k

  pub Ensures-map_err {μ} :
      {F : Type μ} (g : E → F) (m : Outcome E A) → Ensures P m → Ensures P (map_err g m)
  Ensures-map_err g m h = record { holds = λ a e. h.holds a (map_err-eq-ok g m e) }

-- The call itself, as what holds of its value.
pub Ensures-self {ℓ κ} : {E : Type κ} {A : Type ℓ} (m : Outcome E A) → Ensures (λ a. m ≡ ok a) m
Ensures-self m = record { holds = λ a e. e }
