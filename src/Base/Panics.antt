-- ===== src/Base/Panics.antt =====
-- What a call of Rust code comes to: a value, a panic, or a loop that does not end.
use mathlib.Core.Path.{◌≡◌, refl}
use mathlib.Core.Bool.{Bool, true, false}
use mathlib.Core.Option.{Option, none, some}

pub data Outcome {ℓ} (A : Type ℓ) : Type ℓ where
  ok : A → Outcome A
  panic : Outcome A
  diverges : Outcome A

infixl 5 ◌>>=◌ ◌>>◌
abbrev pub ◌>>=◌ {ℓ κ} : {A : Type ℓ} {B : Type κ} → Outcome A → (A → Outcome B) → Outcome B
ok a >>= f = f a
panic >>= f = panic
diverges >>= f = diverges

abbrev pub ◌>>◌ {ℓ} : {B : Type ℓ} → Outcome (Unit {0}) → Outcome B → Outcome B
m >> k = m >>= λ _. k

-- `unwrap`, `expect`
abbrev pub unwrap {ℓ} : {A : Type ℓ} → Option A → Outcome A
unwrap none = panic
unwrap (some a) = ok a

-- `assert!`, `assert_eq!`
abbrev pub assert : Bool → Outcome (Unit {0})
assert true = ok tt
assert false = panic

-- The call returns, and its result satisfies the predicate.
abbrev pub Returns {ℓ} : {A : Type ℓ} → (A → Type 0) → Outcome A → Type 0
Returns P (ok a) = P a
Returns P panic = ⊥
Returns P diverges = ⊥

pub Returns-eq {ℓ} :
    {A : Type ℓ} (P : A → Type 0) (m : Outcome A) → Returns P m → (a : A) × (m ≡ ok a) × P a
Returns-eq P (ok a) h = (a, refl, h)
Returns-eq P panic h = absurd h
Returns-eq P diverges h = absurd h

pub Returns-map {ℓ} :
    {A : Type ℓ} (P Q : A → Type 0) (m : Outcome A)
    → ((a : A) → P a → Q a)
    → Returns P m
    → Returns Q m
Returns-map P Q (ok a) f h = f a h
Returns-map P Q panic f h = absurd h
Returns-map P Q diverges f h = absurd h

pub Returns-bind {ℓ κ} :
    {A : Type ℓ} {B : Type κ} (P : A → Type 0) (Q : B → Type 0) (m : Outcome A) (f : A → Outcome B)
    → Returns P m
    → ((a : A) → P a → Returns Q (f a))
    → Returns Q (m >>= f)
Returns-bind P Q (ok a) f h k = k a h
Returns-bind P Q panic f h k = absurd h
Returns-bind P Q diverges f h k = absurd h

-- The value is there.
abbrev pub HasValue : {A : Type 0} → Option A → Type 0
HasValue {A} o = (a : A) × (o ≡ some a)

-- What is there can be unwrapped.
pub Returns-unwrap {ℓ} :
    {A : Type 0} {B : Type ℓ} (Q : B → Type 0) (o : Option A) (f : A → Outcome B)
    → HasValue o
    → ((a : A) → o ≡ some a → Returns Q (f a))
    → Returns Q (unwrap o >>= f)
Returns-unwrap Q none f (a, e) k = cc
Returns-unwrap Q (some b) f h k = k b refl

-- Of the result, if the call returns.
abbrev pub Whenever {ℓ} : {A : Type ℓ} → (A → Type 0) → Outcome A → Type 0
Whenever P (ok a) = P a
Whenever P panic = Unit
Whenever P diverges = Unit

pub Whenever-map {ℓ} :
    {A : Type ℓ} (P Q : A → Type 0) (m : Outcome A)
    → ((a : A) → P a → Q a)
    → Whenever P m
    → Whenever Q m
Whenever-map P Q (ok a) f h = f a h
Whenever-map P Q panic f h = tt
Whenever-map P Q diverges f h = tt

pub Whenever-bind {ℓ κ} :
    {A : Type ℓ} {B : Type κ} (P : A → Type 0) (Q : B → Type 0) (m : Outcome A) (f : A → Outcome B)
    → Whenever P m
    → ((a : A) → P a → Whenever Q (f a))
    → Whenever Q (m >>= f)
Whenever-bind P Q (ok a) f h k = k a h
Whenever-bind P Q panic f h k = tt
Whenever-bind P Q diverges f h k = tt

-- Of the first call nothing needs to be known.
pub Whenever-after {ℓ κ} :
    {A : Type ℓ} {B : Type κ} (Q : B → Type 0) (m : Outcome A) (f : A → Outcome B)
    → ((a : A) → Whenever Q (f a))
    → Whenever Q (m >>= f)
Whenever-after Q (ok a) f k = k a
Whenever-after Q panic f k = tt
Whenever-after Q diverges f k = tt

-- Nothing needs to be known of what is not there.
pub Whenever-unwrap {ℓ} :
    {A : Type 0} {B : Type ℓ} (Q : B → Type 0) (o : Option A) (f : A → Outcome B)
    → ((a : A) → o ≡ some a → Whenever Q (f a))
    → Whenever Q (unwrap o >>= f)
Whenever-unwrap Q none f k = tt
Whenever-unwrap Q (some a) f k = k a refl

pub Returns-Always {ℓ} : {A : Type ℓ} (P : A → Type 0) (m : Outcome A) → Returns P m → Whenever P m
Returns-Always P (ok a) h = h
Returns-Always P panic h = absurd h
Returns-Always P diverges h = absurd h

pub Returns-Whenever {ℓ} :
    {A : Type ℓ} (P Q : A → Type 0) (m : Outcome A)
    → Returns P m
    → Whenever Q m
    → Returns (λ a. P a × Q a) m
Returns-Whenever P Q (ok a) h k = (h, k)
Returns-Whenever P Q panic h k = absurd h
Returns-Whenever P Q diverges h k = absurd h

-- The call does not run forever, and its result, if it does not panic, satisfies the predicate.
abbrev pub Ends {ℓ} : {A : Type ℓ} → (A → Type 0) → Outcome A → Type 0
Ends P (ok a) = P a
Ends P panic = Unit
Ends P diverges = ⊥

pub Ends-map {ℓ} :
    {A : Type ℓ} (P Q : A → Type 0) (m : Outcome A) → ((a : A) → P a → Q a) → Ends P m → Ends Q m
Ends-map P Q (ok a) f h = f a h
Ends-map P Q panic f h = tt
Ends-map P Q diverges f h = absurd h

pub Ends-bind {ℓ κ} :
    {A : Type ℓ} {B : Type κ} (P : A → Type 0) (Q : B → Type 0) (m : Outcome A) (f : A → Outcome B)
    → Ends P m
    → ((a : A) → P a → Ends Q (f a))
    → Ends Q (m >>= f)
Ends-bind P Q (ok a) f h k = k a h
Ends-bind P Q panic f h k = tt
Ends-bind P Q diverges f h k = absurd h

-- Unwrapping ends, and so does whatever ends afterwards.
pub Ends-unwrap {ℓ} :
    {A : Type 0} {B : Type ℓ} (Q : B → Type 0) (o : Option A) (f : A → Outcome B)
    → ((a : A) → Ends Q (f a))
    → Ends Q (unwrap o >>= f)
Ends-unwrap Q none f k = tt
Ends-unwrap Q (some a) f k = k a

pub Returns-Ends {ℓ} : {A : Type ℓ} (P : A → Type 0) (m : Outcome A) → Returns P m → Ends P m
Returns-Ends P (ok a) h = h
Returns-Ends P panic h = absurd h
Returns-Ends P diverges h = absurd h

pub Returns-both {ℓ} :
    {A : Type ℓ} (P Q : A → Type 0) (m : Outcome A)
    → Returns P m
    → Ends Q m
    → Returns (λ a. P a × Q a) m
Returns-both P Q (ok a) h k = (h, k)
Returns-both P Q panic h k = absurd h
Returns-both P Q diverges h k = absurd h
