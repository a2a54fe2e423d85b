-- ===== src/Base/Results.antt =====
-- A Go function that returns `(value, error)`.
use mathlib.Core.Path.{◌≡◌, refl}
use mathlib.Core.Option.{Option, none, some}
use mathlib.Core.Logic.{◌⊎◌, inl, inr}
use mathlib.Core.Bool.{Bool, true, false}

pub data Result {ℓ} (E : Type 0) (A : Type ℓ) : Type ℓ where
  ok : A → Result E A
  err : E → Result E A

-- `if !test { return problem }`.
abbrev pub guard : {E : Type 0} → Bool → E → Result E (Unit {0})
guard test problem = elim test [ true ↦ ok tt | false ↦ err problem ]

pub ok-injective : {E A : Type 0} {a b : A} → ◌≡◌ {A = Result E A} (ok a) (ok b) → a ≡ b
ok-injective h = cc

pub guard-ok : {E : Type 0} (b : Bool) (e : E) {u : Unit {0}} → guard b e ≡ ok u → b ≡ true
guard-ok true e h = refl
guard-ok false e h = cc

-- The rest of a function runs on the value, or the error is returned at once.
infixl 5 ◌>>=◌
abbrev pub ◌>>=◌ {ℓ κ} :
    {E : Type 0} {A : Type ℓ} {B : Type κ} → Result E A → (A → Result E B) → Result E B
result >>= next = elim result [ ok value ↦ next value | err problem ↦ err problem ]

infixl 5 ◌>>◌
abbrev pub ◌>>◌ {ℓ} :
    {E : Type 0} {B : Type ℓ} (first : Result E (Unit {0})) (rest : Result E B) → Result E B
first >> rest = first >>= λ _. rest

-- A guarded step that succeeds has passed its test.
pub guard->>=-ok {ℓ} :
    {E : Type 0} {B : Type ℓ} (b : Bool) (e : E) (k : Result E B) {v : B}
    → (guard b e >> k) ≡ ok v
    → (b ≡ true) × (k ≡ ok v)
guard->>=-ok true e k h = (refl, h)
guard->>=-ok false e k h = cc

-- A step that succeeds has read a value, from which the rest succeeds.
pub >>=-eq-ok {ℓ κ} :
    {E : Type 0} {A : Type ℓ} {B : Type κ} (step : Result E A) (rest : A → Result E B) {last : B}
    → (step >>= rest) ≡ ok last
    → (value : A) × (step ≡ ok value) × (rest value ≡ ok last)
>>=-eq-ok (ok value) rest succeeds = (value, refl, succeeds)
>>=-eq-ok (err problem) rest succeeds = cc

pub Option-cases {ℓ} : {A : Type ℓ} (o : Option A) → (o ≡ none) ⊎ ((a : A) × (o ≡ some a))
Option-cases none = inl refl
Option-cases (some a) = inr (a, refl)

pub Result-cases {ℓ} :
    {E : Type 0} {A : Type ℓ} (r : Result E A) → ((a : A) × (r ≡ ok a)) ⊎ ((e : E) × (r ≡ err e))
Result-cases (ok a) = inl (a, refl)
Result-cases (err e) = inr (e, refl)
