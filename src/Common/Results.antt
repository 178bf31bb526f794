-- ===== src/Common/Results.antt =====
-- The result of a C routine that may report failure, and may read or write outside an object.
use mathlib.Core.Bool.{Bool, true, false}
use mathlib.Core.Path.{◌≡◌, refl, subst}
use notbit.Common.Tests.{if◌then◌else◌}
use mathlib.Core.Logic.{◌≢◌, ◌⊎◌, inl, inr}

-- `ok a`: success with the values written through the out-parameters; `fail`: the routine
-- returned false or -1; `fault`: it touched memory outside the object that it was given.
pub data Outcome {ℓ} (A : Type ℓ) : Type ℓ where
  ok : A → Outcome A
  fail : Outcome A
  fault : Outcome A

-- `if (test) return false;`
abbrev pub fail_if : Bool → Outcome (Unit {0})
fail_if false = ok tt
fail_if true = fail

infixl 5 ◌>>=◌
abbrev pub ◌>>=◌ {ι κ} :
    {X : Type ι} {Y : Type κ} (step : Outcome X) (rest : X → Outcome Y) → Outcome Y
fault >>= rest = fault
fail >>= rest = fail
ok x >>= rest = rest x

infixl 5 ◌>>◌
abbrev pub ◌>>◌ {κ} : {Y : Type κ} (step : Outcome (Unit {0})) (rest : Outcome Y) → Outcome Y
step >> rest = step >>= λ _. rest

-- To split on how a step ends, with the equation.
pub Outcome-cases {ℓ} :
    {A : Type ℓ} (r : Outcome A) → ((a : A) × (r ≡ ok a)) ⊎ ((r ≡ fail) ⊎ (r ≡ fault))
Outcome-cases (ok a) = inl (a, refl)
Outcome-cases fail = inr (inl refl)
Outcome-cases fault = inr (inr refl)

-- A chain that ends well: its first step did, and so did the rest.
pub >>=-eq-ok {ι κ} :
    {X : Type ι} {Y : Type κ} (step : Outcome X) (rest : X → Outcome Y) {b : Y}
    (good : (step >>= rest) ≡ ok b)
    → (x : X) × (step ≡ ok x) × (rest x ≡ ok b)
>>=-eq-ok fault rest good = cc
>>=-eq-ok fail rest good = cc
>>=-eq-ok (ok x) rest good = (x, refl, good)

-- A chain stays in bounds if its first step does, and the rest does after a success.
pub >>=-ne-fault {ℓ κ} :
    {A : Type ℓ} {B : Type κ} (m : Outcome A) (f : A → Outcome B)
    → m ≢ fault
    → ((a : A) → m ≡ ok a → f a ≢ fault)
    → (m >>= f) ≢ fault
>>=-ne-fault (ok a) f h k = k a refl
>>=-ne-fault fail f h k = λ e. cc
>>=-ne-fault fault f h k = absurd (h refl)

-- If the routine ends well, its result has the property `P`; with a rule for each construct.
abbrev pub Ensures {ℓ κ} : {A : Type ℓ} → (A → Type κ) → Outcome A → Type (ℓ ⊔ κ)
Ensures {A} P r = (a : A) → r ≡ ok a → P a

module _ {ℓ κ} {B : Type ℓ} (P : B → Type κ) where
  pub >>=-Ensures {ι} :
      {A : Type ι} (m : Outcome A) (f : A → Outcome B)
      → ((a : A) → m ≡ ok a → Ensures P (f a))
      → Ensures P (m >>= f)
  >>=-Ensures (ok a) f k = k a refl
  >>=-Ensures fail f k = λ b e. cc
  >>=-Ensures fault f k = λ b e. cc

  pub guard-Ensures :
      (test : Bool) (k : Outcome B) → (test ≡ false → Ensures P k) → Ensures P (fail_if test >> k)
  guard-Ensures true k h = λ b e. cc
  guard-Ensures false k h = h refl

  pub if-Ensures :
      (test : Bool) (k l : Outcome B)
      → (test ≡ true → Ensures P k)
      → (test ≡ false → Ensures P l)
      → Ensures P (if test then k else l)
  if-Ensures true k l h h' = h refl
  if-Ensures false k l h h' = h' refl

  pub ok-Ensures : (a : B) → P a → Ensures P (ok a)
  ok-Ensures a p b e = subst P (cc) p

pub ok-injective {ℓ} : {A : Type ℓ} {a b : A} → ok a ≡ ok b → a ≡ b
ok-injective e = cc

-- No fault, and the result of a success has the property.
abbrev pub Yields {ℓ} : {A : Type ℓ} → (A → Type 0) → Outcome A → Type 0
Yields P (ok a) = P a
Yields P fail = Unit
Yields P fault = ⊥

pub >>=-Yields {ℓ κ} :
    {A : Type ℓ} {B : Type κ} (P : A → Type 0) (Q : B → Type 0) (r : Outcome A) (f : A → Outcome B)
    → Yields P r
    → ((a : A) → P a → Yields Q (f a))
    → Yields Q (r >>= f)
>>=-Yields P Q (ok a) f h k = k a h
>>=-Yields P Q fail f h k = tt
>>=-Yields P Q fault f h k = elim h [ ]

pub if-Yields {ℓ} :
    {A : Type ℓ} (P : A → Type 0) (test : Bool) (r s : Outcome A)
    → Yields P r
    → Yields P s
    → Yields P (if test then r else s)
if-Yields P true r s h k = h
if-Yields P false r s h k = k

pub Yields-ne-fault {ℓ} : {A : Type ℓ} (P : A → Type 0) (r : Outcome A) → Yields P r → r ≢ fault
Yields-ne-fault P (ok a) h = λ e. cc
Yields-ne-fault P fail h = λ e. cc
Yields-ne-fault P fault h = elim h [ ]
