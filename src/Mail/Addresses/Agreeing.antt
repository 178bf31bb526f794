-- ===== src/Mail/Addresses/Agreeing.antt =====
-- Two parsers that end alike: both well, with related results, or both not.
use notbit.Common.{◌≡◌, refl, ap, Bool, true, false, if◌then◌else◌, Outcome, ok, fail, fault, ◌>>=◌}

abbrev pub Agrees {ℓ κ} :
    {A : Type ℓ} {B : Type κ} → (A → B → Type 0) → Outcome A → Outcome B → Type 0
Agrees R (ok a) (ok b) = R a b
Agrees R fail fail = Unit
Agrees R fault fault = Unit
Agrees R _ _ = ⊥

pub >>=-Agrees {ℓ κ ι μ} :
    {A : Type ℓ} {B : Type κ} {C : Type ι} {D : Type μ} (R : A → B → Type 0) (S : C → D → Type 0)
    (r : Outcome A) (s : Outcome B) (f : A → Outcome C) (g : B → Outcome D)
    → Agrees R r s
    → ((a : A) (b : B) → R a b → Agrees S (f a) (g b))
    → Agrees S (r >>= f) (s >>= g)
>>=-Agrees R S (ok a) (ok b) f g h k = k a b h
>>=-Agrees R S fail fail f g h k = tt
>>=-Agrees R S fault fault f g h k = tt
>>=-Agrees R S (ok a) fail f g h k = elim h [ ]
>>=-Agrees R S (ok a) fault f g h k = elim h [ ]
>>=-Agrees R S fail (ok b) f g h k = elim h [ ]
>>=-Agrees R S fail fault f g h k = elim h [ ]
>>=-Agrees R S fault (ok b) f g h k = elim h [ ]
>>=-Agrees R S fault fail f g h k = elim h [ ]

pub Agrees-map {ℓ κ} :
    {A : Type ℓ} {B : Type κ} (R S : A → B → Type 0) (r : Outcome A) (s : Outcome B)
    → ((a : A) (b : B) → R a b → S a b)
    → Agrees R r s
    → Agrees S r s
Agrees-map R S (ok a) (ok b) k h = k a b h
Agrees-map R S fail fail k h = tt
Agrees-map R S fault fault k h = tt
Agrees-map R S (ok a) fail k h = elim h [ ]
Agrees-map R S (ok a) fault k h = elim h [ ]
Agrees-map R S fail (ok b) k h = elim h [ ]
Agrees-map R S fail fault k h = elim h [ ]
Agrees-map R S fault (ok b) k h = elim h [ ]
Agrees-map R S fault fail k h = elim h [ ]

pub if-Agrees {ℓ κ} :
    {A : Type ℓ} {B : Type κ} (R : A → B → Type 0) (test : Bool) (r r' : Outcome A)
    (s s' : Outcome B)
    → Agrees R r s
    → Agrees R r' s'
    → Agrees R (if test then r else r') (if test then s else s')
if-Agrees R true r r' s s' h k = h
if-Agrees R false r r' s s' h k = k

pub if-Agrees-eq {ℓ κ} :
    {A : Type ℓ} {B : Type κ} (R : A → B → Type 0) (t t' : Bool)
    → t ≡ t'
    → (r r' : Outcome A) (s s' : Outcome B) → Agrees R r s
    → Agrees R r' s'
    → Agrees R (if t then r else r') (if t' then s else s')
if-Agrees-eq R true true e r r' s s' h k = h
if-Agrees-eq R false false e r r' s s' h k = k
if-Agrees-eq R true false e r r' s s' h k = absurd (cc e)
if-Agrees-eq R false true e r r' s s' h k = absurd (cc e)

pub Agrees-eq : {A : Type 0} (r s : Outcome A) → Agrees (λ a b. a ≡ b) r s → r ≡ s
Agrees-eq (ok a) (ok b) h = ap ok h
Agrees-eq fail fail h = refl
Agrees-eq fault fault h = refl
Agrees-eq (ok a) fail h = elim h [ ]
Agrees-eq (ok a) fault h = elim h [ ]
Agrees-eq fail (ok b) h = elim h [ ]
Agrees-eq fail fault h = elim h [ ]
Agrees-eq fault (ok b) h = elim h [ ]
Agrees-eq fault fail h = elim h [ ]
