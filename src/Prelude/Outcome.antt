-- ===== src/Prelude/Outcome.antt =====
-- What a call that can go wrong comes to. A fault is no value of the program: it stands for
-- undefined behaviour, for an `assert` that fails, or for an exception that nothing catches.
use fish_rpc.Prelude.{◌≡◌, refl, Bool, true, false, ◌⊎◌, inl, inr, subst, if◌then◌else◌}

pub data Fault : Type 0 where
  out_of_bounds assert_failed bad_function_call bad_iterator divide_by_zero runtime_error : Fault
  use_after_free not_the_owner null_pointer : Fault

pub data Outcome {ℓ} (A : Type ℓ) : Type ℓ where
  ok : A → Outcome A
  fault : Fault → Outcome A

infixl 5 ◌>>=◌ ◌>>◌
abbrev pub ◌>>=◌ {ℓ κ} : {A : Type ℓ} {B : Type κ} → Outcome A → (A → Outcome B) → Outcome B
ok a >>= f = f a
fault e >>= f = fault e

abbrev pub ◌>>◌ {ℓ} : {B : Type ℓ} → Outcome (Unit {0}) → Outcome B → Outcome B
m >> k = m >>= λ _. k

-- Passes where the test holds, and faults otherwise.
abbrev pub check : Bool → Fault → Outcome (Unit {0})
check true e = ok tt
check false e = fault e

pub Outcome-cases {ℓ} :
    {A : Type ℓ} (m : Outcome A) → ((a : A) × (m ≡ ok a)) ⊎ ((e : Fault) × (m ≡ fault e))
Outcome-cases (ok a) = inl (a, refl)
Outcome-cases (fault e) = inr (e, refl)

pub >>=-eq-ok {ℓ κ} :
    {A : Type ℓ} {B : Type κ} (call : Outcome A) (next : A → Outcome B) {z : B}
    → (call >>= next) ≡ ok z
    → (x : A) × (call ≡ ok x) × (next x ≡ ok z)
>>=-eq-ok (ok x) next returns = (x, refl, returns)
>>=-eq-ok (fault e) next returns = cc

pub ok-injective {ℓ} : {A : Type ℓ} {a b : A} → ◌≡◌ {A = Outcome A} (ok a) (ok b) → a ≡ b
ok-injective h = cc

-- What holds of the result, where there is one.
pub record Returns {ℓ κ} {A : Type ℓ} (P : A → Type κ) (m : Outcome A) : Type (ℓ ⊔ κ) where
  pub result : (a : A) → m ≡ ok a → P a

pub Returns-map {ℓ κ μ} :
    {A : Type ℓ} {P : A → Type κ} {Q : A → Type μ} {m : Outcome A}
    → Returns P m
    → ((a : A) → P a → Q a)
    → Returns Q m
Returns-map r f = record { result = λ a e. f a (r.result a e) }

pub Returns->>= {ℓ κ μ ν} :
    {A : Type ℓ} {B : Type κ} {P : A → Type μ} {Q : B → Type ν} (m : Outcome A) {f : A → Outcome B}
    → Returns P m
    → ((a : A) → P a → Returns Q (f a))
    → Returns Q (m >>= f)
Returns->>= m {f} r next = record {
  result = λ b h. let (a, e, q) = >>=-eq-ok m f h in (next a (r.result a e)).result b q;
}

pub Returns-check {κ} :
    {B : Type 0} {Q : B → Type κ} (b : Bool) (e : Fault) {m : Outcome B}
    → Returns Q m
    → Returns Q (check b e >> m)
Returns-check true e r = r
Returns-check false e r = record { result = λ a h. cc }

pub Returns-if {ℓ κ} :
    {A : Type ℓ} {Q : A → Type κ} (b : Bool) {m n : Outcome A}
    → Returns Q m
    → Returns Q n
    → Returns Q (if b then m else n)
Returns-if true r s = r
Returns-if false r s = s

pub Returns-ok {ℓ κ} : {A : Type ℓ} {Q : A → Type κ} {a : A} → Q a → Returns Q (ok a)
Returns-ok {Q} q = record { result = λ b h. subst Q (ok-injective h) q }

pub anyhow {ℓ} : {A : Type ℓ} {m : Outcome A} → Returns (λ _. Unit {0}) m
anyhow = record { result = λ a e. tt }

pub Returns-when {ℓ κ} :
    {A : Type ℓ} {Q : A → Type κ} (b : Bool) {m n : Outcome A}
    → (b ≡ true → Returns Q m)
    → (b ≡ false → Returns Q n)
    → Returns Q (if b then m else n)
Returns-when true r s = r refl
Returns-when false r s = s refl
