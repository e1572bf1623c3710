-- ===== src/Start/Ensures.antt =====
-- Rules for a property of whatever an operation of the kernel returns, for operations that are chains of
-- steps and of checks that stop the kernel, as those of src/kernel/core.c are.
use platinum.Prelude.{
  ◌≡◌, refl, Bool, true, false, not, if◌then◌else◌, Exec, ok, halt, fault, ◌>>=◌,
}

-- Whatever an operation returns has the property.
abbrev pub Ensures {ℓ κ} : {A : Type ℓ} → (A → Type κ) → Exec A → Type κ
Ensures P (ok a) = P a
Ensures P halt = Unit
Ensures P fault = Unit

pub Ensures-bind {ℓ κ μ} :
    {A : Type ℓ} {B : Type κ} (P : B → Type μ) (m : Exec A) (f : A → Exec B)
    → ((a : A) → Ensures P (f a))
    → Ensures P (m >>= f)
Ensures-bind P (ok a) f all = all a
Ensures-bind P halt f all = tt
Ensures-bind P fault f all = tt

-- A step that ensures something itself.
pub Ensures-then {ℓ κ μ ν} :
    {A : Type ℓ} {B : Type κ} (Q : A → Type ν) (P : B → Type μ) (m : Exec A) (f : A → Exec B)
    → Ensures Q m
    → ((a : A) → Q a → Ensures P (f a))
    → Ensures P (m >>= f)
Ensures-then Q P (ok a) f q all = all a q
Ensures-then Q P halt f q all = tt
Ensures-then Q P fault f q all = tt

-- A check that stops the kernel.
pub Ensures-check {ℓ μ} :
    {B : Type ℓ} (P : B → Type μ) (good : Bool) (m : Exec B)
    → (good ≡ true → Ensures P m)
    → Ensures P (if not good then halt else m)
Ensures-check P true m all = all refl
Ensures-check P false m all = tt

-- A fact that holds anyway.
pub Ensures-with {ℓ μ ν} :
    {B : Type ℓ} (P : B → Type μ) (Q : Type ν) (m : Exec B)
    → Q
    → Ensures P m
    → Ensures (λ b. P b × Q) m
Ensures-with P Q (ok b) q e = (e, q)
Ensures-with P Q halt q e = tt
Ensures-with P Q fault q e = tt

pub Ensures-if {ℓ μ} :
    {B : Type ℓ} (P : B → Type μ) (test : Bool) (m n : Exec B)
    → (test ≡ true → Ensures P m)
    → (test ≡ false → Ensures P n)
    → Ensures P (if test then m else n)
Ensures-if P true m n first second = first refl
Ensures-if P false m n first second = second refl

-- A weaker property.
pub Ensures-map {ℓ μ ν} :
    {B : Type ℓ} (P : B → Type μ) (Q : B → Type ν) (m : Exec B)
    → ((b : B) → P b → Q b)
    → Ensures P m
    → Ensures Q m
Ensures-map P Q (ok b) weaker e = weaker b e
Ensures-map P Q halt weaker e = tt
Ensures-map P Q fault weaker e = tt

-- A fact that does not depend on what is returned.
pub Ensures-const {ℓ ν} : {B : Type ℓ} (Q : Type ν) (m : Exec B) → Q → Ensures (λ (b : B). Q) m
Ensures-const Q (ok b) q = q
Ensures-const Q halt q = tt
Ensures-const Q fault q = tt

pub Ensures-returns {ℓ μ} :
    {B : Type ℓ} (P : B → Type μ) (m : Exec B) (b : B) → Ensures P m → m ≡ ok b → P b
Ensures-returns P m b e h = rw h at e
