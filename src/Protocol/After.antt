-- ===== src/Protocol/After.antt =====
-- Properties of the result of a handler that may fail, by the way the handler is composed.
use mathlib.Core.Path.{subst}
use mathlib.Core.Option.{some_inj}
use madaodv_ns.Base.{◌≡◌, Bool, true, false, if◌then◌else◌, Option, none, some}
use madaodv_ns.Protocol.{◌>>=◌}

-- The result has the property, if there is one.
pub data After {ℓ} {A : Type ℓ} (Q : A → Type 0) : Option A → Type ℓ where
  fails : After Q none
  gives : {a : A} → Q a → After Q (some a)

pub bind-After {ℓ κ} :
    {A : Type ℓ} {B : Type κ} (Q : A → Type 0) (R : B → Type 0) (x : Option A) (f : A → Option B)
    → After Q x
    → ((a : A) → Q a → After R (f a))
    → After R (x >>= f)
bind-After Q R none f q k = fails
bind-After Q R (some a) f (gives q) k = k a q

-- Both branches have the property.
pub if-both {ℓ κ} :
    {A : Type ℓ} (Q : A → Type κ) (b : Bool) {x y : A} → Q x → Q y → Q (if b then x else y)
if-both Q true p q = p
if-both Q false p q = q

pub elim-both {ℓ κ μ} :
    {A : Type ℓ} {B : Type κ} (Q : B → Type μ) (o : Option A) {y : B} {f : A → B}
    → Q y
    → ((a : A) → Q (f a))
    → Q (elim o [ none ↦ y | some a ↦ f a ])
elim-both Q none q k = q
elim-both Q (some a) q k = k a

pub cases-both {ℓ κ} :
    {A : Type ℓ} (Q : A → Type κ) (b : Bool) {x y : A}
    → Q x
    → Q y
    → Q (elim b [ true ↦ x | false ↦ y ])
cases-both Q true p q = p
cases-both Q false p q = q

pub option_cases-both {ℓ κ} :
    {A : Type ℓ} (Q : A → Type κ) (o : Option Bool) {x y z : A}
    → Q x
    → Q y
    → Q z
    → Q (elim o [ none ↦ x | some false ↦ y | some true ↦ z ])
option_cases-both Q none p q r = p
option_cases-both Q (some false) p q r = q
option_cases-both Q (some true) p q r = r

pub elim-After {ℓ κ} :
    {A : Type ℓ} {B : Type κ} (Q : A → Type 0) (R : B → Type 0) (x : Option A) {f : A → Option B}
    → After Q x
    → ((a : A) → Q a → After R (f a))
    → After R (elim x [ none ↦ none | some a ↦ f a ])
elim-After Q R none q k = fails
elim-After Q R (some a) (gives q) k = k a q

pub any-After {ℓ} : {A : Type ℓ} (x : Option A) → After (λ a. Unit) x
any-After none = fails
any-After (some a) = gives tt

pub After-given {ℓ} :
    {A : Type ℓ} (Q : A → Type 0) (x : Option A) (a : A) → After Q x → x ≡ some a → Q a
After-given Q none a q e = cc
After-given Q (some b) a (gives q) e = subst Q (some_inj.0 e) q
