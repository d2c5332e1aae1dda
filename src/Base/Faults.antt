-- ===== src/Base/Faults.antt =====
-- Results of code that stops at a failed assertion or at an undefined access.
use mathlib.Core.Option
use mathlib.Core.Option.{Option, none, some}

pub data Fault : Type 0 where
  unknown_job no_allocation never_executable null_pointer bad_resources : Fault
  not_in_queue empty_queue too_many_ended no_job_running : Fault
  not_switching unknown_task : Fault
  not_in_schedule already_in_schedule not_inserted slices_differ wrong_date no_slice : Fault

pub data Result {ℓ} (A : Type ℓ) : Type ℓ where
  ok : A → Result A
  err : Fault → Result A

infixl 5 ◌>>=◌
abbrev pub ◌>>=◌ {ℓ κ} : {A : Type ℓ} {B : Type κ} → Result A → (A → Result B) → Result B
ok a >>= f = f a
err e >>= f = err e

abbrev pub or_fail {ℓ} : {A : Type ℓ} → Option A → Fault → Result A
or_fail none e = err e
or_fail (some a) e = ok a

-- The run ends normally, and its value has the property.
abbrev pub Returns {ℓ} : {A : Type ℓ} → (A → Type 0) → Result A → Type 0
Returns P (ok a) = P a
Returns P (err e) = ⊥

-- A bind returns when both of its parts do.
pub Returns-bind {ℓ κ} :
    {A : Type ℓ} {B : Type κ} (P : A → Type 0) (Q : B → Type 0) (m : Result A) (f : A → Result B)
    → Returns P m
    → ((a : A) → P a → Returns Q (f a))
    → Returns Q (m >>= f)
Returns-bind P Q (ok a) f h k = k a h
Returns-bind P Q (err e) f h k = h

pub Returns-weaken {ℓ} :
    {A : Type ℓ} (P Q : A → Type 0) (m : Result A)
    → ((a : A) → P a → Q a)
    → Returns P m
    → Returns Q m
Returns-weaken P Q (ok a) f h = f a h
Returns-weaken P Q (err e) f h = h

pub Returns-both {ℓ} :
    {A : Type ℓ} (P Q : A → Type 0) (m : Result A)
    → Returns P m
    → Returns Q m
    → Returns (λ a. P a × Q a) m
Returns-both P Q (ok a) h k = (h, k)
Returns-both P Q (err e) h k = h

-- If the run ends normally, its value has the property.
abbrev pub After {ℓ} : {A : Type ℓ} → (A → Type 0) → Result A → Type 0
After P (ok a) = P a
After P (err e) = Unit

pub After-bind {ℓ κ} :
    {A : Type ℓ} {B : Type κ} (P : A → Type 0) (Q : B → Type 0) (m : Result A) (f : A → Result B)
    → After P m
    → ((a : A) → P a → After Q (f a))
    → After Q (m >>= f)
After-bind P Q (ok a) f h k = k a h
After-bind P Q (err e) f h k = tt

-- A run that is known to end normally has what it has if it does.
pub Returns-After {ℓ} :
    {A : Type ℓ} (P Q : A → Type 0) (m : Result A) → Returns P m → After Q m → Returns Q m
Returns-After P Q (ok a) h k = k
Returns-After P Q (err e) h k = h

pub After-map {ℓ} :
    {A : Type ℓ} (P Q : A → Type 0) (m : Result A) → ((a : A) → P a → Q a) → After P m → After Q m
After-map P Q (ok a) f h = f a h
After-map P Q (err e) f h = tt

-- The value, if there is one, has the property.
abbrev pub Found {ℓ} : {A : Type ℓ} → (A → Type 0) → Option A → Type 0
Found P none = Unit
Found P (some a) = P a

pub Found-map {ℓ κ} :
    {A : Type ℓ} {B : Type κ} (P : A → Type 0) (Q : B → Type 0) (f : A → B) (o : Option A)
    → ((a : A) → P a → Q (f a))
    → Found P o
    → Found Q (Option.map f o)
Found-map P Q f none k h = tt
Found-map P Q f (some a) k h = k a h

pub Found-weaken {ℓ} :
    {A : Type ℓ} (P Q : A → Type 0) (o : Option A) → ((a : A) → P a → Q a) → Found P o → Found Q o
Found-weaken P Q none k h = tt
Found-weaken P Q (some a) k h = k a h

-- There is a value, and it has the property.
abbrev pub Present {ℓ} : {A : Type ℓ} → (A → Type 0) → Option A → Type 0
Present P none = ⊥
Present P (some a) = P a

pub Present-map {ℓ κ} :
    {A : Type ℓ} {B : Type κ} (P : A → Type 0) (Q : B → Type 0) (f : A → B) (o : Option A)
    → ((a : A) → P a → Q (f a))
    → Present P o
    → Present Q (Option.map f o)
Present-map P Q f none k h = h
Present-map P Q f (some a) k h = k a h
