-- ===== src/Common/Result.antt =====
-- `Result<A, E>`, with the `?` operator as bind.
use mathlib.Core.Path.{◌≡◌, refl}
use mathlib.Core.Logic.{◌⊎◌, inl, inr}

pub data Result {ℓ κ} (E : Type κ) (A : Type ℓ) : Type (ℓ ⊔ κ) where
  ok : A → Result E A
  err : E → Result E A

infixl 5 ◌>>=◌ ◌>>◌
abbrev pub ◌>>=◌ {ℓ κ μ} :
    {E : Type κ} {A : Type ℓ} {B : Type μ} → Result E A → (A → Result E B) → Result E B
ok a >>= f = f a
err e >>= f = err e

abbrev pub ◌>>◌ {ℓ κ} : {E : Type κ} {B : Type ℓ} → Result E (Unit {0}) → Result E B → Result E B
m >> k = m >>= λ _. k

pub Result-cases {ℓ κ} :
    {E : Type κ} {A : Type ℓ} (r : Result E A) → ((a : A) × (r ≡ ok a)) ⊎ ((e : E) × (r ≡ err e))
Result-cases (ok a) = inl (a, refl)
Result-cases (err e) = inr (e, refl)

-- `?` between two statements on the same tables: an error ends the call, and keeps what the
-- statements before it have done.
abbrev pub and_then {ℓ κ μ ν} :
    {E : Type κ} {A : Type ℓ} {B : Type μ} {T : Type ν}
    → Result E A × T
    → (A → T → Result E B × T)
    → Result E B × T
and_then (ok a, t) f = f a t
and_then (err e, t) f = (err e, t)

-- A statement on one of the tables as a call on all of them, its error wrapped (`#[from]`).
abbrev pub lift {ℓ κ μ ν ξ} :
    {E : Type κ} {E' : Type μ} {A : Type ℓ} {T : Type ν} {U : Type ξ}
    → (E → E')
    → (T → U)
    → Result E A × T
    → Result E' A × U
lift wrap put (ok a, t) = (ok a, put t)
lift wrap put (err e, t) = (err (wrap e), put t)

-- What each of two calls keeps, both keep.
pub and_then_keeps {ℓ κ μ ν ο} :
    {E : Type κ} {A : Type ℓ} {B : Type μ} {T : Type ν} (P : T → Type ο) (m : Result E A × T)
    (f : A → T → Result E B × T)
    → P m.1
    → ((a : A) (t : T) → P t → P (f a t).1)
    → P (and_then m f).1
and_then_keeps P (ok a, t) f h k = k a t h
and_then_keeps P (err e, t) f h k = h

pub lift_keeps {ℓ κ μ ν ξ ο} :
    {E : Type κ} {E' : Type μ} {A : Type ℓ} {T : Type ν} {U : Type ξ} (P : U → Type ο)
    (wrap : E → E') (put : T → U) (m : Result E A × T)
    → P (put m.1)
    → P (lift wrap put m).1
lift_keeps P wrap put (ok a, t) h = h
lift_keeps P wrap put (err e, t) h = h

-- A call that succeeds, with what holds of its value and of the tables after it.
abbrev pub Ends {ℓ κ ν} :
    {E : Type κ} {A : Type ℓ} {T : Type ν} → (A → T → Type 0) → Result E A × T → Type 0
Ends P (ok a, t) = P a t
Ends P (err e, t) = ⊥

pub and_then-Ends {ℓ κ μ ν} :
    {E : Type κ} {A : Type ℓ} {B : Type μ} {T : Type ν} (P : A → T → Type 0) (Q : B → T → Type 0)
    (m : Result E A × T) (f : A → T → Result E B × T)
    → Ends P m
    → ((a : A) (t : T) → P a t → Ends Q (f a t))
    → Ends Q (and_then m f)
and_then-Ends P Q (ok a, t) f h k = k a t h
and_then-Ends P Q (err e, t) f h k = absurd h

pub lift-Ends {ℓ κ μ ν ξ} :
    {E : Type κ} {E' : Type μ} {A : Type ℓ} {T : Type ν} {U : Type ξ} (P : A → U → Type 0)
    (wrap : E → E') (put : T → U) (m : Result E A × T)
    → Ends (λ a t. P a (put t)) m
    → Ends P (lift wrap put m)
lift-Ends P wrap put (ok a, t) h = h
lift-Ends P wrap put (err e, t) h = absurd h

-- What `Ends` says, as a value and an equation.
pub Ends-value {ℓ κ ν} :
    {E : Type κ} {A : Type ℓ} {T : Type ν} (P : A → T → Type 0) (m : Result E A × T)
    → Ends P m
    → (a : A) × (t : T) × (m ≡ (ok a, t)) × P a t
Ends-value P (ok a, t) h = (a, t, refl, h)
Ends-value P (err e, t) h = absurd h

pub Ends-weaken {ℓ κ ν} :
    {E : Type κ} {A : Type ℓ} {T : Type ν} (P Q : A → T → Type 0) (m : Result E A × T)
    → Ends P m
    → ((a : A) (t : T) → P a t → Q a t)
    → Ends Q m
Ends-weaken P Q (ok a, t) h k = k a t h
Ends-weaken P Q (err e, t) h k = absurd h
