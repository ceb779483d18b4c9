-- ===== src/Prelude/Options.antt =====
-- What holds of an optional value where there is one.
use mathlib.Core.Path.{◌≡◌, refl, subst}
use mathlib.Core.Option.{Option, none, some}

abbrev pub AllSome {ℓ κ} : {A : Type ℓ} → (A → Type κ) → Option A → Type κ
AllSome P none = Unit
AllSome P (some a) = P a

pub AllSome-get {ℓ κ} :
    {A : Type ℓ} (P : A → Type κ) (o : Option A) (a : A) → o ≡ some a → AllSome P o → P a
AllSome-get P o a e h = subst (AllSome P) e h

pub AllSome-intro {ℓ κ} :
    {A : Type ℓ} (P : A → Type κ) (o : Option A) → ((a : A) → o ≡ some a → P a) → AllSome P o
AllSome-intro P none h = tt
AllSome-intro P (some a) h = h a refl

pub AllSome-map {ℓ κ μ} :
    {A : Type ℓ} (P : A → Type κ) (Q : A → Type μ) (o : Option A)
    → ((a : A) → P a → Q a)
    → AllSome P o
    → AllSome Q o
AllSome-map P Q none f h = tt
AllSome-map P Q (some a) f h = f a h
