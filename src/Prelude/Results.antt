-- ===== src/Prelude/Results.antt =====
-- Results that exist: where `none` is a loop that does not end, `Ends` is termination.
use mathlib.Core.Path.{◌≡◌, refl}
use mathlib.Core.Bool.{Bool, true, false}
use mathlib.Core.Option.{Option, none, some}
use maps.Prelude.Tests.{if◌then◌else◌}

abbrev pub Ends {ℓ} : {A : Type ℓ} → Option A → Type ℓ
Ends {A} o = (a : A) × (o ≡ some a)

pub ended {ℓ} : {A : Type ℓ} (a : A) → Ends (some a)
ended a = (a, refl)

pub Ends-if {ℓ} :
    {A : Type ℓ} (b : Bool) (x y : Option A) → Ends x → Ends y → Ends (if b then x else y)
Ends-if true x y ex ey = ex
Ends-if false x y ex ey = ey

pub Ends-bind {ℓ} :
    {A B : Type ℓ} (o : Option A) (f : A → Option B)
    → Ends o
    → ((a : A) → Ends (f a))
    → Ends (elim o [ none ↦ none | some a ↦ f a ])
Ends-bind {B = B} o f (a, e) each = rw e (each a)

pub Ends-split {ℓ} :
    {A : Type ℓ} (b : Bool) (x y : Option A)
    → Ends x
    → Ends y
    → Ends (elim b [ true ↦ x | false ↦ y ])
Ends-split true x y ex ey = ex
Ends-split false x y ex ey = ey
