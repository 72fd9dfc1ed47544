-- ===== src/Base/Faults.antt =====
-- Code that may fault: `none` is an access through a null pointer or past the end of a list.
use mathlib.Core.Path.{◌≡◌, refl, ap, ◌∙◌, sym}
use mathlib.Core.Option.{Option, none, some}
use mathlib.Core.List.{List, [], ◌∷◌}
use native.Mathlib.Omega.{arith}
use mathlib.Core.Bool.{Bool, true, false}
use flexran_rtc.Base.Tests.{if◌then◌else◌}
use flexran_rtc.Base.Lists.{All}

infixl 5 ◌>>=◌
abbrev pub ◌>>=◌ {ℓ κ} : {A : Type ℓ} {B : Type κ} → Option A → (A → Option B) → Option B
none >>= f = none
some a >>= f = f a

-- A loop over a list whose body may fault.
unfoldable pub for_each {ℓ κ} :
    {A : Type ℓ} {S : Type κ} → (A → S → Option S) → List A → S → Option S
for_each f [] s = some s
for_each f (a ∷ rest) s = f a s >>= for_each f rest

-- There is no fault, and the result satisfies `P`.
abbrev pub Returns {ℓ κ} : {A : Type ℓ} → Option A → (A → Type κ) → Type (ℓ ⊔ κ)
Returns {A} o P = (a : A) × (o ≡ some a) × P a

module _ {ℓ κ μ} {A : Type ℓ} {B : Type κ} where
  -- The rule for a sequence.
  pub Returns-bind :
      {P : A → Type μ} (Q : B → Type μ) (o : Option A) (f : A → Option B)
      → Returns o P
      → ((a : A) → P a → Returns (f a) Q)
      → Returns (o >>= f) Q
  Returns-bind Q o f (a, e, p) g = let (b, e', q) = g a p in (b, ap (λ o'. o' >>= f) e ∙ e', q)

module _ {ℓ κ μ ν} {A : Type ℓ} {S : Type κ} where
  -- A loop returns where each round keeps an invariant and does not fault under it.
  pub for_each-Returns :
      (P : S → Type μ) (Q : A → Type ν) (f : A → S → Option S)
      → ((a : A) (s : S) → Q a → P s → Returns (f a s) P)
      → (xs : List A) (s : S) → All Q xs
      → P s
      → Returns (for_each f xs s) P
  unfolding for_each
  for_each-Returns P Q f step [] s q p = (s, refl, p)
  for_each-Returns P Q f step (a ∷ rest) s q p =
      Returns-bind P (f a s) (for_each f rest) (step a s q.0 p)
        (λ s' p'. for_each-Returns P Q f step rest s' q.1 p')

-- What an Option that is `some` was bound from.
pub bind_some {ℓ κ} :
    {A : Type ℓ} {B : Type κ} (o : Option A) (f : A → Option B) (b : B)
    → o >>= f ≡ some b
    → (a : A) × (o ≡ some a) × (f a ≡ some b)
bind_some none f b e = absurd (ground (arith, e))
bind_some (some a) f b e = (a, refl, e)

-- A loop keeps what each of its rounds keeps.
pub for_each-keeps {ℓ κ μ} :
    {A : Type ℓ} {S : Type κ} {V : Type μ} (g : S → V) (f : A → S → Option S)
    → ((a : A) (s s' : S) → f a s ≡ some s' → g s' ≡ g s)
    → (xs : List A) (s s' : S) → for_each f xs s ≡ some s'
    → g s' ≡ g s
unfolding for_each
for_each-keeps g f k [] s s' e = ap (λ o. elim o [ none ↦ g s | some t ↦ g t ]) (sym e)
for_each-keeps g f k (a ∷ xs) s s' e =
    let (t, e1, e2) = bind_some (f a s) (for_each f xs) s' e in
    for_each-keeps g f k xs t s' e2 ∙ k a s t e1

-- Both branches of a test return.
pub Returns-if {ℓ κ} :
    {A : Type ℓ} {P : A → Type κ} (b : Bool) (x y : Option A)
    → Returns x P
    → Returns y P
    → Returns (if b then x else y) P
Returns-if true x y p q = p
Returns-if false x y p q = q
