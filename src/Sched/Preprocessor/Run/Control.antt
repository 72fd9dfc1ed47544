-- ===== src/Sched/Preprocessor/Run/Control.antt =====
-- What the steps of run_dlsch_scheduler_preprocessor in src/app/remote_scheduler_helper.cc keep:
-- the control channel, the UEs with an entry and that they have few blocks; and how they compose.
use flexran_rtc.Base.{
  ℕ, ◌≡◌, refl, ◌∙◌, Bool, true, false, Option, none, some, List, [], ◌∷◌, arith, if◌then◌else◌,
}
use mathlib.Core.Option.{some-injective}
use flexran_rtc.Base.Faults.{◌>>=◌, for_each, bind_some}
use flexran_rtc.Sched.Info.{EnbSchedulingInfo}
use flexran_rtc.Sched.Helper.Few.{EnbFew}
use flexran_rtc.Sched.Preprocessor.Run.Entries.{has_entry}

-- The symbols and the elements of all cells.
abbrev pub control : EnbSchedulingInfo → (ℕ → ℕ) × (ℕ → ℕ)
control s = (s.num_pdcch_symbols, s.ncce_rem)

-- The control channel is as before, no entry is lost, and each UE has few blocks again.
pub record Advances (s s' : EnbSchedulingInfo) : Type 0 where
  pub channel : control s' ≡ control s
  pub entries : (r : ℕ) → has_entry r s ≡ true → has_entry r s' ≡ true
  pub few : EnbFew s → EnbFew s'

pub Advances-refl : (s : EnbSchedulingInfo) → Advances s s
Advances-refl s = record { channel = refl; entries = λ r h. h; few = λ h. h }

pub Advances-trans : (s t u : EnbSchedulingInfo) → Advances s t → Advances t u → Advances s u
Advances-trans s t u p q = record {
  channel = q.channel ∙ p.channel;
  entries = λ r h. q.entries r (p.entries r h);
  few = λ h. q.few (p.few h);
}

-- Where a step returns, it keeps all of this.
abbrev pub Keeps : EnbSchedulingInfo → Option EnbSchedulingInfo → Type 0
Keeps s o = (s' : EnbSchedulingInfo) → o ≡ some s' → Advances s s'

pub Keeps-some : (s t : EnbSchedulingInfo) → Advances s t → Keeps s (some t)
Keeps-some s t k s' e = rw (← some-injective t s' e) k

pub Keeps-if :
    (b : Bool) (s : EnbSchedulingInfo) (x y : Option EnbSchedulingInfo)
    → Keeps s x
    → Keeps s y
    → Keeps s (if b then x else y)
Keeps-if true s x y p q = p
Keeps-if false s x y p q = q

-- The rules for a sequence: of a value, and of a step.
pub Keeps-from {ℓ} :
    {A : Type ℓ} (s : EnbSchedulingInfo) (o : Option A) (f : A → Option EnbSchedulingInfo)
    → ((a : A) → Keeps s (f a))
    → Keeps s (o >>= f)
Keeps-from s none f k s' e = absurd (ground (arith, e))
Keeps-from s (some a) f k s' e = k a s' e

pub Keeps-bind :
    (s : EnbSchedulingInfo) (o : Option EnbSchedulingInfo)
    (f : EnbSchedulingInfo → Option EnbSchedulingInfo)
    → Keeps s o
    → ((t : EnbSchedulingInfo) → Keeps t (f t))
    → Keeps s (o >>= f)
Keeps-bind s none f p k s' e = absurd (ground (arith, e))
Keeps-bind s (some t) f p k s' e = Advances-trans s t s' (p t refl) (k t s' e)

pub Keeps-elim {ℓ} :
    {A : Type ℓ} (s : EnbSchedulingInfo) (o : Option A) (x : Option EnbSchedulingInfo)
    (f : A → Option EnbSchedulingInfo)
    → Keeps s x
    → ((a : A) → Keeps s (f a))
    → Keeps s (elim o [ none ↦ x | some a ↦ f a ])
Keeps-elim s none x f p k = p
Keeps-elim s (some a) x f p k = k a

pub for_each-Keeps :
    {A : Type 0} (f : A → EnbSchedulingInfo → Option EnbSchedulingInfo)
    → ((a : A) (s : EnbSchedulingInfo) → Keeps s (f a s))
    → (xs : List A) (s : EnbSchedulingInfo) → Keeps s (for_each f xs s)
unfolding for_each
for_each-Keeps f k [] s = Keeps-some s s (Advances-refl s)
for_each-Keeps f k (a ∷ xs) s =
    Keeps-bind s (f a s) (for_each f xs) (k a s) (λ t. for_each-Keeps f k xs t)

-- The same for a step that counts.
abbrev pub CountKeeps : EnbSchedulingInfo → Option (EnbSchedulingInfo × ℕ) → Type 0
CountKeeps s o = (p : EnbSchedulingInfo × ℕ) → o ≡ some p → Advances s p.0

pub CountKeeps-some : (s : EnbSchedulingInfo) (n : ℕ) → CountKeeps s (some (s, n))
CountKeeps-some s n p e = rw (← some-injective (s, n) p e) (Advances-refl s)

pub CountKeeps-if :
    (b : Bool) (s : EnbSchedulingInfo) (x y : Option (EnbSchedulingInfo × ℕ))
    → CountKeeps s x
    → CountKeeps s y
    → CountKeeps s (if b then x else y)
CountKeeps-if true s x y p q = p
CountKeeps-if false s x y p q = q

pub CountKeeps-elim {ℓ} :
    {A : Type ℓ} (s : EnbSchedulingInfo) (o : Option A) (f : A → Option (EnbSchedulingInfo × ℕ))
    → ((a : A) → CountKeeps s (f a))
    → CountKeeps s (elim o [ none ↦ none | some a ↦ f a ])
CountKeeps-elim s none f k p e = absurd (ground (arith, e))
CountKeeps-elim s (some a) f k p e = k a p e

pub CountKeeps-from {ℓ} :
    {A : Type ℓ} (s : EnbSchedulingInfo) (o : Option A) (f : A → Option (EnbSchedulingInfo × ℕ))
    → ((a : A) → CountKeeps s (f a))
    → CountKeeps s (o >>= f)
CountKeeps-from s none f k p e = absurd (ground (arith, e))
CountKeeps-from s (some a) f k p e = k a p e

pub for_each-CountKeeps :
    {A : Type 0} (f : A → EnbSchedulingInfo × ℕ → Option (EnbSchedulingInfo × ℕ))
    → ((a : A) (p : EnbSchedulingInfo × ℕ) → CountKeeps p.0 (f a p))
    → (xs : List A) (p : EnbSchedulingInfo × ℕ) → CountKeeps p.0 (for_each f xs p)
unfolding for_each
for_each-CountKeeps f k [] p q e = rw (← some-injective p q e) (Advances-refl p.0)
for_each-CountKeeps f k (a ∷ xs) p q e =
    let (t, e1, e2) = bind_some (f a p) (for_each f xs) q e in
    Advances-trans p.0 t.0 q.0 (k a p t e1) (for_each-CountKeeps f k xs t q e2)
