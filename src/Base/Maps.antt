-- ===== src/Base/Maps.antt =====
-- std::map with number keys: an association list in the order of the keys.
use Prim.Native.Nat.{ℕ}
use mathlib.Core.Path.{◌≡◌, refl, sym, ◌∙◌}
use mathlib.Core.Logic.{inl, inr, ◌⊎◌, ◌≢◌}
use mathlib.Core.Option.{Option, none, some, some-injective}
use mathlib.Core.List.{List, [], ◌∷◌}
use native.Mathlib.Omega.{arith}
use flexran_rtc.Base.Lists.{All}
use flexran_rtc.Base.Tests.{ltb, ◌==◌, if◌then◌else◌, Bool-cases, ==_iff}

module _ {ℓ} {V : Type ℓ} where
  unfoldable pub find : ℕ → List (ℕ × V) → Option V
  find k [] = none
  find k ((j, v) ∷ m) = if j == k then some v else find k m

  -- The keys, in the order of an iteration.
  pub keys : List (ℕ × V) → List ℕ
  keys [] = []
  keys ((j, v) ∷ m) = j ∷ keys m

  -- A new entry goes before the first larger key.
  unfoldable pub place : ℕ → V → List (ℕ × V) → List (ℕ × V)
  place k v [] = (k, v) ∷ []
  place k v ((j, w) ∷ m) = if ltb k j then (k, v) ∷ (j, w) ∷ m else (j, w) ∷ place k v m

  -- std::map::insert: a key that is there keeps its value.
  unfoldable pub insert : ℕ → V → List (ℕ × V) → List (ℕ × V)
  insert k v m = elim (find k m) [ none ↦ place k v m | some w ↦ m ]

  unfoldable pub erase : ℕ → List (ℕ × V) → List (ℕ × V)
  erase k [] = []
  erase k ((j, w) ∷ m) = let rest = erase k m in if j == k then rest else (j, w) ∷ rest

  -- A change of the object that an entry points to.
  unfoldable pub modify : ℕ → (V → V) → List (ℕ × V) → List (ℕ × V)
  modify k f [] = []
  modify k f ((j, w) ∷ m) = if j == k then (j, f w) ∷ modify k f m else (j, w) ∷ modify k f m

  abbrev pub map_value : (V → V) → Option V → Option V
  map_value f none = none
  map_value f (some v) = some (f v)

  pub find-cons :
      (k j : ℕ) (v : V) (m : List (ℕ × V))
      → find k ((j, v) ∷ m) ≡ (if j == k then some v else find k m)
  unfolding find
  find-cons k j v m = refl

  pub find-nil : (k : ℕ) → find k [] ≡ none
  unfolding find
  find-nil k = refl

  find-place :
      (k j : ℕ) (v : V) (m : List (ℕ × V))
      → find k m ≡ none
      → find j (place k v m) ≡ (if k == j then some v else find j m)
  unfolding find place
  find-place k j v [] h = refl
  find-place k j v ((i, w) ∷ m) h = ground (arith, find-place k j v m)

  pub find-insert :
      (k j : ℕ) (v : V) (m : List (ℕ × V))
      → find j (insert k v m)
        ≡ (elim (find j m) [ none ↦ if k == j then some v else none | some w ↦ some w ])
  unfolding insert
  find-insert k j v m = elim (Bool-cases (k == j)) [
    | inl e ↦ rw (sym ((==_iff k j).0 e)) (ground (arith, find-place k k v m))
    | inr e ↦ ground (arith, find-place k j v m)
  ]

  pub find-erase :
      (k j : ℕ) (m : List (ℕ × V)) → find j (erase k m) ≡ (if k == j then none else find j m)
  unfolding find erase
  find-erase k j [] = ground arith
  find-erase k j ((i, w) ∷ m) = ground (arith, find-erase k j m)

  pub find-modify :
      (k j : ℕ) (f : V → V) (m : List (ℕ × V))
      → find j (modify k f m) ≡ (if k == j then map_value f (find j m) else find j m)
  unfolding find modify
  find-modify k j f [] = ground arith
  find-modify k j f ((i, w) ∷ m) = ground (arith, find-modify k j f m)

  pub keys-modify : (k : ℕ) (f : V → V) (m : List (ℕ × V)) → keys (modify k f m) ≡ keys m
  unfolding keys modify
  keys-modify k f [] = refl
  keys-modify k f ((i, w) ∷ m) = ground (arith, keys-modify k f m)

  -- What is found after the object at a key was replaced: the new one, or what was there.
  pub find-replaced :
      (k j : ℕ) (v w x : V) (m : List (ℕ × V))
      → find k m ≡ some v
      → find j m ≡ some x
      → ((k ≡ j) × (x ≡ v) × (find j (modify k (λ _. w) m) ≡ some w))
        ⊎ ((k ≢ j) × (find j (modify k (λ _. w) m) ≡ some x))
  find-replaced k j v w x m ek ej = elim (Bool-cases (k == j)) [
    | inl e ↦
        let same : k ≡ j = ground (arith, e, ==_iff k j) in
        inl (
          same,
          some-injective x v (sym ej ∙ (rw (← same) ek)),
          find-modify k j (λ _. w) m ∙ rw (e, ej) refl,
        )
    | inr e ↦ inr (ground (arith, e, ==_iff k j), find-modify k j (λ _. w) m ∙ rw (e, ej) refl)
  ]

  -- A value for a key.
  abbrev pub Found : List (ℕ × V) → ℕ → Type ℓ
  Found m k = (v : V) × (find k m ≡ some v)

  Found-later : (m n : List (ℕ × V)) → ((k : ℕ) → Found m k → Found n k) → All (Found n) (keys m)
  unfolding keys
  Found-later [] n f = tt
  Found-later ((j, v) ∷ m) n f = (f j (v, here), Found-later m n (λ k h. f k (there k h)))
    where
      here : find j ((j, v) ∷ m) ≡ some v
      here = rw (find-cons j j v m) (ground (arith, ==_iff j j))

      there : (k : ℕ) → Found m k → Found ((j, v) ∷ m) k
      there k (x, e) = elim (Bool-cases (j == k)) [
        | inl same ↦ (v, rw (find-cons k j v m) (ground (arith, same)))
        | inr other ↦ (x, rw (find-cons k j v m) (ground (arith, other, e)))
      ]

  -- Each key has a value.
  pub keys-Found : (m : List (ℕ × V)) → All (Found m) (keys m)
  keys-Found m = Found-later m m (λ k h. h)
