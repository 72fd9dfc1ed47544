-- ===== src/Sched/Table/Row.antt =====
-- Ten entries of a table.
use flexran_rtc.Base.{ℕ, List, [], ◌∷◌}

abbrev pub ten : ℕ → ℕ → ℕ → ℕ → ℕ → ℕ → ℕ → ℕ → ℕ → ℕ → List ℕ
ten a b c d e f g h i j = a ∷ b ∷ c ∷ d ∷ e ∷ f ∷ g ∷ h ∷ i ∷ j ∷ []
