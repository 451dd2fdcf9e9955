-- ===== src/Radix/Reach.antt =====
-- `radix_visit` of src/radix.cpp returns.
use kvtier.Prelude.{ℕ, ◌<◌, ◌≡◌, Option, some, List, [], ◌∷◌, ℤ}
use kvtier.Radix.{RadixNode}
use kvtier.Radix.Visit.{visit_loop}

-- a child that comes after the node `i`, of `m`
abbrev IsLater : ℕ → ℕ → Option ℕ → Type 0
IsLater i m c = (j : ℕ) × (c ≡ some j) × (i < j) × (j < m)

abbrev AllLater : ℕ → ℕ → List (Option ℕ) → Type 0
AllLater i m [] = Unit
AllLater i m (c ∷ cs) = IsLater i m c × AllLater i m cs

module _ {ℓ} {S : Type ℓ} (fn : ℕ → S → ℤ × S) (nodes : List RadixNode) where
  -- the loop returns from the stack
  abbrev Returns : List (Option ℕ) → Type ℓ
  Returns stk = (s : S) → (fuel : ℕ) × (r : ℤ × S) × (visit_loop fn fuel nodes stk s ≡ some r)
