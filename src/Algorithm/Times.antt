-- ===== src/Algorithm/Times.antt =====
-- Instants in order: what the theorems on the algorithms assume of a sequence of calls.
use koala_v.Prelude.{ℤ, ◌≤ℤ◌, List, [], ◌∷◌}

-- The instants stand in order between two others, equal ones allowed.
abbrev pub Until : ℤ → List ℤ → ℤ → Type 0
Until t [] now = t ≤ℤ now
Until t (u ∷ us) now = (t ≤ℤ u) × Until u us now
