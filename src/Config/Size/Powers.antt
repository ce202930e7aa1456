-- ===== src/Config/Size/Powers.antt =====
-- The units of ParseSize and the powers that they stand for.
use mathlib.Core.Path.{subst}
use koala_v.Prelude.{
  ℕ, ◌*◌, ◌^◌, ◌==◌, Text, bytes, text_eq, text_eq_iff, Table, lookup, [], ◌∷◌, Bool, true, false,
  ◌&&◌, none, some, ◌≡◌, refl, ap, ◌∙◌, arith, Bool-cases, Option-cases, inl, inr,
}
use koala_v.Config.Size.{to_upper, multiplier_of}

-- The units, in every case of their letters, with the power of 1024 that each stands for.
abbrev pub units : Table ℕ
units =
    ([], 0)
    ∷ (bytes "K", 1)
    ∷ (bytes "KB", 1)
    ∷ (bytes "Kb", 1)
    ∷ (bytes "k", 1)
    ∷ (bytes "kB", 1)
    ∷ (bytes "kb", 1)
    ∷ (bytes "M", 2)
    ∷ (bytes "MB", 2)
    ∷ (bytes "Mb", 2)
    ∷ (bytes "m", 2)
    ∷ (bytes "mB", 2)
    ∷ (bytes "mb", 2)
    ∷ (bytes "G", 3)
    ∷ (bytes "GB", 3)
    ∷ (bytes "Gb", 3)
    ∷ (bytes "g", 3)
    ∷ (bytes "gB", 3)
    ∷ (bytes "gb", 3)
    ∷ (bytes "T", 4)
    ∷ (bytes "TB", 4)
    ∷ (bytes "Tb", 4)
    ∷ (bytes "t", 4)
    ∷ (bytes "tB", 4)
    ∷ (bytes "tb", 4)
    ∷ []

-- Whether ParseSize takes a text for a unit of that power.
abbrev scales : Text → ℕ → Bool
scales u k = elim (multiplier_of (to_upper u)) [ none ↦ false | some m ↦ m == 2 ^ (10 * k) ]

abbrev scales_all : Table ℕ → Bool
scales_all [] = true
scales_all ((u, k) ∷ m) = scales u k && scales_all m

units-scales : scales_all units ≡ true
unfolding multiplier_of text_eq
units-scales = refl

lookup-scales :
    (m : Table ℕ) (u : Text) (k : ℕ) → scales_all m ≡ true → lookup u m ≡ some k → scales u k ≡ true
unfolding lookup
lookup-scales [] u k a h = absurd (ground (arith, h))
lookup-scales ((v, j) ∷ m) u k a h = elim (Bool-cases (text_eq v u)) [
  | inl same ↦
      let e : j ≡ k = ground (arith, h, same) in
      let here : scales v j ≡ true = ground (arith, a) in
      subst (λ x. scales x k ≡ true) ((text_eq_iff v u).0 same)
        (subst (λ i. scales v i ≡ true) e here)
  | inr other ↦ lookup-scales m u k (ground (arith, a)) (ground (arith, h, other))
]

multiplier_of-scales :
    (u : Text) (k : ℕ) → scales u k ≡ true → multiplier_of (to_upper u) ≡ some (2 ^ (10 * k))
multiplier_of-scales u k h = elim (Option-cases (multiplier_of (to_upper u))) [
  | inl gone ↦ absurd (ground (arith, h, gone))
  | inr (m, e) ↦ e ∙ ap (λ x. some x) (ground (arith, h, e))
]

pub multiplier_of-units :
    (u : Text) (k : ℕ) → lookup u units ≡ some k → multiplier_of (to_upper u) ≡ some (2 ^ (10 * k))
multiplier_of-units u k h = multiplier_of-scales u k (lookup-scales units u k units-scales h)
