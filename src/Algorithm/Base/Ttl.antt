-- ===== src/Algorithm/Base/Ttl.antt =====
-- The two keys of Base, and the TTL of its total counter.
use koala_v.Prelude.{
  ℕ, ℤ, pos, ◌≤ℤ◌, ◌<ℤ◌, ◌*ℤ◌, wrap64, Text, bytes, text_eq, text_eq_iff, ◌++◌, [], ◌∷◌, Bool-cases,
  false, inl, inr, ◌≡◌, refl, ap, arith,
}
use koala_v.Algorithm.Base.{clamp_ttl, hour, week, total_key, secondary_key}

last_or : ℕ → Text → ℕ
last_or d [] = d
last_or d (x ∷ xs) = last_or x xs

last_or-append : (d : ℕ) (xs : Text) (y : ℕ) (ys : Text) → last_or d (xs ++ y ∷ ys) ≡ last_or y ys
unfolding last_or
last_or-append d [] y ys = refl
last_or-append d (x ∷ xs) y ys = last_or-append x xs y ys

-- The two keys of Base never meet, whatever the keys are made from: their last bytes differ.
pub keys_differ : (k j : Text) → text_eq (total_key k) (secondary_key j) ≡ false
unfolding last_or
keys_differ k j = elim (Bool-cases (text_eq (total_key k) (secondary_key j))) [
  | inl same ↦ absurd (
      omega (
        arith,
        ap (last_or 0) ((text_eq_iff _ _).0 same),
        last_or-append 0 k 58 (bytes "total"),
        last_or-append 0 j 58 (bytes "secondary"),
      ))
  | inr e ↦ e
]

pub keys_differ' : (k j : Text) → text_eq (secondary_key k) (total_key j) ≡ false
keys_differ' k j = ground (
  arith,
  keys_differ j k,
  text_eq_iff (secondary_key k) (total_key j),
  text_eq_iff (total_key j) (secondary_key k),
)

-- The TTL of the total counter lies between an hour and a week, for every configured time, also
-- when ten times that time overflows.
pub clamp_ttl_bounds : (time : ℤ) → (hour ≤ℤ clamp_ttl time) × (clamp_ttl time ≤ℤ week)
unfolding clamp_ttl
clamp_ttl_bounds time = ground arith

pub le-clamp_ttl : (time : ℤ) → pos 0 <ℤ time → time ≤ℤ week → time ≤ℤ clamp_ttl time
unfolding clamp_ttl wrap64 ◌*ℤ◌
le-clamp_ttl time h k = ground arith
