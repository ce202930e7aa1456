-- ===== src/Algorithm/Leak.antt =====
-- internal/engine/algorithm/leak.go: a list of timestamps for each key. The lock of each key makes
-- a call one step.
pub mod Expiry
pub mod Sliding
use koala_v.Prelude.{
  ℕ, zero, suc, ℤ, pos, negsuc, ◌-ℤ◌, leb_ℤ, wrap64, milliseconds, unix_milli, Text, length, List,
  [], ◌∷◌, Bool, false, Option, some, none, if◌then◌else◌,
}
use koala_v.Storage.{Storage, Call, Action}
use koala_v.Algorithm.Limit.{LimitConfig}

-- The first index whose timestamp is in the window; `none` is the -1 of the code.
unfoldable pub first_valid : ℤ → List ℤ → Option ℕ
first_valid window_start [] = none
first_valid window_start (ts ∷ values) =
    if leb_ℤ window_start ts
    then some 0
    else elim (first_valid window_start values) [ none ↦ none | some i ↦ some (suc i) ]

unfoldable pub window_start : ℤ → LimitConfig → ℤ
window_start now limit = wrap64 (unix_milli now -ℤ milliseconds limit.time)

module _ {S : Type 0} (store : Storage S) where
  -- The end of cleanExpired, for the values that LRange returned.
  unfoldable pub trim_expired : ℤ → Text → LimitConfig → List ℤ → Action S
  trim_expired now key limit values s = elim (first_valid (window_start now limit) values) [
    | none ↦ store.l_trim now key (pos 1) (pos 0) s
    | some zero ↦ (none, s)
    | some (suc i) ↦ store.l_trim now key (pos 0) (pos (length values) -ℤ pos (suc i) -ℤ pos 1) s
  ]

  unfoldable pub clean_expired : ℤ → Text → LimitConfig → Action S
  clean_expired now key limit s =
      let (values, err, s') = store.l_range now key (pos 0) (negsuc 0) s in
      elim err [
        | some e ↦ (some e, s')
        | none ↦ elim values [ [] ↦ (none, s') | v ∷ vs ↦ trim_expired now key limit (v ∷ vs) s' ]
      ]

  unfoldable pub browse : ℤ → Text → LimitConfig → Call S Bool
  browse now key limit s =
      let (err, s') = clean_expired now key limit s in
      elim err [
        | some e ↦ (false, some e, s')
        | none ↦
            let (len, err', s'') = store.l_len now key s' in
            elim err' [ some e ↦ (false, some e, s'') | none ↦ (leb_ℤ limit.count len, none, s'') ]
      ]

  unfoldable pub update : ℤ → Text → LimitConfig → Action S
  update now key limit s =
      let (err, s') = clean_expired now key limit s in
      elim err [ some e ↦ (some e, s') | none ↦ store.l_push now key (unix_milli now ∷ []) s' ]
