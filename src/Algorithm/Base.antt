-- ===== src/Algorithm/Base.antt =====
-- internal/engine/algorithm/base.go: free up to a threshold, then a second counter.
pub mod Ttl
pub mod Updates
pub mod Bound
use koala_v.Prelude.{
  ℤ, pos, ◌*ℤ◌, leb_ℤ, ltb_ℤ, wrap64, Text, bytes, ◌++◌, Bool, true, false, Option, some, none,
  if◌then◌else◌,
}
use koala_v.Storage.{Storage, Call, Action, Error, key_not_found}
use koala_v.Algorithm.Limit.{LimitConfig}

abbrev pub hour : ℤ
hour = pos 3600000000000

abbrev pub week : ℤ
week = pos 604800000000000

-- `clamp(limit.Time * 10, 1 hour, 7 days)`; the product wraps around.
unfoldable pub clamp_ttl : ℤ → ℤ
clamp_ttl window_time =
    let ttl = wrap64 (window_time *ℤ pos 10) in
    let ttl' = if ltb_ℤ ttl hour then hour else ttl in if ltb_ℤ week ttl' then week else ttl'

-- `err != nil && err != storage.ErrKeyNotFound`.
abbrev pub is_failure : Option Error → Bool
is_failure none = false
is_failure (some key_not_found) = false
is_failure (some e) = true

abbrev pub total_key : Text → Text
total_key key = key ++ bytes ":total"

abbrev pub secondary_key : Text → Text
secondary_key key = key ++ bytes ":secondary"

module _ {S : Type 0} (store : Storage S) where
  unfoldable pub browse : ℤ → Text → LimitConfig → Call S Bool
  browse now key limit s =
      let (total, err, s') = store.get_int now (total_key key) s in
      if is_failure err
      then (false, err, s')
      else if leb_ℤ total limit.base
      then (false, none, s')
      else (let (count, err', s'') = store.get_int now (secondary_key key) s' in
          if is_failure err' then (false, err', s'') else (leb_ℤ limit.count count, none, s''))

  unfoldable pub update : ℤ → Text → LimitConfig → Action S
  update now key limit s =
      let (total, err, s') = store.incr_with_ttl now (total_key key) (clamp_ttl limit.time) s in
      elim err [
        | some e ↦ (some e, s')
        | none ↦
            if ltb_ℤ limit.base total
            then (let (count, err', s'') =
                  store.incr_with_ttl now (secondary_key key) limit.time s' in
                (err', s''))
            else (none, s')
      ]
