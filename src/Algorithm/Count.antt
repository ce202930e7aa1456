-- ===== src/Algorithm/Count.antt =====
-- internal/engine/algorithm/count.go: a counter whose deadline is set by its first increment.
pub mod Fixed
use koala_v.Prelude.{ℤ, leb_ℤ, Text, Bool, true, false, some, none}
use koala_v.Storage.{Storage, Call, Action, Error, key_not_found}
use koala_v.Algorithm.Limit.{LimitConfig}

module _ {S : Type 0} (store : Storage S) where
  unfoldable pub browse : ℤ → Text → LimitConfig → Call S Bool
  browse now key limit s =
      let (count, err, s') = store.get_int now key s in
      elim err [
        | some key_not_found ↦ (false, none, s')
        | some e ↦ (false, some e, s')
        | none ↦ (leb_ℤ limit.count count, none, s')
      ]

  unfoldable pub update : ℤ → Text → LimitConfig → Action S
  update now key limit s =
      let (count, err, s') = store.incr_with_ttl now key limit.time s in (err, s')
