-- ===== src/Algorithm/Direct.antt =====
-- internal/engine/algorithm/direct.go: the access rules always hit and count nothing.
use koala_v.Prelude.{ℤ, Text, Bool, true, none}
use koala_v.Storage.{Storage, Call, Action}
use koala_v.Algorithm.Limit.{LimitConfig}

module _ {S : Type 0} (store : Storage S) where
  unfoldable pub browse : ℤ → Text → LimitConfig → Call S Bool
  browse now key limit s = (true, none, s)

  unfoldable pub update : ℤ → Text → LimitConfig → Action S
  update now key limit s = (none, s)
