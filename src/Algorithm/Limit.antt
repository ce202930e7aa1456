-- ===== src/Algorithm/Limit.antt =====
-- internal/engine/algorithm/interface.go: LimitConfig, the parameters of a limit.
use koala_v.Prelude.{ℤ}

-- The window in nanoseconds, the count that the window allows, and the threshold of Base.
pub record LimitConfig : Type 0 where
  pub time : ℤ
  pub count : ℤ
  pub base : ℤ
