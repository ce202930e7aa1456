-- ===== src/Algorithm.antt =====
-- internal/engine/algorithm: the four algorithms behind one interface, and the factory `New`.
pub mod Limit
pub mod Times
pub mod Counter
pub mod Direct
pub mod Count
pub mod Base
pub mod Leak
use koala_v.Prelude.{ℤ, Text, bytes, text_eq, Bool, if◌then◌else◌}
use koala_v.Storage.{Storage, Call, Action}
use koala_v.Algorithm.Limit.{LimitConfig}
use koala_v.Algorithm.Direct
use koala_v.Algorithm.Count
use koala_v.Algorithm.Base
use koala_v.Algorithm.Leak

pub data Algorithm : Type 0 where
  direct count base leak : Algorithm

-- An unknown type is Count.
unfoldable pub new : Text → Algorithm
new typ =
    if text_eq typ (bytes "direct")
    then direct
    else if text_eq typ (bytes "count")
    then count
    else if text_eq typ (bytes "base")
    then base
    else if text_eq typ (bytes "leak")
    then leak
    else count

unfoldable pub name : Algorithm → Text
name direct = bytes "direct"
name count = bytes "count"
name base = bytes "base"
name leak = bytes "leak"

module _ {S : Type 0} (store : Storage S) where
  unfoldable pub browse : Algorithm → ℤ → Text → LimitConfig → Call S Bool
  browse direct = Direct.browse store
  browse count = Count.browse store
  browse base = Base.browse store
  browse leak = Leak.browse store

  unfoldable pub update : Algorithm → ℤ → Text → LimitConfig → Action S
  update direct = Direct.update store
  update count = Count.update store
  update base = Base.update store
  update leak = Leak.update store
