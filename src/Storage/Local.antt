-- ===== src/Storage/Local.antt =====
-- internal/storage/local/local.go: the in-memory backend. The cache of strings is the package
-- ristretto, whose calls are the parameter `Ristretto`; counters and lists are maps of the code.
-- Locks are not modelled: each operation is one step.
pub mod Counters
pub mod Lists
pub mod Strings
pub mod Cleanup
pub mod Instance
use koala_v.Prelude.{ℤ, Text, Table, Bool, false, Option, List, []}
use koala_v.Storage.Laws.{CounterEntry}

-- The calls that the code makes on `*ristretto.Cache[string, string]`.
pub record Ristretto (C : Type 0) : Type 0 where
  pub get : Text → C → Option Text × C
  pub set : Text → Text → ℤ → C → C
  pub set_with_ttl : Text → Text → ℤ → ℤ → C → C
  pub del : Text → C → C
  pub wait : C → C
  pub close : C → C

-- The source's `data` is `items`.
pub record ListEntry : Type 0 where
  pub items : List ℤ
  pub expires : Option ℤ

pub record LocalStorage (C : Type 0) : Type 0 where
  pub cache : C
  pub counters : Table CounterEntry
  pub lists : Table ListEntry
  pub ttls : Table ℤ
  pub closed : Bool

-- The state that `New` builds around a fresh cache.
abbrev pub new : {C : Type 0} → C → LocalStorage C
new c = record { cache = c; counters = []; lists = []; ttls = []; closed = false }
