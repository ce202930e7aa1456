-- ===== src/Storage.antt =====
-- internal/storage/interface.go: the errors and the interface `Storage`. Go's `(value, error)` is a
-- pair whose second part is `none` for nil, and the state that the call leaves comes last.
-- The clock is an argument: `time.Now()` in nanoseconds, one instant for each call.
pub mod Laws
pub mod Between
pub mod Sequences
pub mod Closed
pub mod Local
pub mod Manager
pub mod Redis
use koala_v.Prelude.{ℤ, Text, Option, Bool, List}

-- The four sentinel errors, and any other error that a backend returns.
pub data Error : Type 0 where
  key_not_found index_out_of_range type_mismatch storage_closed : Error
  backend : Text → Error

-- A call that returns `(A, error)`, and one that returns `error` alone.
abbrev pub Call : Type 0 → Type 0 → Type 0
Call S A = S → A × Option Error × S

abbrev pub Action : Type 0 → Type 0
Action S = S → Option Error × S

-- Durations and instants are nanoseconds.
pub record Storage (S : Type 0) : Type 0 where
  pub get : ℤ → Text → Call S Text
  pub set : ℤ → Text → Text → ℤ → Action S
  pub delete : ℤ → Text → Action S
  pub exists : ℤ → Text → Call S Bool
  pub expire : ℤ → Text → ℤ → Action S
  pub get_int : ℤ → Text → Call S ℤ
  pub set_int : ℤ → Text → ℤ → ℤ → Action S
  pub incr : ℤ → Text → Call S ℤ
  pub incr_by : ℤ → Text → ℤ → Call S ℤ
  pub incr_with_ttl : ℤ → Text → ℤ → Call S ℤ
  pub l_push : ℤ → Text → List ℤ → Action S
  pub l_len : ℤ → Text → Call S ℤ
  pub l_index : ℤ → Text → ℤ → Call S ℤ
  pub l_trim : ℤ → Text → ℤ → ℤ → Action S
  pub l_range : ℤ → Text → ℤ → ℤ → Call S (List ℤ)
  pub ping : ℤ → Action S
  pub close : Action S
  pub type_name : S → Text
