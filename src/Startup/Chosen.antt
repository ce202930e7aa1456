-- ===== src/Startup/Chosen.antt =====
-- Which storage the program starts with.
use koala_v.Prelude.{
  bytes, text_eq, Bool, true, false, Option, none, some, ◌⊎◌, inl, inr, ◌≡◌, refl, arith,
}
use koala_v.Storage.Redis
use koala_v.Config.{Config}
use koala_v.Storage.Manager.{StorageManager, new_with_options}
use koala_v.Storage.Manager.Valid.{IsValid, new_with_options-IsValid}
use koala_v.Startup.{LocalOptions, local_options, redis_options, manager_options, init_storage}

module _ {R L : Type 0} (new_local : LocalOptions → Option L)
    (new_redis : Redis.Options → Option R) where
  -- A storage that the program starts with: the local one, or a valid manager on its primary, with
  -- the local one to fall back to.
  abbrev pub StartsWith : L → L ⊎ StorageManager R L → Type 0
  StartsWith l (inl l') = l' ≡ l
  StartsWith l (inr m) = IsValid m × (m.degraded ≡ false) × (m.fallback ≡ l)

  managed-IsValid : (r : R) (l : L) → IsValid (new_with_options manager_options r l)
  managed-IsValid r l = new_with_options-IsValid manager_options r l (omega arith)

  chosen :
      (cfg : Config) (l : L) (b : Bool) (o : Option R)
      → new_local (local_options cfg) ≡ some l
      → text_eq cfg.storage.typ (bytes "redis") ≡ b
      → new_redis (redis_options cfg) ≡ o
      → (x : L ⊎ StorageManager R L) × (init_storage new_local new_redis cfg ≡ some x)
        × StartsWith l x
  unfolding init_storage
  chosen cfg l false o h e k = (inl l, ground (arith, h, e), refl)
  chosen cfg l true none h e k = (inl l, ground (arith, h, e, k), refl)
  chosen cfg l true (some r) h e k = (
    inr (new_with_options manager_options r l),
    ground (arith, h, e, k),
    (managed-IsValid r l, refl, refl),
  )

  -- If the local storage can be made, initStorage returns no error: it gives that storage, or a
  -- manager that is valid, is not degraded and has that storage to fall back to.
  pub init_storage-StartsWith :
      (cfg : Config) (l : L)
      → new_local (local_options cfg) ≡ some l
      → (x : L ⊎ StorageManager R L) × (init_storage new_local new_redis cfg ≡ some x)
        × StartsWith l x
  init_storage-StartsWith cfg l h = chosen cfg l _ _ h refl refl
