-- ===== src/Storage/Local/Strings/Written.antt =====
-- What LocalStorage's string operations are expected to read: the calls, the entries that were
-- written, and what is documented of ristretto, which may lose an entry at any time.
use koala_v.Prelude.{
  ℤ, pos, ◌+ℤ◌, ltb_ℤ, Text, text_eq, Table, lookup, insert, delete as remove, List, [], ◌∷◌, true,
  false, Option, none, some, ◌≡◌, if◌then◌else◌,
}
use koala_v.Storage.{Error}
use koala_v.Storage.Local.{LocalStorage, Ristretto}
use koala_v.Storage.Local.Strings.{get, set, delete, exists, expire}

-- The documented behaviour of the cache: `may` is what a read of a key finds, if it finds anything.
-- SetWithTTL with a TTL below zero does nothing.
pub record CacheLaws {C : Type 0} (cache : Ristretto C) : Type 0 where
  pub may : Text → C → Option Text
  pub finds : (key v : Text) (c : C) → (cache.get key c).0 ≡ some v → may key c ≡ some v
  pub after_get : (key j : Text) (c : C) → may j (cache.get key c).1 ≡ may j c
  pub after_set :
      (key value j : Text) (cost : ℤ) (c : C)
      → may j (cache.set key value cost c) ≡ (if text_eq key j then some value else may j c)
  pub after_set_with_ttl :
      (key value j : Text) (cost ttl : ℤ) (c : C)
      → ltb_ℤ (pos 0) ttl ≡ true
      → may j (cache.set_with_ttl key value cost ttl c)
        ≡ (if text_eq key j then some value else may j c)
  pub after_same :
      (key value j : Text) (cost ttl : ℤ) (c : C)
      → may key c ≡ some value
      → may j (cache.set_with_ttl key value cost ttl c) ≡ may j c
  pub after_del :
      (key j : Text) (c : C) → may j (cache.del key c) ≡ (if text_eq key j then none else may j c)
  pub after_wait : (j : Text) (c : C) → may j (cache.wait c) ≡ may j c

pub data StringCall : Type 0 where
  get_call exists_call delete_call : Text → StringCall
  set_call : Text → Text → ℤ → StringCall
  expire_call : Text → ℤ → StringCall

-- What was written: a value, and its deadline if it has one.
abbrev pub Memory : Type 0
Memory = Table (Text × Option ℤ)

abbrev pub deadline : ℤ → ℤ → Option ℤ
deadline now ttl = if ltb_ℤ (pos 0) ttl then some (now +ℤ ttl) else none

abbrev pub expire_at : ℤ → Text → Option (Text × Option ℤ) → Memory → Memory
expire_at t key none m = m
expire_at t key (some (v, e)) m = insert key (v, some t) m

-- What a call that returns no error has written.
unfoldable pub remember : ℤ → StringCall → Option Error → Memory → Memory
remember now call (some e) m = m
remember now (get_call key) none m = m
remember now (exists_call key) none m = m
remember now (delete_call key) none m = remove key m
remember now (set_call key value ttl) none m = insert key (value, deadline now ttl) m
remember now (expire_call key ttl) none m = expire_at (now +ℤ ttl) key (lookup key m) m

-- The deadline, if there is one, has not passed.
abbrev pub IsFresh : ℤ → Option ℤ → Type 0
IsFresh now none = Unit
IsFresh now (some t) = ltb_ℤ t now ≡ false

module _ {C : Type 0} (cache : Ristretto C) where
  unfoldable pub apply : ℤ → StringCall → LocalStorage C → Option Error × LocalStorage C
  apply now (get_call key) s = let (v, err, s₁) = get cache now key s in (err, s₁)
  apply now (exists_call key) s = let (b, err, s₁) = exists cache now key s in (err, s₁)
  apply now (delete_call key) s = delete cache key s
  apply now (set_call key value ttl) s = set cache now key value ttl s
  apply now (expire_call key ttl) s = expire cache now key ttl s

  -- The calls in turn, each at its instant, and what they have written.
  unfoldable pub run : List (ℤ × StringCall) → LocalStorage C → Memory → LocalStorage C × Memory
  run [] s m = (s, m)
  run ((now, call) ∷ calls) s m =
      let (err, s₁) = apply now call s in run calls s₁ (remember now call err m)
