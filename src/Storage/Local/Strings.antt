-- ===== src/Storage/Local/Strings.antt =====
-- The string operations of LocalStorage over the cache: Get, Set, Delete, Exists, Expire, and the
-- TTL helpers isExpired, setTTL, clearTTL.
pub mod Written
pub mod Agrees
pub mod Fresh
use koala_v.Prelude.{
  ℤ, pos, ◌+ℤ◌, ltb_ℤ, Text, lookup, insert, delete as remove, length, [], Bool, true, false, none,
  some, if◌then◌else◌,
}
use koala_v.Storage.{Call, Action, key_not_found, storage_closed}
use koala_v.Storage.Local.{LocalStorage, Ristretto}

module _ {C : Type 0} where
  unfoldable pub has_expired : ℤ → Text → LocalStorage C → Bool
  has_expired now key s = elim (lookup key s.ttls) [ none ↦ false | some t ↦ ltb_ℤ t now ]

  unfoldable pub set_ttl : ℤ → Text → ℤ → LocalStorage C → LocalStorage C
  set_ttl now key ttl s = record s { ttls = insert key (now +ℤ ttl) s.ttls }

  unfoldable pub clear_ttl : Text → LocalStorage C → LocalStorage C
  clear_ttl key s = record s { ttls = remove key s.ttls }

  abbrev with_cache : (C → C) → LocalStorage C → LocalStorage C
  with_cache f s = record s { cache = f s.cache }

module _ {C : Type 0} (cache : Ristretto C) where
  unfoldable pub get : ℤ → Text → Call (LocalStorage C) Text
  unfolding has_expired
  get now key s =
      if s.closed
      then ([], some storage_closed, s)
      else if has_expired now key s
      then ([], some key_not_found, with_cache (cache.del key) s)
      else (let (found, c) = cache.get key s.cache in
          elim found [
            | none ↦ ([], some key_not_found, record s { cache = c })
            | some v ↦ (v, none, record s { cache = c })
          ])

  unfoldable pub set : ℤ → Text → Text → ℤ → Action (LocalStorage C)
  unfolding set_ttl clear_ttl
  set now key value ttl s =
      if s.closed
      then (some storage_closed, s)
      else (let cost = pos (length value) in
          let s' =
            if ltb_ℤ (pos 0) ttl
            then set_ttl now key ttl (with_cache (cache.set_with_ttl key value cost ttl) s)
            else clear_ttl key (with_cache (cache.set key value cost) s) in
          (none, with_cache cache.wait s'))

  unfoldable pub delete : Text → Action (LocalStorage C)
  unfolding clear_ttl
  delete key s =
      if s.closed
      then (some storage_closed, s)
      else (none, clear_ttl key (with_cache (cache.del key) s))

  unfoldable pub exists : ℤ → Text → Call (LocalStorage C) Bool
  unfolding has_expired
  exists now key s =
      if s.closed
      then (false, some storage_closed, s)
      else if has_expired now key s
      then (false, none, s)
      else (let (found, c) = cache.get key s.cache in
          elim found [
            | none ↦ (false, none, record s { cache = c })
            | some v ↦ (true, none, record s { cache = c })
          ])

  unfoldable pub expire : ℤ → Text → ℤ → Action (LocalStorage C)
  unfolding set_ttl
  expire now key ttl s =
      if s.closed
      then (some storage_closed, s)
      else (let (found, c) = cache.get key s.cache in
          elim found [
            | none ↦ (some key_not_found, record s { cache = c })
            | some v ↦
                let s' = record s { cache = cache.set_with_ttl key v (pos (length v)) ttl c } in
                (none, with_cache cache.wait (set_ttl now key ttl s'))
          ])
