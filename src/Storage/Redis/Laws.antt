-- ===== src/Storage/Redis/Laws.antt =====
-- A closed RedisStorage, and the laws of lists from the documented behaviour of the list commands.
use koala_v.Prelude.{ℤ, pos, Text, List, [], true, false, none, some, ◌≡◌, arith}
use koala_v.Storage.{storage_closed}
use koala_v.Storage.Redis.{Client, RedisStorage}
use koala_v.Storage.Redis.Instance.{
  get, set, delete, exists, expire, get_int, set_int, incr, incr_by, incr_with_ttl, l_push, l_len,
  l_index, l_trim, l_range, ping, close, ask, tell,
}

module _ {C : Type 0} (client : Client C) where
  -- What an operation of a closed storage answers: the error alone, and the state as it was, so
  -- that no command has been sent.
  abbrev pub Refuses : ℤ → ℤ → ℤ → Text → Text → List ℤ → RedisStorage C → Type 0
  Refuses now index stop key value values s =
      (get client now key s ≡ ([], some storage_closed, s))
      × (set client now key value index s ≡ (some storage_closed, s))
      × (delete client now key s ≡ (some storage_closed, s))
      × (exists client now key s ≡ (false, some storage_closed, s))
      × (expire client now key index s ≡ (some storage_closed, s))
      × (get_int client now key s ≡ (pos 0, some storage_closed, s))
      × (set_int client now key index stop s ≡ (some storage_closed, s))
      × (incr client now key s ≡ (pos 0, some storage_closed, s))
      × (incr_by client now key index s ≡ (pos 0, some storage_closed, s))
      × (incr_with_ttl client now key index s ≡ (pos 0, some storage_closed, s))
      × (l_push client now key values s ≡ (some storage_closed, s))
      × (l_len client now key s ≡ (pos 0, some storage_closed, s))
      × (l_index client now key index s ≡ (pos 0, some storage_closed, s))
      × (l_trim client now key index stop s ≡ (some storage_closed, s))
      × (l_range client now key index stop s ≡ ([], some storage_closed, s))
      × (ping client now s ≡ (some storage_closed, s))

  Refuses-closed :
      (now index stop : ℤ) (key value : Text) (values : List ℤ) (s : RedisStorage C)
      → s.closed ≡ true
      → Refuses now index stop key value values s
  unfolding get set delete exists expire get_int set_int incr incr_by incr_with_ttl l_push l_len
      l_index l_trim l_range ping ask tell
  Refuses-closed now index stop key value values s c = ground (arith, c)

  close-closed : (s : RedisStorage C) → (close client s).1.closed ≡ true
  unfolding close
  close-closed s = ground arith

  close_again : (s : RedisStorage C) → s.closed ≡ true → close client s ≡ (none, s)
  unfolding close
  close_again s c = ground (arith, c)

  -- After Close, whatever the client answers to it, every operation but Close returns
  -- ErrStorageClosed with the zero value, and leaves the state, the client's included, as it is;
  -- another Close returns nil and does the same.
  Refuses-close :
      (now index stop : ℤ) (key value : Text) (values : List ℤ) (s : RedisStorage C)
      → Refuses now index stop key value values (close client s).1
        × (close client (close client s).1 ≡ (none, (close client s).1))
  Refuses-close now index stop key value values s = (
    Refuses-closed now index stop key value values (close client s).1 (close-closed s),
    close_again (close client s).1 (close-closed s),
  )
