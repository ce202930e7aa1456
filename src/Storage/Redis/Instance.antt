-- ===== src/Storage/Redis/Instance.antt =====
-- internal/storage/redis/redis.go: the operations.
use koala_v.Prelude.{
  ◌==◌, ℤ, pos, negsuc, ltb_ℤ, milliseconds, Text, bytes, List, [], ◌∷◌, Bool, true, false, Option,
  none, some, not, ◌++◌, if◌then◌else◌,
}
use mathlib.Core.Option
use koala_v.Matcher.Number.{parse_int}
use koala_v.Storage.{
  Storage, Call, Action, Error, backend, key_not_found, index_out_of_range, storage_closed,
}
use koala_v.Storage.Redis.{
  RedisError, nil_reply, failed, Client, Reply, Status, RedisStorage, key_of, wrap, error_text,
}

-- `val == 1`.
abbrev pub is_one : ℤ → Bool
is_one (pos n) = n == 1
is_one (negsuc n) = false

module _ {C : Type 0} (client : Client C) where
  -- A call that is refused when the storage is closed: its value then, the command, and what its
  -- answer becomes.
  unfoldable pub ask :
      {A B : Type 0}
      → B
      → Reply C A
      → (A → Option RedisError → B × Option Error)
      → Call (RedisStorage C) B
  ask zero command answer s =
      if s.closed
      then (zero, some storage_closed, s)
      else (let (value, err, c) = command s.client in
          let (v, e) = answer value err in (v, e, record s { client = c }))

  unfoldable pub tell : Text → Status C → Action (RedisStorage C)
  tell what command s =
      if s.closed
      then (some storage_closed, s)
      else (let (err, c) = command s.client in
          elim err [
            | none ↦ (none, record s { client = c })
            | some e ↦ (some (wrap client what e), record s { client = c })
          ])

  -- An error of the command is wrapped, and the value is dropped.
  abbrev or_error : {A : Type 0} → A → Text → A → Option RedisError → A × Option Error
  or_error zero what v none = (v, none)
  or_error zero what v (some e) = (zero, some (wrap client what e))

  -- The nil reply has an error of its own.
  abbrev pub or_missing : {A : Type 0} → A → Error → Text → A → Option RedisError → A × Option Error
  or_missing zero missing what v none = (v, none)
  or_missing zero missing what v (some nil_reply) = (zero, some missing)
  or_missing zero missing what v (some (failed t)) = (zero, some (wrap client what (failed t)))

  unfoldable pub get : ℤ → Text → Call (RedisStorage C) Text
  unfolding ask
  get now key s =
      ask [] (client.get now (key_of s key)) (or_missing [] key_not_found (bytes "redis get")) s

  unfoldable pub set : ℤ → Text → Text → ℤ → Action (RedisStorage C)
  unfolding tell
  set now key value ttl s = tell (bytes "redis set") (client.set now (key_of s key) value ttl) s

  unfoldable pub delete : ℤ → Text → Action (RedisStorage C)
  unfolding tell
  delete now key s = tell (bytes "redis del") (client.del now (key_of s key)) s

  abbrev pub positive : Text → ℤ → Option RedisError → Bool × Option Error
  positive what n none = (ltb_ℤ (pos 0) n, none)
  positive what n (some e) = (false, some (wrap client what e))

  unfoldable pub exists : ℤ → Text → Call (RedisStorage C) Bool
  unfolding ask
  exists now key s =
      ask false (client.exists now (key_of s key)) (positive (bytes "redis exists")) s

  unfoldable pub expire : ℤ → Text → ℤ → Action (RedisStorage C)
  expire now key ttl s =
      if s.closed
      then (some storage_closed, s)
      else (let (ok, err, c) = client.expire now (key_of s key) ttl s.client in
          elim err [
            | some e ↦ (some (wrap client (bytes "redis expire") e), record s { client = c })
            | none ↦ (if not ok then some key_not_found else none, record s { client = c })
          ])

  unfoldable pub get_int : ℤ → Text → Call (RedisStorage C) ℤ
  unfolding ask
  get_int now key s =
      ask (pos 0) (client.get_int64 now (key_of s key))
        (or_missing (pos 0) key_not_found (bytes "redis getint")) s

  unfoldable pub set_int : ℤ → Text → ℤ → ℤ → Action (RedisStorage C)
  unfolding tell
  set_int now key value ttl s =
      tell (bytes "redis setint") (client.set_int64 now (key_of s key) value ttl) s

  unfoldable pub incr : ℤ → Text → Call (RedisStorage C) ℤ
  unfolding ask
  incr now key s =
      ask (pos 0) (client.incr now (key_of s key)) (or_error (pos 0) (bytes "redis incr")) s

  unfoldable pub incr_by : ℤ → Text → ℤ → Call (RedisStorage C) ℤ
  unfolding ask
  incr_by now key delta s =
      ask (pos 0) (client.incr_by now (key_of s key) delta)
        (or_error (pos 0) (bytes "redis incrby")) s

  -- The Lua script: an error of `redis.call` ends it.
  unfoldable pub incr_script : ℤ → Text → ℤ → Reply C ℤ
  incr_script now key ms c =
      let (val, err, c₁) = client.incr now key c in
      elim err [
        | some e ↦ (pos 0, some e, c₁)
        | none ↦
            if is_one val
            then (let (ok, err', c₂) = client.p_expire now key ms c₁ in
                elim err' [ some e ↦ (pos 0, some e, c₂) | none ↦ (val, none, c₂) ])
            else (val, none, c₁)
      ]

  unfoldable pub incr_with_ttl : ℤ → Text → ℤ → Call (RedisStorage C) ℤ
  unfolding ask incr_script
  incr_with_ttl now key ttl s =
      ask (pos 0) (client.eval (incr_script now (key_of s key) (milliseconds ttl)))
        (or_error (pos 0) (bytes "redis incrwithttl")) s

  unfoldable pub l_push : ℤ → Text → List ℤ → Action (RedisStorage C)
  unfolding tell
  l_push now key values s = tell (bytes "redis lpush") (client.l_push now (key_of s key) values) s

  unfoldable pub l_len : ℤ → Text → Call (RedisStorage C) ℤ
  unfolding ask
  l_len now key s =
      ask (pos 0) (client.l_len now (key_of s key)) (or_error (pos 0) (bytes "redis llen")) s

  -- An element, which has to be a number.
  abbrev parsed : Text → Text → Option ℤ → ℤ × Option Error
  parsed what t (some v) = (v, none)
  parsed what t none = (pos 0, some (backend (what ++ bytes ": " ++ client.parse_text t)))

  abbrev pub parse_element : Text → Option RedisError → ℤ × Option Error
  parse_element t none = parsed (bytes "redis lindex parse") t (parse_int t)
  parse_element t (some nil_reply) = (pos 0, some index_out_of_range)
  parse_element t (some (failed e)) = (pos 0, some (wrap client (bytes "redis lindex") (failed e)))

  unfoldable pub l_index : ℤ → Text → ℤ → Call (RedisStorage C) ℤ
  unfolding ask
  l_index now key index s = ask (pos 0) (client.l_index now (key_of s key) index) parse_element s

  unfoldable pub l_trim : ℤ → Text → ℤ → ℤ → Action (RedisStorage C)
  unfolding tell
  l_trim now key start stop s =
      tell (bytes "redis ltrim") (client.l_trim now (key_of s key) start stop) s

  -- The loop over the elements of a range, up to the first that is not a number.
  unfoldable pub parse_all : List Text → List ℤ × Option Error
  parse_all [] = ([], none)
  parse_all (t ∷ ts) =
      let (rest, err) = parse_all ts in
      elim (parse_int t) [
        | none ↦ ([], (parsed (bytes "redis lrange parse") t none).1)
        | some v ↦ elim err [ none ↦ (v ∷ rest, none) | some e ↦ ([], some e) ]
      ]

  abbrev parse_elements : List Text → Option RedisError → List ℤ × Option Error
  parse_elements ts none = parse_all ts
  parse_elements ts (some e) = ([], some (wrap client (bytes "redis lrange") e))

  unfoldable pub l_range : ℤ → Text → ℤ → ℤ → Call (RedisStorage C) (List ℤ)
  unfolding ask parse_all
  l_range now key start stop s =
      ask [] (client.l_range now (key_of s key) start stop) parse_elements s

  unfoldable pub ping : ℤ → Action (RedisStorage C)
  unfolding tell
  ping now s = tell (bytes "redis ping") (client.ping now) s

  -- The error of the client's own Close is passed on as it is.
  unfoldable pub close : Action (RedisStorage C)
  close s =
      if s.closed
      then (none, s)
      else (let (err, c) = client.close s.client in
          (
            Option.map (λ e. backend (error_text client e)) err,
            record s { client = c; closed = true },
          ))

  abbrev pub redis_storage : Storage (RedisStorage C)
  redis_storage = record {
    get = get;
    set = set;
    delete = delete;
    exists = exists;
    expire = expire;
    get_int = get_int;
    set_int = set_int;
    incr = incr;
    incr_by = incr_by;
    incr_with_ttl = incr_with_ttl;
    l_push = l_push;
    l_len = l_len;
    l_index = l_index;
    l_trim = l_trim;
    l_range = l_range;
    ping = ping;
    close = close;
    type_name = λ s. bytes "redis";
  }
