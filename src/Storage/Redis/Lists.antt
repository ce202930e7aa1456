-- ===== src/Storage/Redis/Lists.antt =====
-- RedisStorage and the specification of lists by key.
use koala_v.Prelude.{
  ℤ, pos, IsInt64, Text, text_eq, List, [], ◌∷◌, ◌++◌, reverse, map, length, All, false, none, some,
  ◌≡◌, refl, sym, ap, ◌∙◌, arith, if◌then◌else◌,
}
use mathlib.Core.List.{map-append}
use koala_v.Matcher.Number.{parse_int}
use koala_v.Storage.Laws.{window}
use koala_v.Storage.Sequences.{
  ListOp, push, trim, range, len, number, perform, Lists, put, perform_spec, OpFits, AllFit,
  Implements, replies, replies_spec, replies-Implements, Anything, ShowsItems, ListLaws-Implements,
}
use koala_v.Storage.Local.{LocalStorage, Ristretto}
use koala_v.Storage.Local.Instance.{local_storage}
use koala_v.Storage.Local.Lists.Reads.{local_list_laws}
use koala_v.Storage.Redis.{Client, RedisStorage, key_of}
use koala_v.Storage.Redis.Instance.{
  l_push, l_len, l_trim, l_range, redis_storage, parse_all, ask, tell,
}
use koala_v.Storage.Redis.Server.{ListServer}
use koala_v.Storage.Redis.Texts.{length-map, window-map, map-reverse, text_eq_prefix}

module _ {C : Type 0} (client : Client C) (server : ListServer client) where
  -- The elements of a key are numbers, in decimal, and those of the specification.
  abbrev Holds : List ℤ → List Text → Type 0
  Holds xs ts = map parse_int ts ≡ map some xs

  parse_all-Holds : (ts : List Text) (xs : List ℤ) → Holds xs ts → parse_all client ts ≡ (xs, none)
  unfolding parse_all
  parse_all-Holds [] [] h = refl
  parse_all-Holds [] (x ∷ xs) h = absurd (ground (arith, h))
  parse_all-Holds (t ∷ ts) [] h = absurd (ground (arith, h))
  parse_all-Holds (t ∷ ts) (x ∷ xs) h = ground (arith, h, parse_all-Holds ts xs)

  -- The storage is open, the server is up, and each key holds the specification's list.
  abbrev ShowsElements : Lists → RedisStorage C → Type 0
  ShowsElements f s =
      (s.closed ≡ false)
      × server.IsUp s.client
      × ((key : Text) → map parse_int (server.elements (key_of s key) s.client) ≡ map some (f key))

  -- What LPUSH is given: at least one value, each an int64.
  abbrev Pushable : List ℤ → Type 0
  Pushable [] = ⊥
  Pushable (v ∷ vs) = All IsInt64 (v ∷ vs)

  formatted : (values : List ℤ) → All IsInt64 values → Holds values (map server.format values)
  formatted [] h = refl
  formatted (v ∷ vs) (h, hs) = ground (arith, server.parse-format v h, formatted vs hs)

  pushed :
      (values xs : List ℤ) (ts : List Text)
      → All IsInt64 values
      → Holds xs ts
      → Holds (reverse values ++ xs) (reverse (map server.format values) ++ ts)
  pushed values xs ts a h =
      map-append parse_int (reverse (map server.format values)) ts
      ∙ cc (
        map-reverse parse_int (map server.format values),
        formatted values a,
        map-reverse some values,
        h,
      )
      ∙ sym (map-append some (reverse values) xs)

  trimmed :
      (start stop : ℤ) (xs : List ℤ) (ts : List Text)
      → Holds xs ts
      → Holds (window start stop xs) (window start stop ts)
  trimmed start stop xs ts h =
      sym (window-map parse_int start stop ts)
      ∙ ap (window start stop) h
      ∙ window-map some start stop xs

  length-Holds : (ts : List Text) (xs : List ℤ) → Holds xs ts → length ts ≡ length xs
  length-Holds ts xs h = sym (length-map parse_int ts) ∙ ap length h ∙ length-map some xs

  l_push-up :
      (now : ℤ) (key : Text) (v : ℤ) (vs : List ℤ) (s : RedisStorage C)
      → s.closed ≡ false
      → server.IsUp s.client
      → l_push client now key (v ∷ vs) s
        ≡ (none, record s { client = (client.l_push now (key_of s key) (v ∷ vs) s.client).1 })
  unfolding l_push tell
  l_push-up now key v vs s o up =
      ground (arith, o, server.l_push-error now (key_of s key) v vs s.client up)

  l_trim-up :
      (now : ℤ) (key : Text) (start stop : ℤ) (s : RedisStorage C)
      → s.closed ≡ false
      → server.IsUp s.client
      → l_trim client now key start stop s
        ≡ (none, record s { client = (client.l_trim now (key_of s key) start stop s.client).1 })
  unfolding l_trim tell
  l_trim-up now key start stop s o up =
      ground (arith, o, server.l_trim-error now (key_of s key) start stop s.client up)

  l_range-up :
      (now : ℤ) (key : Text) (start stop : ℤ) (xs : List ℤ) (s : RedisStorage C)
      → s.closed ≡ false
      → server.IsUp s.client
      → Holds xs (window start stop (server.elements (key_of s key) s.client))
      → l_range client now key start stop s ≡ (xs, none, s)
  unfolding l_range ask
  l_range-up now key start stop xs s o up h = ground (
    arith,
    o,
    server.l_range-reply now (key_of s key) start stop s.client up,
    parse_all-Holds (window start stop (server.elements (key_of s key) s.client)) xs h,
  )

  l_len-up :
      (now : ℤ) (key : Text) (s : RedisStorage C)
      → s.closed ≡ false
      → server.IsUp s.client
      → l_len client now key s ≡ (pos (length (server.elements (key_of s key) s.client)), none, s)
  unfolding l_len ask
  l_len-up now key s o up = ground (arith, o, server.l_len-reply now (key_of s key) s.client up)

  changed :
      (p key j : Text) (xs : List ℤ) (ts ts' : List Text) (f : Lists)
      → Holds xs ts
      → Holds (f j) ts'
      → Holds (put key xs f j) (if text_eq (p ++ key) (p ++ j) then ts else ts')
  changed p key j xs ts ts' f h h' = ground (arith, text_eq_prefix p key j, h, h')

  perform-ShowsElements :
      (now : ℤ) (op : ListOp) (f : Lists) (s : RedisStorage C)
      → OpFits Pushable op
      → ShowsElements f s
      → ((perform (redis_storage client) now op s).0 ≡ (perform_spec op f).0)
        × ShowsElements (perform_spec op f).1 (perform (redis_storage client) now op s).1
  perform-ShowsElements now (push key []) f s a h = elim a [ ]
  perform-ShowsElements now (push key (v ∷ vs)) f s a (o, up, h) =
      rw (l_push-up now key v vs s o up) (
        refl,
        (
          o,
          server.l_push-IsUp now (key_of s key) v vs s.client up,
          λ j.
              rw (server.elements-l_push now (key_of s key) (key_of s j) v vs s.client up)
                (changed s.key_prefix key j _ _ _ f (pushed (v ∷ vs) (f key) _ a (h key)) (h j)),
        ),
      )
  perform-ShowsElements now (trim key start stop) f s a (o, up, h) =
      rw (l_trim-up now key start stop s o up) (
        refl,
        (
          o,
          server.l_trim-IsUp now (key_of s key) start stop s.client up,
          λ j.
              rw (server.elements-l_trim now (key_of s key) (key_of s j) start stop s.client up)
                (changed s.key_prefix key j _ _ _ f (trimmed start stop (f key) _ (h key)) (h j)),
        ),
      )
  perform-ShowsElements now (range key start stop) f s a (o, up, h) =
      rw
        (l_range-up now key start stop (window start stop (f key)) s o up
          (trimmed start stop (f key) _ (h key)))
        (refl, (o, up, h))
  perform-ShowsElements now (len key) f s a (o, up, h) =
      rw (l_len-up now key s o up)
        (ap (λ n. number (pos n) none) (length-Holds _ (f key) (h key)), (o, up, h))

  redis-Implements : Implements (redis_storage client) Pushable ShowsElements
  redis-Implements = record { step = λ now op f s a h. perform-ShowsElements now op f s a h }

  -- With the list commands as documented: on a RedisStorage that is open, whose server is up and
  -- whose keys hold, in decimal, the lists of a specification, any sequence of pushes of one or
  -- more int64 values, trims, ranges and lengths is answered as the specification of lists by key
  -- answers it, without an error.
  pub redis_replies :
      (ops : List (ℤ × ListOp)) (f : Lists) (s : RedisStorage C)
      → AllFit Pushable ops
      → ShowsElements f s
      → replies (redis_storage client) ops s ≡ replies_spec ops f
  redis_replies ops f s a h =
      replies-Implements (redis_storage client) Pushable ShowsElements redis-Implements ops f s a h

AllFit-Anything :
    (Fits : List ℤ → Type 0) (ops : List (ℤ × ListOp)) → AllFit Fits ops → AllFit Anything ops
AllFit-Anything Fits [] h = tt
AllFit-Anything Fits ((now, push key values) ∷ ops) (a, h) = (tt, AllFit-Anything Fits ops h)
AllFit-Anything Fits ((now, trim key start stop) ∷ ops) (a, h) = (tt, AllFit-Anything Fits ops h)
AllFit-Anything Fits ((now, range key start stop) ∷ ops) (a, h) = (tt, AllFit-Anything Fits ops h)
AllFit-Anything Fits ((now, len key) ∷ ops) (a, h) = (tt, AllFit-Anything Fits ops h)

-- With the list commands as documented: an open LocalStorage and an open RedisStorage that start
-- from the same lists give the same answers to every sequence of pushes of one or more int64
-- values, trims, ranges and lengths.
pub local-redis_replies :
    {C D : Type 0} (client : Client C) (server : ListServer client) (cache : Ristretto D)
    (ops : List (ℤ × ListOp)) (f : Lists) (r : RedisStorage C) (l : LocalStorage D)
    → AllFit (Pushable client server) ops
    → ShowsElements client server f r
    → ShowsItems (local_list_laws cache) f l
    → replies (local_storage cache) ops l ≡ replies (redis_storage client) ops r
local-redis_replies client server cache ops f r l a h k =
    replies-Implements (local_storage cache) Anything (ShowsItems (local_list_laws cache))
      (ListLaws-Implements (local_storage cache) (local_list_laws cache)) ops f l
      (AllFit-Anything _ ops a) k
    ∙ sym (redis_replies client server ops f r a h)
