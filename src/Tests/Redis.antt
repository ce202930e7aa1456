-- ===== src/Tests/Redis.antt =====
-- The theorems of RedisStorage on a small server.
use koala_v.Prelude.{
  ℤ, pos, negsuc, ◌+ℤ◌, leb_ℤ, ltb_ℤ, IsInt64, two63, ◌-◌, ◌*ℤ◌, Text, bytes, text_eq, text_eq_iff,
  Table, lookup, insert, delete, lookup-insert, lookup-delete, List, [], ◌∷◌, ◌++◌, reverse, map,
  length, Bool, true, false, Option, none, some, ◌≡◌, refl, ap, ◌∙◌, arith, if◌then◌else◌,
  Bool-cases, inl, inr,
}
use koala_v.Matcher.Number.{parse_int, parse_uint, parse_digits}
use koala_v.Storage.{Storage, storage_closed}
use koala_v.Storage.Laws.{window, CounterEntry}
use koala_v.Storage.Sequences.{ListOp, push, range, len, Lists, replies, replies_spec}
use koala_v.Storage.Redis.{Client, failed, new}
use koala_v.Storage.Redis.Instance.{redis_storage}
use koala_v.Storage.Redis.Server.{ListServer}
use koala_v.Storage.Redis.Lists.{redis_replies, local-redis_replies}
use koala_v.Storage.Redis.Counters.{CounterServer, raised, with_deadline}
use koala_v.Api.Numbers.{int_to_string}
use koala_v.Api.Numbers.Printed.{parse_int-int_to_string}
use koala_v.Tests.Data.{cache, store, empty}

abbrev smallest : ℤ
smallest = negsuc (two63 - 1)

abbrev or_empty : Option Text → Text
or_empty none = []
or_empty (some t) = t

format : ℤ → Text
format z = if leb_ℤ z smallest then bytes "-9223372036854775808" else or_empty (int_to_string z)

parse-format_smallest : parse_int (bytes "-9223372036854775808") ≡ some smallest
unfolding parse_int parse_uint parse_digits
parse-format_smallest = refl

smallest_of : (v : ℤ) → IsInt64 v → leb_ℤ v smallest ≡ true → smallest ≡ v
smallest_of v h e = ground (arith, e)

parse-format : (v : ℤ) → IsInt64 v → parse_int (format v) ≡ some v
unfolding format
parse-format v h = elim (Bool-cases (leb_ℤ v smallest)) [
  | inl e ↦
      let printed : parse_int (format v) ≡ some smallest =
        ground (arith, e, parse-format_smallest) in
      printed ∙ ap some (smallest_of v h e)
  | inr e ↦ let (t, p, r) = parse_int-int_to_string v h in ground (arith, e, p, r)
]

-- A client whose commands do nothing.
abbrev pub idle : {C : Type 0} → Client C
idle = record {
  nil_text = bytes "redis: nil";
  parse_text = λ t. t;
  get = λ now key c. ([], none, c);
  get_int64 = λ now key c. (pos 0, none, c);
  set = λ now key value ttl c. (none, c);
  set_int64 = λ now key value ttl c. (none, c);
  del = λ now key c. (none, c);
  exists = λ now key c. (pos 0, none, c);
  expire = λ now key ttl c. (false, none, c);
  incr = λ now key c. (pos 0, none, c);
  incr_by = λ now key delta c. (pos 0, none, c);
  p_expire = λ now key ms c. (false, none, c);
  eval = λ f c. f c;
  l_push = λ now key values c. (none, c);
  l_len = λ now key c. (pos 0, none, c);
  l_index = λ now key index c. ([], none, c);
  l_trim = λ now key start stop c. (none, c);
  l_range = λ now key start stop c. ([], none, c);
  ping = λ now c. (none, c);
  close = λ c. (none, c);
}

-- A server of lists.
abbrev elements_of : Option (List Text) → List Text
elements_of none = []
elements_of (some ts) = ts

abbrev elements : Text → Table (List Text) → List Text
elements key c = elements_of (lookup key c)

abbrev list_client : Client (Table (List Text))
list_client = record idle {
  l_push = λ now key values c. elim values [
    | [] ↦ (some (failed (bytes "ERR wrong number of arguments for 'lpush' command")), c)
    | v ∷ vs ↦ (none, insert key (reverse (map format (v ∷ vs)) ++ elements key c) c)
  ];
  l_len = λ now key c. (pos (length (elements key c)), none, c);
  l_trim = λ now key start stop c. (none, insert key (window start stop (elements key c)) c);
  l_range = λ now key start stop c. (window start stop (elements key c), none, c);
}

abbrev Up : {C : Type 0} → C → Type 0
Up c = Unit

lists : ListServer list_client
lists = record {
  IsUp = Up;
  elements = elements;
  format = format;
  parse-format = parse-format;
  l_push-error = λ now key v vs c u. refl;
  l_push-IsUp = λ now key v vs c u. tt;
  elements-l_push = λ now key j v vs c u.
      ground (arith, lookup-insert key j (reverse (map format (v ∷ vs)) ++ elements key c) c);
  l_trim-error = λ now key start stop c u. refl;
  l_trim-IsUp = λ now key start stop c u. tt;
  elements-l_trim = λ now key j start stop c u.
      ground (arith, lookup-insert key j (window start stop (elements key c)) c);
  l_range-reply = λ now key start stop c u. refl;
  l_len-reply = λ now key c u. refl;
}

-- A server of counters.
abbrev expired_or : Bool → ℤ → Option CounterEntry → Text → Table CounterEntry → Table CounterEntry
expired_or true t none key c = c
expired_or true t (some e) key c = insert key (record e { expires = some t }) c
expired_or false t o key c = delete key c

abbrev counter_client : Client (Table CounterEntry)
counter_client = record idle {
  incr = λ now key c. ((raised (lookup key c)).value, none, insert key (raised (lookup key c)) c);
  p_expire = λ now key ms c.
      (true, none, expired_or (ltb_ℤ (pos 0) ms) (now +ℤ ms *ℤ pos 1000000) (lookup key c) key c);
}

abbrev live : ℤ → Text → Table CounterEntry → Option CounterEntry
live now key c = lookup key c

live-expired_or :
    (b : Bool) (t : ℤ) (o : Option CounterEntry) (key j : Text) (c : Table CounterEntry)
    → lookup key c ≡ o
    → lookup j (expired_or b t o key c)
      ≡ (if text_eq key j then (if b then with_deadline t o else none) else lookup j c)
live-expired_or true t none key j c h = ground (arith, h, text_eq_iff key j)
live-expired_or true t (some e) key j c h =
    ground (arith, lookup-insert key j (record e { expires = some t }) c)
live-expired_or false t o key j c h = ground (arith, lookup-delete key j c)

counters : CounterServer counter_client
counters = record {
  IsUp = Up;
  live = live;
  eval-reply = λ f c u. refl;
  incr-value = λ now key c u h. refl;
  incr-error = λ now key c u h. refl;
  incr-IsUp = λ now key c u. tt;
  live-incr = λ now key j c u h. lookup-insert key j (raised (lookup key c)) c;
  p_expire-error = λ now key ms c u. refl;
  live-p_expire = λ now key j ms c u. live-expired_or (ltb_ℤ (pos 0) ms) _ _ key j c refl;
}

abbrev ops : List (ℤ × ListOp)
ops =
    (pos 1, push (bytes "k") (pos 7 ∷ pos 8 ∷ []))
    ∷ (pos 2, range (bytes "k") (pos 0) (negsuc 0))
    ∷ (pos 3, len (bytes "k"))
    ∷ []

abbrev nothing : Lists
nothing key = []

redis_replies_example :
    replies (redis_storage list_client) ops (new [] (bytes "koala:")) ≡ replies_spec ops nothing
unfolding lookup lists
redis_replies_example =
    redis_replies list_client lists ops nothing (new [] (bytes "koala:"))
      ((omega arith, (omega arith, tt)), (tt, (tt, tt))) (refl, tt, λ key. refl)

local-redis_replies_example :
    replies store ops empty ≡ replies (redis_storage list_client) ops (new [] (bytes "koala:"))
unfolding lookup lists koala_v.Storage.Local.Lists.Reads.local_list_laws
    koala_v.Storage.Local.Lists.Reads.items
local-redis_replies_example =
    local-redis_replies list_client lists cache ops nothing (new [] (bytes "koala:")) empty
      ((omega arith, (omega arith, tt)), (tt, (tt, tt))) (refl, tt, λ key. refl) (refl, λ key. refl)
