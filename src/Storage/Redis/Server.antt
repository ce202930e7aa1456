-- ===== src/Storage/Redis/Server.antt =====
-- The documented behaviour of the list commands of Redis and of go-redis, as hypotheses on a client.
use koala_v.Prelude.{
  ℤ, pos, IsInt64, Text, text_eq, List, ◌∷◌, ◌++◌, reverse, map, length, none, some, ◌≡◌,
  if◌then◌else◌,
}
use koala_v.Matcher.Number.{parse_int}
use koala_v.Storage.Laws.{window}
use koala_v.Storage.Redis.{Client}

-- While the server is up, the commands answer without an error: LPUSH, with at least one value, puts
-- the values in front, one after the other, LTRIM and LRANGE select a range of positions, a negative one counted from the
-- end, and LLEN counts; each changes the list of its key alone. go-redis writes an int64 so that it
-- reads back.
pub record ListServer {C : Type 0} (client : Client C) : Type 1 where
  pub IsUp : C → Type 0
  pub elements : Text → C → List Text
  pub format : ℤ → Text
  pub parse-format : (v : ℤ) → IsInt64 v → parse_int (format v) ≡ some v
  pub l_push-error :
      (now : ℤ) (key : Text) (v : ℤ) (vs : List ℤ) (c : C)
      → IsUp c
      → (client.l_push now key (v ∷ vs) c).0 ≡ none
  pub l_push-IsUp :
      (now : ℤ) (key : Text) (v : ℤ) (vs : List ℤ) (c : C)
      → IsUp c
      → IsUp (client.l_push now key (v ∷ vs) c).1
  pub elements-l_push :
      (now : ℤ) (key j : Text) (v : ℤ) (vs : List ℤ) (c : C)
      → IsUp c
      → elements j (client.l_push now key (v ∷ vs) c).1
        ≡ (if text_eq key j then reverse (map format (v ∷ vs)) ++ elements key c else elements j c)
  pub l_trim-error :
      (now : ℤ) (key : Text) (start stop : ℤ) (c : C)
      → IsUp c
      → (client.l_trim now key start stop c).0 ≡ none
  pub l_trim-IsUp :
      (now : ℤ) (key : Text) (start stop : ℤ) (c : C)
      → IsUp c
      → IsUp (client.l_trim now key start stop c).1
  pub elements-l_trim :
      (now : ℤ) (key j : Text) (start stop : ℤ) (c : C)
      → IsUp c
      → elements j (client.l_trim now key start stop c).1
        ≡ (if text_eq key j then window start stop (elements key c) else elements j c)
  pub l_range-reply :
      (now : ℤ) (key : Text) (start stop : ℤ) (c : C)
      → IsUp c
      → client.l_range now key start stop c ≡ (window start stop (elements key c), none, c)
  pub l_len-reply :
      (now : ℤ) (key : Text) (c : C)
      → IsUp c
      → client.l_len now key c ≡ (pos (length (elements key c)), none, c)
