-- ===== src/Storage/Redis/Counters.antt =====
-- IncrWithTTL of RedisStorage, from the documented behaviour of INCR, PEXPIRE and scripts.
use koala_v.Prelude.{
  ℤ, pos, ◌+ℤ◌, ◌*ℤ◌, ◌<ℤ◌, ltb_ℤ, milliseconds, two63, Text, text_eq, Option, none, some, ◌≡◌,
  if◌then◌else◌,
}
use koala_v.Storage.Laws.{CounterEntry, value_of}
use koala_v.Storage.Redis.{Reply, Client}
use koala_v.Storage.Redis.Instance.{is_one}

-- A counter raised by one, and one that gets a deadline.
abbrev pub raised : Option CounterEntry → CounterEntry
raised none = record { value = pos 1; expires = none }
raised (some e) = record e { value = e.value +ℤ pos 1 }

abbrev pub with_deadline : ℤ → Option CounterEntry → Option CounterEntry
with_deadline t none = none
with_deadline t (some e) = some (record e { expires = some t })

-- While the server is up, the commands answer without an error: a script runs as one step; INCR
-- raises a counter below the largest int64, and starts a missing one at one, without a deadline;
-- PEXPIRE sets the deadline of a key, and deletes the key if the time is not positive. Each changes
-- its key alone.
pub record CounterServer {C : Type 0} (client : Client C) : Type 1 where
  pub IsUp : C → Type 0
  pub live : ℤ → Text → C → Option CounterEntry
  pub eval-reply : (f : Reply C ℤ) (c : C) → IsUp c → client.eval f c ≡ f c
  pub incr-value :
      (now : ℤ) (key : Text) (c : C)
      → IsUp c
      → value_of (live now key c) +ℤ pos 1 <ℤ pos two63
      → (client.incr now key c).0 ≡ (raised (live now key c)).value
  pub incr-error :
      (now : ℤ) (key : Text) (c : C)
      → IsUp c
      → value_of (live now key c) +ℤ pos 1 <ℤ pos two63
      → (client.incr now key c).1 ≡ none
  pub incr-IsUp : (now : ℤ) (key : Text) (c : C) → IsUp c → IsUp (client.incr now key c).2
  pub live-incr :
      (now : ℤ) (key j : Text) (c : C)
      → IsUp c
      → value_of (live now key c) +ℤ pos 1 <ℤ pos two63
      → live now j (client.incr now key c).2
        ≡ (if text_eq key j then some (raised (live now key c)) else live now j c)
  pub p_expire-error :
      (now : ℤ) (key : Text) (ms : ℤ) (c : C) → IsUp c → (client.p_expire now key ms c).1 ≡ none
  pub live-p_expire :
      (now : ℤ) (key j : Text) (ms : ℤ) (c : C)
      → IsUp c
      → live now j (client.p_expire now key ms c).2 ≡ (
          if text_eq key j
          then (if ltb_ℤ (pos 0) ms
              then with_deadline (now +ℤ ms *ℤ pos 1000000) (live now key c)
              else none)
          else live now j c)

-- The counter after IncrWithTTL. A counter that now stands at one gets the deadline, in whole
-- milliseconds, and is deleted at once if that is none.
abbrev pub counted : ℤ → ℤ → Option CounterEntry → Option CounterEntry
counted now ttl o =
    let e = raised o in
    if is_one e.value
    then (if ltb_ℤ (pos 0) (milliseconds ttl)
        then some (record e { expires = some (now +ℤ milliseconds ttl *ℤ pos 1000000) })
        else none)
    else some e
