-- ===== src/Storage/Laws.antt =====
-- What the algorithms rely on in a storage: a view of the live counters and of the lists, and what
-- each operation does to it. A backend fills these records by its theorems.
use koala_v.Prelude.{
  ℕ, suc, ℤ, pos, ◌+ℤ◌, ◌≤ℤ◌, ltb_ℤ, leb_ℤ, wrap64, Text, text_eq, Bool, false, ◌&&◌, Option, none,
  some, List, [], ◌∷◌, ◌++◌, length, reverse, ◌≡◌, if◌then◌else◌,
}
use koala_v.Storage.{Error, key_not_found, Storage}

pub record CounterEntry : Type 0 where
  pub value : ℤ
  pub expires : Option ℤ

-- `!expires.IsZero() && now.After(expires)`, with `none` for the zero time.
abbrev pub is_expired : ℤ → Option ℤ → Bool
is_expired now none = false
is_expired now (some t) = ltb_ℤ t now

-- What is left of an entry at an instant.
abbrev pub still : ℤ → Option CounterEntry → Option CounterEntry
still now none = none
still now (some e) = if is_expired now e.expires then none else some e

-- The deadline that a new entry gets.
abbrev pub deadline : ℤ → ℤ → Option ℤ
deadline now ttl = if ltb_ℤ (pos 0) ttl then some (now +ℤ ttl) else none

-- The entry after one increment: the deadline is kept, and set only on a new entry.
abbrev pub after_incr : ℤ → ℤ → Option CounterEntry → CounterEntry
after_incr now ttl none = record { value = wrap64 (pos 0 +ℤ pos 1); expires = deadline now ttl }
after_incr now ttl (some e) = record e { value = wrap64 (e.value +ℤ pos 1) }

abbrev pub value_of : Option CounterEntry → ℤ
value_of none = pos 0
value_of (some e) = e.value

abbrev pub missing : Option CounterEntry → Option Error
missing none = some key_not_found
missing (some e) = none

pub record CounterLaws {S : Type 0} (store : Storage S) : Type 1 where
  pub IsOpen : S → Type 0
  pub live : ℤ → Text → S → Option CounterEntry
  pub live-still :
      (now later : ℤ) (key : Text) (s : S)
      → now ≤ℤ later
      → live later key s ≡ still later (live now key s)
  pub get_int-value :
      (now : ℤ) (key : Text) (s : S)
      → IsOpen s
      → (store.get_int now key s).0 ≡ value_of (live now key s)
  pub get_int-error :
      (now : ℤ) (key : Text) (s : S)
      → IsOpen s
      → (store.get_int now key s).1 ≡ missing (live now key s)
  pub get_int-IsOpen :
      (now : ℤ) (key : Text) (s : S) → IsOpen s → IsOpen (store.get_int now key s).2
  pub live-get_int :
      (now later : ℤ) (key j : Text) (s : S)
      → now ≤ℤ later
      → IsOpen s
      → live later j (store.get_int now key s).2 ≡ live later j s
  pub incr_with_ttl-value :
      (now : ℤ) (key : Text) (ttl : ℤ) (s : S)
      → IsOpen s
      → (store.incr_with_ttl now key ttl s).0 ≡ (after_incr now ttl (live now key s)).value
  pub incr_with_ttl-error :
      (now : ℤ) (key : Text) (ttl : ℤ) (s : S)
      → IsOpen s
      → (store.incr_with_ttl now key ttl s).1 ≡ none
  pub incr_with_ttl-IsOpen :
      (now : ℤ) (key : Text) (ttl : ℤ) (s : S)
      → IsOpen s
      → IsOpen (store.incr_with_ttl now key ttl s).2
  pub live-incr_with_ttl :
      (now later : ℤ) (key j : Text) (ttl : ℤ) (s : S)
      → now ≤ℤ later
      → IsOpen s
      → live later j (store.incr_with_ttl now key ttl s).2 ≡ (
          if text_eq key j
          then still later (some (after_incr now ttl (live now key s)))
          else live later j s)

-- A negative index counts from the end.
abbrev pub resolve : ℕ → ℤ → ℤ
resolve len i = if ltb_ℤ i (pos 0) then pos len +ℤ i else i

-- The elements whose position, counted from `i`, lies between two bounds, both included.
unfoldable pub between {ℓ} : {A : Type ℓ} → ℕ → ℤ → ℤ → List A → List A
between i lo hi [] = []
between i lo hi (x ∷ xs) =
    let rest = between (suc i) lo hi xs in
    if leb_ℤ lo (pos i) && leb_ℤ (pos i) hi then x ∷ rest else rest

-- What LRANGE and LTRIM select.
unfoldable pub window {ℓ} : {A : Type ℓ} → ℤ → ℤ → List A → List A
window start stop xs = between 0 (resolve (length xs) start) (resolve (length xs) stop) xs

pub record ListLaws {S : Type 0} (store : Storage S) : Type 1 where
  pub IsOpen : S → Type 0
  pub items : Text → S → List ℤ
  pub l_range-value :
      (now : ℤ) (key : Text) (start stop : ℤ) (s : S)
      → IsOpen s
      → (store.l_range now key start stop s).0 ≡ window start stop (items key s)
  pub l_range-error :
      (now : ℤ) (key : Text) (start stop : ℤ) (s : S)
      → IsOpen s
      → (store.l_range now key start stop s).1 ≡ none
  pub l_range-state :
      (now : ℤ) (key : Text) (start stop : ℤ) (s : S)
      → IsOpen s
      → (store.l_range now key start stop s).2 ≡ s
  pub l_len-value :
      (now : ℤ) (key : Text) (s : S)
      → IsOpen s
      → (store.l_len now key s).0 ≡ pos (length (items key s))
  pub l_len-error : (now : ℤ) (key : Text) (s : S) → IsOpen s → (store.l_len now key s).1 ≡ none
  pub l_len-state : (now : ℤ) (key : Text) (s : S) → IsOpen s → (store.l_len now key s).2 ≡ s
  pub l_trim-error :
      (now : ℤ) (key : Text) (start stop : ℤ) (s : S)
      → IsOpen s
      → (store.l_trim now key start stop s).0 ≡ none
  pub l_trim-IsOpen :
      (now : ℤ) (key : Text) (start stop : ℤ) (s : S)
      → IsOpen s
      → IsOpen (store.l_trim now key start stop s).1
  pub items-l_trim :
      (now : ℤ) (key j : Text) (start stop : ℤ) (s : S)
      → IsOpen s
      → items j (store.l_trim now key start stop s).1
        ≡ (if text_eq key j then window start stop (items key s) else items j s)
  pub l_push-error :
      (now : ℤ) (key : Text) (values : List ℤ) (s : S)
      → IsOpen s
      → (store.l_push now key values s).0 ≡ none
  pub l_push-IsOpen :
      (now : ℤ) (key : Text) (values : List ℤ) (s : S)
      → IsOpen s
      → IsOpen (store.l_push now key values s).1
  pub items-l_push :
      (now : ℤ) (key j : Text) (values : List ℤ) (s : S)
      → IsOpen s
      → items j (store.l_push now key values s).1
        ≡ (if text_eq key j then reverse values ++ items key s else items j s)
