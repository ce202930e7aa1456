-- ===== src/Storage/Local/Counters/Frame.antt =====
-- What one increment leaves in the map: the claimed entry, counted on, and all other entries.
use koala_v.Prelude.{
  ℤ, ◌+ℤ◌, wrap64, Text, Table, lookup, delete, text_eq, text_eq_iff, lookup-insert, lookup-delete,
  Option, none, some, ◌≡◌, arith, if◌then◌else◌,
}
use koala_v.Storage.Laws.{CounterEntry, still}
use koala_v.Storage.Local.Counters.{claim_entry, add_to}

-- The entry that is counted on: the live one, or the fresh one.
abbrev claimed : CounterEntry → Option CounterEntry → CounterEntry
claimed fresh none = fresh
claimed fresh (some e) = e

module _ (now : ℤ) (key : Text) (fresh : CounterEntry) (m : Table CounterEntry) where
  claim_entry-claimed : (claim_entry now key fresh m).0 ≡ claimed fresh (still now (lookup key m))
  unfolding claim_entry
  claim_entry-claimed = ground arith

  lookup-claim_entry :
      (j : Text)
      → lookup j (claim_entry now key fresh m).1
        ≡ (if text_eq key j then some (claim_entry now key fresh m).0 else lookup j m)
  unfolding claim_entry
  lookup-claim_entry j = ground (
    arith,
    text_eq_iff key j,
    lookup-insert key j fresh m,
    lookup-insert key j fresh (delete key m),
    lookup-delete key j m,
  )

  abbrev counted : ℤ → CounterEntry
  counted delta =
      let e = claimed fresh (still now (lookup key m)) in
      record e { value = wrap64 (e.value +ℤ delta) }

  pub value-add_to :
      (delta : ℤ) → (add_to key delta (claim_entry now key fresh m)).0 ≡ (counted delta).value
  unfolding add_to
  value-add_to delta = rw claim_entry-claimed

  pub lookup-add_to :
      (delta : ℤ) (j : Text)
      → lookup j (add_to key delta (claim_entry now key fresh m)).1
        ≡ (if text_eq key j then some (counted delta) else lookup j m)
  unfolding add_to
  lookup-add_to delta j =
      rw lookup-insert (ground (arith, lookup-claim_entry j, claim_entry-claimed))
