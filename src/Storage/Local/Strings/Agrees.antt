-- ===== src/Storage/Local/Strings/Agrees.antt =====
-- What the cache of LocalStorage may find agrees with what was written, after each string operation.
use mathlib.Core.Path.{subst}
use koala_v.Prelude.{
  ℤ, pos, ◌+ℤ◌, ltb_ℤ, Text, text_eq, text_eq_iff, Table, lookup, insert, delete as remove, length,
  lookup-insert, lookup-delete, Option, none, some, ◌≡◌, refl, sym, ap, ◌∙◌, arith, if◌then◌else◌,
  Bool-cases, Option-cases, inl, inr,
}
use koala_v.Storage.Local.{LocalStorage, Ristretto, new}
use koala_v.Storage.Local.Strings.{get, set, delete, exists, expire, has_expired}
use koala_v.Storage.Local.Strings.Written.{
  CacheLaws, StringCall, get_call, exists_call, delete_call, set_call, expire_call, Memory,
  expire_at, remember, apply,
}

-- Setting a key to what it holds changes nothing.
pub unchanged :
    (key j v : Text) (f : Text → Option Text)
    → f key ≡ some v
    → f j ≡ (if text_eq key j then some v else f j)
unchanged key j v f here = elim (Bool-cases (text_eq key j)) [
  | inl same ↦ ap f (sym ((text_eq_iff key j).0 same)) ∙ here ∙ ground (arith, same)
  | inr other ↦ ground (arith, other)
]

module _ {C : Type 0} (cache : Ristretto C) (laws : CacheLaws cache) where
  -- Whatever the cache may still find was written, with the deadline that the storage has for it.
  abbrev Known : Text → Text → Table ℤ → Memory → Type 0
  Known key v ttls m = (e : Option ℤ) × (lookup key m ≡ some (v, e)) × (lookup key ttls ≡ e)

  abbrev pub Agrees : C → Table ℤ → Memory → Type 0
  Agrees c ttls m = (key v : Text) → laws.may key c ≡ some v → Known key v ttls m

  Agrees-get :
      (key : Text) (c : C) (ttls : Table ℤ) (m : Memory)
      → Agrees c ttls m
      → Agrees (cache.get key c).1 ttls m
  Agrees-get key c ttls m h j v e = h j v (sym (laws.after_get key j c) ∙ e)

  Agrees-del :
      (key : Text) (c : C) (ttls : Table ℤ) (m : Memory)
      → Agrees c ttls m
      → Agrees (cache.del key c) ttls m
  Agrees-del key c ttls m h j v e = elim (Bool-cases (text_eq key j)) [
    | inl same ↦ absurd (ground (arith, e, same, laws.after_del key j c))
    | inr other ↦ h j v (ground (arith, e, other, laws.after_del key j c))
  ]

  -- An entry that is written anew, with its deadline.
  Agrees-written :
      (key value : Text) (d : Option ℤ) (c c' : C) (ttls ttls' : Table ℤ) (m : Memory)
      → Agrees c ttls m
      → ((j : Text) → laws.may j c' ≡ (if text_eq key j then some value else laws.may j c))
      → ((j : Text) → lookup j ttls' ≡ (if text_eq key j then d else lookup j ttls))
      → Agrees c' ttls' (insert key (value, d) m)
  Agrees-written key value d c c' ttls ttls' m h cached timed j v e =
      elim (Bool-cases (text_eq key j)) [
        | inl same ↦ (
          d,
          ground (arith, e, same, cached j, lookup-insert key j (value, d) m),
          ground (arith, same, timed j),
        )
        | inr other ↦
            let (e', known, t) = h j v (ground (arith, e, other, cached j)) in
            (
              e',
              ground (arith, other, known, lookup-insert key j (value, d) m),
              ground (arith, other, t, timed j),
            )
      ]

  carry :
      {c c' : C} {t t' : Table ℤ} {m m' : Memory}
      → c' ≡ c
      → t' ≡ t
      → m' ≡ m
      → Agrees c t m
      → Agrees c' t' m'
  carry {c} {c'} {t} {t'} {m} {m'} p q r h =
      subst (λ x. Agrees x t' m') (sym p)
        (subst (λ x. Agrees c x m') (sym q) (subst (λ x. Agrees c t x) (sym r) h))

  -- After a call, if they agreed before it.
  abbrev pub After : ℤ → StringCall → LocalStorage C → Memory → Type 0
  After now call s m =
      Agrees (apply cache now call s).1.cache (apply cache now call s).1.ttls
        (remember now call (apply cache now call s).0 m)

  module _ (now : ℤ) (key : Text) (s : LocalStorage C) (m : Memory)
      (h : Agrees s.cache s.ttls m) where
    pub get-After : After now (get_call key) s m
    unfolding apply get remember
    get-After = elim (Bool-cases s.closed) [
      | inl shut ↦ carry (ground (arith, shut)) (ground (arith, shut)) (ground (arith, shut)) h
      | inr on ↦ elim (Bool-cases (has_expired now key s)) [
        | inl old ↦
            carry (ground (arith, on, old)) (ground (arith, on, old)) (ground (arith, on, old))
              (Agrees-del key s.cache s.ttls m h)
        | inr new ↦
            carry (ground (arith, on, new)) (ground (arith, on, new)) (ground (arith, on, new))
              (Agrees-get key s.cache s.ttls m h)
      ]
    ]

    pub exists-After : After now (exists_call key) s m
    unfolding apply exists remember
    exists-After = elim (Bool-cases s.closed) [
      | inl shut ↦ carry (ground (arith, shut)) (ground (arith, shut)) (ground (arith, shut)) h
      | inr on ↦ elim (Bool-cases (has_expired now key s)) [
        | inl old ↦
            carry (ground (arith, on, old)) (ground (arith, on, old)) (ground (arith, on, old)) h
        | inr new ↦
            carry (ground (arith, on, new)) (ground (arith, on, new)) (ground (arith, on, new))
              (Agrees-get key s.cache s.ttls m h)
      ]
    ]

    Agrees-removed : Agrees (cache.del key s.cache) (remove key s.ttls) (remove key m)
    Agrees-removed j v e = elim (Bool-cases (text_eq key j)) [
      | inl same ↦ absurd (ground (arith, e, same, laws.after_del key j s.cache))
      | inr other ↦
          let (e', known, t) = h j v (ground (arith, e, other, laws.after_del key j s.cache)) in
          (
            e',
            ground (arith, other, known, lookup-delete key j m),
            ground (arith, other, t, lookup-delete key j s.ttls),
          )
    ]

    pub delete-After : After now (delete_call key) s m
    unfolding apply delete remember
    delete-After = elim (Bool-cases s.closed) [
      | inl shut ↦ carry (ground (arith, shut)) (ground (arith, shut)) (ground (arith, shut)) h
      | inr on ↦ carry (ground (arith, on)) (ground (arith, on)) (ground (arith, on)) Agrees-removed
    ]

    pub set-After : (value : Text) (ttl : ℤ) → After now (set_call key value ttl) s m
    unfolding apply set remember
    set-After value ttl = elim (Bool-cases s.closed) [
      | inl shut ↦ carry (ground (arith, shut)) (ground (arith, shut)) (ground (arith, shut)) h
      | inr on ↦ elim (Bool-cases (ltb_ℤ (pos 0) ttl)) [
        | inl timed ↦
            carry (ground (arith, on, timed)) (ground (arith, on, timed))
              (ground (arith, on, timed))
              (Agrees-written key value (some (now +ℤ ttl)) s.cache
                (cache.wait (cache.set_with_ttl key value (pos (length value)) ttl s.cache)) s.ttls
                (insert key (now +ℤ ttl) s.ttls) m h
                (λ j. laws.after_wait j _ ∙ laws.after_set_with_ttl key value j _ ttl s.cache timed)
                (λ j. lookup-insert key j (now +ℤ ttl) s.ttls))
        | inr always ↦
            carry (ground (arith, on, always)) (ground (arith, on, always))
              (ground (arith, on, always))
              (Agrees-written key value none s.cache
                (cache.wait (cache.set key value (pos (length value)) s.cache)) s.ttls
                (remove key s.ttls) m h
                (λ j. laws.after_wait j _ ∙ laws.after_set key value j _ s.cache)
                (λ j. lookup-delete key j s.ttls))
      ]
    ]

    -- An entry that was found, with its new deadline.
    Agrees-renewed :
        (ttl : ℤ) (v : Text)
        → (cache.get key s.cache).0 ≡ some v
        → Agrees
            (cache.wait (cache.set_with_ttl key v (pos (length v)) ttl (cache.get key s.cache).1))
            (insert key (now +ℤ ttl) s.ttls)
            (expire_at (now +ℤ ttl) key (lookup key m) m)
    Agrees-renewed ttl v found =
        let c = (cache.get key s.cache).1 in
        let here = laws.finds key v s.cache found in
        let same = laws.after_same key v in
        let (e, known, t) = h key v here in
        carry refl refl (ap (λ o. expire_at (now +ℤ ttl) key o m) known) (
          Agrees-written key v (some (now +ℤ ttl)) s.cache
            (cache.wait (cache.set_with_ttl key v (pos (length v)) ttl c)) s.ttls
            (insert key (now +ℤ ttl) s.ttls) m h
            (λ j.
              laws.after_wait j (cache.set_with_ttl key v (pos (length v)) ttl c)
              ∙ same j (pos (length v)) ttl c (laws.after_get key key s.cache ∙ here)
              ∙ laws.after_get key j s.cache
              ∙ unchanged key j v (λ x. laws.may x s.cache) here)
            (λ j. lookup-insert key j (now +ℤ ttl) s.ttls))

    pub expire-After : (ttl : ℤ) → After now (expire_call key ttl) s m
    unfolding apply expire remember
    expire-After ttl = elim (Bool-cases s.closed) [
      | inl shut ↦ carry (ground (arith, shut)) (ground (arith, shut)) (ground (arith, shut)) h
      | inr on ↦ elim (Option-cases (cache.get key s.cache).0) [
        | inl gone ↦
            carry (ground (arith, on, gone)) (ground (arith, on, gone)) (ground (arith, on, gone))
              (Agrees-get key s.cache s.ttls m h)
        | inr (v, found) ↦
            carry (ground (arith, on, found)) (ground (arith, on, found))
              (ground (arith, on, found)) (Agrees-renewed ttl v found)
      ]
    ]
