-- ===== src/Storage/Local/Strings/Fresh.antt =====
-- The string operations of LocalStorage against what was written: a read finds what was written
-- last, or nothing.
use koala_v.Prelude.{
  ℤ, Text, lookup, List, [], ◌∷◌, false, Option, none, some, ◌≡◌, ap, ◌∙◌, arith, Bool-cases,
  Option-cases, inl, inr,
}
use koala_v.Storage.Local.{LocalStorage, Ristretto, new}
use koala_v.Storage.Local.Strings.{get, has_expired}
use koala_v.Storage.Local.Strings.Written.{
  CacheLaws, StringCall, get_call, exists_call, delete_call, set_call, expire_call, Memory,
  remember, IsFresh, apply, run,
}
use koala_v.Storage.Local.Strings.Agrees.{
  Agrees, After, get-After, exists-After, delete-After, set-After, expire-After,
}

module _ {C : Type 0} (cache : Ristretto C) (laws : CacheLaws cache) where
  apply-After :
      (now : ℤ) (call : StringCall) (s : LocalStorage C) (m : Memory)
      → Agrees cache laws s.cache s.ttls m
      → After cache laws now call s m
  apply-After now (get_call key) s m h = get-After cache laws now key s m h
  apply-After now (exists_call key) s m h = exists-After cache laws now key s m h
  apply-After now (delete_call key) s m h = delete-After cache laws now key s m h
  apply-After now (set_call key value ttl) s m h = set-After cache laws now key s m h value ttl
  apply-After now (expire_call key ttl) s m h = expire-After cache laws now key s m h ttl

  run-Agrees :
      (calls : List (ℤ × StringCall)) (s : LocalStorage C) (m : Memory)
      → Agrees cache laws s.cache s.ttls m
      → Agrees cache laws
          (run cache calls s m).0.cache
          (run cache calls s m).0.ttls
          (run cache calls s m).1
  unfolding run
  run-Agrees [] s m h = h
  run-Agrees ((now, call) ∷ calls) s m h =
      let (err, s₁) = apply cache now call s in
      run-Agrees calls s₁ (remember now call err m) (apply-After now call s m h)

  has_expired-IsFresh :
      (now : ℤ) (key : Text) (s : LocalStorage C) (e : Option ℤ)
      → lookup key s.ttls ≡ e
      → has_expired now key s ≡ false
      → IsFresh now e
  unfolding has_expired
  has_expired-IsFresh now key s none t new = tt
  has_expired-IsFresh now key s (some d) t new = ground (arith, t, new)

  -- What a Get that succeeds reads.
  get-Known :
      (now : ℤ) (key : Text) (s : LocalStorage C) (m : Memory)
      → Agrees cache laws s.cache s.ttls m
      → (get cache now key s).1 ≡ none
      → (e : Option ℤ) × (lookup key m ≡ some ((get cache now key s).0, e)) × (IsFresh now e)
  unfolding get
  get-Known now key s m h ok = elim (Bool-cases s.closed) [
    | inl shut ↦ absurd (ground (arith, shut, ok))
    | inr on ↦ elim (Bool-cases (has_expired now key s)) [
      | inl old ↦ absurd (ground (arith, on, old, ok))
      | inr new ↦ elim (Option-cases (cache.get key s.cache).0) [
        | inl gone ↦ absurd (ground (arith, on, new, gone, ok))
        | inr (v, found) ↦
            let (e, known, t) = h key v (laws.finds key v s.cache found) in
            (
              e,
              known ∙ ap (λ x. some (x, e)) (ground (arith, on, new, found)),
              has_expired-IsFresh now key s e t new,
            )
      ]
    ]
  ]

  -- With a cache that behaves as is documented of ristretto, which may lose an entry at any time:
  -- from a new LocalStorage with nothing in its cache, after any calls of Set, Delete, Expire, Get and
  -- Exists at any instants, a Get that returns no error returns the value that was last written under
  -- the key and not deleted since, and the deadline of that entry has not passed.
  pub run-get :
      (c : C) (calls : List (ℤ × StringCall)) (now : ℤ) (key : Text)
      → ((j : Text) → laws.may j c ≡ none)
      → (get cache now key (run cache calls (new c) []).0).1 ≡ none
      → (e : Option ℤ) × (lookup key (run cache calls (new c) []).1
          ≡ some ((get cache now key (run cache calls (new c) []).0).0, e))
        × (IsFresh now e)
  run-get c calls now key empty ok =
      let (s, m) = run cache calls (new c) [] in
      get-Known now key s m
        (run-Agrees calls (new c) [] (λ j v e. absurd (ground (arith, e, empty j)))) ok
