-- ===== src/Storage/Manager/Missing.antt =====
-- Reads of keys that the primary does not hold.
use koala_v.Prelude.{
  suc, ℤ, pos, ◌+ℤ◌, Text, true, false, ◌≡◌, inl, List, [], ◌∷◌, All, length, some, ap, ◌∙◌, arith,
  int_laws, +ℤ_parts, sym, refl, ℕ, leb_ℤ, Bool-cases, inr,
}
use koala_v.Storage.{Storage, key_not_found}
use koala_v.Storage.Redis.{Client, RedisStorage, nil_reply, key_of}
use koala_v.Storage.Redis.Instance.{redis_storage, get_int, ask}
use koala_v.Storage.Manager.{StorageManager}
use koala_v.Storage.Manager.Valid.{IsValid, execute-IsValid}
use koala_v.Storage.Manager.Failover.{execute_primary, execute_fallback}
use koala_v.Storage.Manager.Instance.{manager_storage}

one_less : (z : ℤ) (n : ℕ) → z +ℤ pos (suc n) ≡ z +ℤ pos 1 +ℤ pos n
one_less z n = omega int_laws

module _ {P F : Type 0} (p : Storage P) (f : Storage F) (now : ℤ) where
  abbrev get : Text → StorageManager P F → StorageManager P F
  get key m = ((manager_storage p f).get_int now key m).2

  -- GetInt of each key in turn.
  abbrev pub gets : List Text → StorageManager P F → StorageManager P F
  gets [] m = m
  gets (key ∷ keys) m = gets keys (get key m)

  gets_degraded :
      (keys : List Text) (m : StorageManager P F)
      → IsValid m
      → m.degraded ≡ true
      → (gets keys m).degraded ≡ true
  gets_degraded [] m v d = d
  gets_degraded (key ∷ keys) m v d =
      gets_degraded keys (get key m) (execute-IsValid (p.get_int now key) (f.get_int now key) m v) (
        ap (λ r. r.2.degraded)
          (execute_fallback (p.get_int now key) (f.get_int now key) m v (inl d))
        ∙ d)

  -- A state in which the primary misses a key: the read says so and changes nothing.
  abbrev Misses : P → Text → Type 0
  Misses s key = ((p.get_int now key s).1 ≡ some key_not_found) × ((p.get_int now key s).2 ≡ s)

  gets_missing-degrade :
      (keys : List Text) (m : StorageManager P F) (s : P)
      → IsValid m
      → m.has_primary ≡ true
      → m.degraded ≡ false
      → m.primary ≡ s
      → All (Misses s) keys
      → m.max_failures ≡ m.failures +ℤ pos (length keys)
      → (gets keys m).degraded ≡ true
  gets_missing-degrade [] m s v h d same absent e =
      ground (arith, v.below d, +ℤ_parts m.failures (pos 0))
  gets_missing-degrade (key ∷ keys) m s v h d same ((gone, kept), absent) e =
      let (_, counted, degrades) =
        execute_primary (p.get_int now key) (f.get_int now key) m v h d in
      let v' = execute-IsValid (p.get_int now key) (f.get_int now key) m v in
      let missing = ap (λ x. (p.get_int now key x).1) same ∙ gone in
      elim (Bool-cases (leb_ℤ m.max_failures (m.failures +ℤ pos 1))) [
        | inl many ↦
            let after = degrades key_not_found missing (ground arith) in
            gets_degraded keys _ v' (ap (λ r. r.2.degraded) after)
        | inr few ↦
            let after = counted key_not_found missing (ground arith) in
            gets_missing-degrade keys (get key m) s v' (ap (λ r. r.2.has_primary) after ∙ h)
              (ap (λ r. r.2.degraded) after ∙ d)
              (ap (λ r. r.2.primary) after ∙ ap (λ x. (p.get_int now key x).2) same ∙ kept) absent
              (ap (λ r. r.2.max_failures) after
                ∙ e
                ∙ one_less m.failures (length keys)
                ∙ ap (λ r. r.2.failures +ℤ pos (length keys)) (sym after))
      ]

module _ {C F : Type 0} (client : Client C) (f : Storage F) (now : ℤ) where
  redis-Misses :
      (keys : List Text) (s : RedisStorage C)
      → s.closed ≡ false
      → All
          (λ key. client.get_int64 now (key_of s key) s.client ≡ (pos 0, some nil_reply, s.client))
          keys
      → All (Misses (redis_storage client) f now s) keys
  unfolding get_int ask
  redis-Misses [] s o h = tt
  redis-Misses (key ∷ keys) s o (nil, h) =
      ((ground (arith, o, nil), ground (arith, o, nil)), redis-Misses keys s o h)

  -- For a valid manager that is not degraded and whose primary is an open RedisStorage: when the server
  -- answers the GET of each of these keys, which it does not hold, with the nil reply, as is
  -- documented, and changes nothing, then reads of as many such keys as failures are left to the
  -- limit degrade the manager.
  pub gets-degrade :
      (keys : List Text) (m : StorageManager (RedisStorage C) F)
      → IsValid m
      → m.has_primary ≡ true
      → m.degraded ≡ false
      → m.primary.closed ≡ false
      → All
          (λ key.
            client.get_int64 now (key_of m.primary key) m.primary.client
            ≡ (pos 0, some nil_reply, m.primary.client))
          keys
      → m.max_failures ≡ m.failures +ℤ pos (length keys)
      → (gets (redis_storage client) f now keys m).degraded ≡ true
  gets-degrade keys m v h d o nil e =
      gets_missing-degrade (redis_storage client) f now keys m m.primary v h d refl
        (redis-Misses keys m.primary o nil) e
