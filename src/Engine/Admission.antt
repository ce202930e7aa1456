-- ===== src/Engine/Admission.antt =====
-- The requests that one Count rule lets through, from the engine down to the storage.
use koala_v.Prelude.{
  ℕ, suc, ◌+◌, ◌-◌, ◌<◌, ◌≤◌, ℤ, pos, ◌+ℤ◌, ◌≤ℤ◌, ◌<ℤ◌, leb_ℤ, two63, Text, length, List, [], ◌∷◌,
  All, Bool, true, false, Option, none, some, ◌⊎◌, inl, inr, ◌≡◌, refl, ap, ◌∙◌, arith,
  if◌then◌else◌,
}
use Prim.Native.Nat.{min}
use koala_v.Storage.{Storage, Error}
use koala_v.Storage.Laws.{CounterLaws}
use koala_v.Matcher.Dict.{Dicts}
use koala_v.Algorithm.{Algorithm, count}
use koala_v.Algorithm.Times.{Until}
use koala_v.Algorithm.Counter.{
  Holds, entry_of, Holds-fresh, open-Holds, more-Holds, get_int-Holds, read-Holds,
}
use koala_v.Algorithm.Count as Count
use koala_v.Algorithm as Algorithm
use koala_v.Engine.Message.{Request, Response, new_allowed_response}
use koala_v.Engine.Matching.{Rule, RuleSet, generate_key}
use koala_v.Engine.Precedence.{rate_rules, match_rules-decision}
use koala_v.Engine.{
  Engine, check_rate_limit_failed, response_of, Outcome, first_match, check, check_rate_limit,
  update_counter, apply_rule,
}

-- The response lets the request through.
abbrev pub is_allowed : Option Response → Bool
is_allowed none = false
is_allowed (some r) = r.allowed

lt-or_ge : (a b : ℕ) → (a < b) ⊎ (b ≤ a)
lt-or_ge a b = ground arith

module _ {S : Type 0} (e : Engine S) (dicts : Dicts) (req : Request) where
  -- How many of the checks of a request at the given instants let it through.
  unfoldable pub admitted : List ℤ → S → ℕ
  admitted [] s = 0
  admitted (t ∷ ts) s =
      let (response, err, s₁) = check e dicts t (some req) s in
      let rest = admitted ts s₁ in if is_allowed response then suc rest else rest

-- No access rule matches the request, and the first rate rule that matches is a Count rule.
pub record Decides (dicts : Dicts) (rs : RuleSet) (req : Request) (rule : Rule) : Type 0 where
  pub no_white : first_match dicts req rs.whitelist ≡ none
  pub no_black : first_match dicts req rs.blacklist ≡ none
  pub first_rate : first_match dicts req (rate_rules rs) ≡ some rule
  pub counts : rule.algorithm ≡ count

module _ {S : Type 0} (store : Storage S) (laws : CounterLaws store) (dicts : Dicts) (rs : RuleSet)
    (req : Request) (rule : Rule) (d : Decides dicts rs req rule) where
  open laws use {IsOpen, live}

  -- The rules and the storage that it runs with.
  abbrev pub engine : Engine S
  engine = record { rules = some rs; storage = some store; dicts = none }

  -- The key under which the rule counts the request.
  abbrev pub key : Text
  key = generate_key rule req

  check-apply :
      (t : ℤ) (s : S) → check engine dicts t (some req) s ≡ apply_rule engine t rule req true s
  unfolding check
  check-apply t s =
      match_rules-decision engine dicts t rs req true s
      ∙ (rw (d.no_white, d.no_black, d.first_rate) refl)

  -- What a check does with the result of Browse.
  abbrev after_browse : Algorithm → ℤ → Bool → Option Error → S → Outcome S
  after_browse a t hit (some err) s = (none, some (check_rate_limit_failed err), s)
  after_browse a t true none s = (some (response_of false rule), none, s)
  after_browse a t false none s =
      (some new_allowed_response, none, (Algorithm.update store a t key rule.limit s).1)

  abbrev checked : Algorithm → ℤ → S → Outcome S
  checked a t s =
      let (hit, err, s₁) = Algorithm.browse store a t key rule.limit s in
      after_browse a t hit err s₁

  apply_rule-checked :
      (t : ℤ) (s : S) → apply_rule engine t rule req true s ≡ checked rule.algorithm t s
  unfolding apply_rule check_rate_limit update_counter
  apply_rule-checked t s = ground arith

  check-checked : (t : ℤ) (s : S) → check engine dicts t (some req) s ≡ checked count t s
  check-checked t s = check-apply t s ∙ apply_rule-checked t s ∙ ap (λ a. checked a t s) d.counts

  browse-fresh :
      (t : ℤ) (s : S)
      → Holds store laws key t none s
      → Algorithm.browse store count t key rule.limit s ≡ (false, none, (store.get_int t key s).2)
  unfolding Algorithm.browse Count.browse
  browse-fresh t s h = ground (arith, laws.get_int-error t key s h.is_open, h.at t (omega arith))

  browse-live :
      (t u : ℤ) (n : ℕ) (dl : ℤ) (s : S)
      → Holds store laws key t (entry_of n dl) s
      → t ≤ℤ u
      → u ≤ℤ dl
      → Algorithm.browse store count u key rule.limit s
        ≡ (leb_ℤ rule.limit.count (pos n), none, (store.get_int u key s).2)
  unfolding Algorithm.browse Count.browse
  browse-live t u n dl s h le soon = ground (arith, read-Holds store laws key t u n dl s h le soon)

  -- The first check of a window.
  check-open :
      (t : ℤ) (s : S)
      → Holds store laws key t none s
      → pos 0 <ℤ rule.limit.time
      → (is_allowed (check engine dicts t (some req) s).0 ≡ true)
        × Holds store laws key t
            (entry_of 1 (t +ℤ rule.limit.time))
            (check engine dicts t (some req) s).2
  unfolding Algorithm.update Count.update
  check-open t s h positive =
      let h' = get_int-Holds store laws key key t t none s h (omega arith) in
      let opened = open-Holds store laws key t t rule.limit.time _ h' (omega arith) positive in
      rw (check-checked, browse-fresh t s h) (refl, opened)

  -- A later check, under the limit and at it.
  check-under :
      (t u : ℤ) (n most : ℕ) (dl : ℤ) (s : S)
      → rule.limit.count ≡ pos most
      → Holds store laws key t (entry_of n dl) s
      → t ≤ℤ u
      → u ≤ℤ dl
      → n < most
      → suc n < two63
      → (is_allowed (check engine dicts u (some req) s).0 ≡ true)
        × Holds store laws key u (entry_of (suc n) dl) (check engine dicts u (some req) s).2
  unfolding Algorithm.update Count.update
  check-under t u n most dl s limited h le soon under small =
      let h' = get_int-Holds store laws key key t u _ s h le in
      let more = more-Holds store laws key u u rule.limit.time n dl _ h' (omega arith) soon small in
      let no_hit : leb_ℤ rule.limit.count (pos n) ≡ false = ground (arith, limited) in
      rw (check-checked, browse-live t u n dl s h le soon, no_hit) (refl, more)

  check-at :
      (t u : ℤ) (n most : ℕ) (dl : ℤ) (s : S)
      → rule.limit.count ≡ pos most
      → Holds store laws key t (entry_of n dl) s
      → t ≤ℤ u
      → u ≤ℤ dl
      → most ≤ n
      → (is_allowed (check engine dicts u (some req) s).0 ≡ false)
        × Holds store laws key u (entry_of n dl) (check engine dicts u (some req) s).2
  check-at t u n most dl s limited h le soon full =
      let h' = get_int-Holds store laws key key t u _ s h le in
      let hit : leb_ℤ rule.limit.count (pos n) ≡ true = ground (arith, limited) in
      rw (check-checked, browse-live t u n dl s h le soon, hit) (refl, h')

  admitted-run :
      (t last : ℤ) (ts : List ℤ) (n most : ℕ) (dl : ℤ) (s : S)
      → rule.limit.count ≡ pos most
      → Holds store laws key t (entry_of n dl) s
      → Until t ts last
      → All (λ u. u ≤ℤ dl) ts
      → n + length ts < two63
      → admitted engine dicts req ts s ≡ min (length ts) (most - n)
  unfolding admitted
  admitted-run t last [] n most dl s limited h order in_time small = ground arith
  admitted-run t last (u ∷ us) n most dl s limited h (le, order) (soon, in_time) small =
      elim (lt-or_ge n most) [
        | inl under ↦
            let (through, h') = check-under t u n most dl s limited h le soon under (omega arith) in
            let ih =
              admitted-run u last us (suc n) most dl _ limited h' order in_time (omega arith) in
            ground (arith, through, ih)
        | inr full ↦
            let (held, h') = check-at t u n most dl s limited h le soon full in
            let ih = admitted-run u last us n most dl _ limited h' order in_time (omega arith) in
            ground (arith, held, ih)
      ]

  -- In an open storage that fulfils the laws of counters, a Count rule with a positive window and
  -- the limit `most`, which decides a request, and no live counter under its key: of the checks of
  -- that request at ordered instants in the window that the first of them opens, fewer than 2^63,
  -- the first is let through, and then as many as the limit leaves: exactly the smaller of `most`
  -- and their number when `most` is positive, one when it is 0.
  pub admitted_window :
      (t last : ℤ) (ts : List ℤ) (most : ℕ) (s : S)
      → rule.limit.count ≡ pos most
      → pos 0 <ℤ rule.limit.time
      → IsOpen s
      → live t key s ≡ none
      → Until t ts last
      → All (λ u. u ≤ℤ t +ℤ rule.limit.time) ts
      → suc (length ts) < two63
      → admitted engine dicts req (t ∷ ts) s ≡ suc (min (length ts) (most - 1))
  unfolding admitted
  admitted_window t last ts most s limited positive op fresh order in_time small =
      let h = Holds-fresh store laws key t s op fresh in
      let (through, h') = check-open t s h positive in
      let rest =
        admitted-run t last ts 1 most (t +ℤ rule.limit.time) _ limited h' order in_time
          (omega arith) in
      ground (arith, through, rest)
