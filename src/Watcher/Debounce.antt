-- ===== src/Watcher/Debounce.antt =====
-- The debouncing of Watcher.
use koala_v.Prelude.{
  ℤ, ◌-ℤ◌, ◌≤ℤ◌, ◌<ℤ◌, Text, text_eq, text_eq_iff, lookup, insert, lookup-insert, List, [], ◌∷◌,
  Bool, true, false, Option, none, some, ◌≡◌, refl, arith, Option-cases, inl, inr, if◌then◌else◌,
}
use mathlib.Core.Path.{subst}
use koala_v.Watcher.{
  WatcherCallback, Watcher, FileEvent, Files, too_soon, due, handle_event, event_loop,
  run_callbacks,
}

-- Each instant is at least the debounce after the one before it.
abbrev pub Apart : ℤ → Option ℤ → List ℤ → Type 0
Apart debounce last [] = Unit
Apart debounce none (t ∷ ts) = Apart debounce (some t) ts
Apart debounce (some last) (t ∷ ts) = (debounce ≤ℤ t -ℤ last) × Apart debounce (some t) ts

Apart-nothing : (debounce : ℤ) (last : Option ℤ) → Apart debounce last []
Apart-nothing debounce last = tt

Apart-fired :
    (debounce now : ℤ) (last : Option ℤ) (ts : List ℤ)
    → too_soon now debounce last ≡ false
    → Apart debounce (some now) ts
    → Apart debounce last (now ∷ ts)
Apart-fired debounce now none ts h k = k
Apart-fired debounce now (some t) ts h k = (ground (arith, h), k)

-- A path's callbacks run for its event; then, before the debounce is over, the file changes again
-- and again.
abbrev Soon : {F : Type 0} → Files F → ℤ → ℤ → Text → List (ℤ × FileEvent) → Type 0
Soon files start debounce path [] = Unit
Soon files start debounce path ((now, event) ∷ events) =
    (files.abs event.name ≡ some path)
    × (now -ℤ start <ℤ debounce)
    × Soon files start debounce path events

module _ {A F : Type 0} (files : Files F) where
  -- The events of a path that run its callbacks, with their instants.
  abbrev fires_now : Text → ℤ → Option (Text × List (WatcherCallback A)) → List ℤ → List ℤ
  fires_now path now none rest = rest
  fires_now path now (some (p, cs)) rest = if text_eq p path then now ∷ rest else rest

  unfoldable pub fires : Text → List (ℤ × FileEvent) → Watcher A F → A → List ℤ
  fires path [] w a = []
  fires path ((now, event) ∷ events) w a =
      fires_now path now (due files now event w) (
        fires path events (handle_event files now event w a).0 (handle_event files now event w a).1)

  due-path :
      (now : ℤ) (event : FileEvent) (w : Watcher A F) (path : Text) (cs : List (WatcherCallback A))
      → due files now event w ≡ some (path, cs)
      → too_soon now w.debounce (lookup path w.last_modified) ≡ false
  unfolding due
  due-path now event w path cs h = elim (Option-cases (files.abs event.name)) [
    | inl e ↦ absurd (ground (arith, h, e))
    | inr (p, e) ↦ ground (arith, h, e)
  ]

  handle_event-not_due :
      (now : ℤ) (event : FileEvent) (w : Watcher A F) (a : A)
      → due files now event w ≡ none
      → handle_event files now event w a ≡ (w, a)
  unfolding handle_event
  handle_event-not_due now event w a h = ground (arith, h)

  handle_event-due :
      (now : ℤ) (event : FileEvent) (w : Watcher A F) (a : A) (p : Text)
      (cs : List (WatcherCallback A))
      → due files now event w ≡ some (p, cs)
      → handle_event files now event w a
        ≡ (record w { last_modified = insert p now w.last_modified }, run_callbacks now p cs a)
  unfolding handle_event
  handle_event-due now event w a p cs h = ground (arith, h)

  abbrev fired : ℤ → Text → Watcher A F → Watcher A F
  fired now p w = record w { last_modified = insert p now w.last_modified }

  fires-not_due :
      (path : Text) (now : ℤ) (event : FileEvent) (events : List (ℤ × FileEvent)) (w : Watcher A F)
      (a : A)
      → due files now event w ≡ none
      → fires path ((now, event) ∷ events) w a ≡ fires path events w a
  unfolding fires
  fires-not_due path now event events w a h = rw (h, handle_event-not_due now event w a h) refl

  fires-due :
      (path : Text) (now : ℤ) (event : FileEvent) (events : List (ℤ × FileEvent)) (w : Watcher A F)
      (a : A) (p : Text) (cs : List (WatcherCallback A))
      → due files now event w ≡ some (p, cs)
      → fires path ((now, event) ∷ events) w a ≡ (
          let rest = fires path events (fired now p w) (run_callbacks now p cs a) in
          if text_eq p path then now ∷ rest else rest)
  unfolding fires
  fires-due path now event events w a p cs h = rw (h, handle_event-due now event w a p cs h) refl

  Apart-due :
      (path p : Text) (now : ℤ) (w : Watcher A F) (ts : List ℤ) (b : Bool)
      → text_eq p path ≡ b
      → too_soon now w.debounce (lookup p w.last_modified) ≡ false
      → Apart w.debounce (lookup path (insert p now w.last_modified)) ts
      → Apart w.debounce (lookup path w.last_modified) (if b then now ∷ ts else ts)
  Apart-due path p now w ts true e h k =
      let same : p ≡ path = (text_eq_iff p path).0 e in
      let new : lookup path (insert p now w.last_modified) ≡ some now =
        ground (arith, e, lookup-insert p path now w.last_modified) in
      let k' : Apart w.debounce (some now) ts = subst (λ o. Apart w.debounce o ts) new k in
      let h' : too_soon now w.debounce (lookup path w.last_modified) ≡ false =
        subst (λ q. too_soon now w.debounce (lookup q w.last_modified) ≡ false) same h in
      Apart-fired w.debounce now (lookup path w.last_modified) ts h' k'
  Apart-due path p now w ts false e h k =
      let old : lookup path (insert p now w.last_modified) ≡ lookup path w.last_modified =
        ground (arith, e, lookup-insert p path now w.last_modified) in
      subst (λ o. Apart w.debounce o ts) old k

  -- In any sequence of events, whatever their instants and paths and whatever the callbacks do, two
  -- instants in succession at which a path's callbacks run are at least the debounce apart, and
  -- the first is at least the debounce after the instant at which they last ran before.
  pub Apart-fires :
      (path : Text) (events : List (ℤ × FileEvent)) (w : Watcher A F) (a : A)
      → Apart w.debounce (lookup path w.last_modified) (fires path events w a)
  unfolding fires
  Apart-fires path [] w a = Apart-nothing w.debounce (lookup path w.last_modified)
  Apart-fires path ((now, event) ∷ events) w a = elim (Option-cases (due files now event w)) [
    | inl e ↦ rw (fires-not_due path now event events w a e) (Apart-fires path events w a)
    | inr ((p, cs), e) ↦ rw (fires-due path now event events w a p cs e) (
        Apart-due path p now w _ (text_eq p path) refl (due-path now event w p cs e)
          (Apart-fires path events (fired now p w) (run_callbacks now p cs a)))
  ]

  due-Soon :
      (start now : ℤ) (event : FileEvent) (path : Text) (w : Watcher A F)
      → lookup path w.last_modified ≡ some start
      → files.abs event.name ≡ some path
      → now -ℤ start <ℤ w.debounce
      → due files now event w ≡ none
  unfolding due
  due-Soon start now event path w last named early = elim (Option-cases (lookup path w.callbacks)) [
    | inl e ↦ ground (arith, last, named, early, e)
    | inr (cs, e) ↦ ground (arith, last, named, early, e)
  ]

  -- After the callbacks of a path have run, the events of that path at instants less than the
  -- debounce later, however many, change neither the watcher nor the state that the callbacks act
  -- on: a change of the file in that time is not loaded, then or later.
  pub event_loop-Soon :
      (start : ℤ) (path : Text) (events : List (ℤ × FileEvent)) (w : Watcher A F) (a : A)
      → lookup path w.last_modified ≡ some start
      → Soon files start w.debounce path events
      → event_loop files events w a ≡ (w, a)
  unfolding event_loop
  event_loop-Soon start path [] w a last h = refl
  event_loop-Soon start path ((now, event) ∷ events) w a last (named, early, h) =
      let quiet =
        handle_event-not_due now event w a (due-Soon start now event path w last named early) in
      ground (arith, quiet, event_loop-Soon start path events w a last h)
