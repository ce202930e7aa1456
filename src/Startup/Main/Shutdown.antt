-- ===== src/Startup/Main/Shutdown.antt =====
-- cmd/koala/main.go: main after the signal. The shutdown of the http.Server is a parameter, and its
-- error is only logged.
use mathlib.Core.Path.{subst}
use koala_v.Prelude.{
  sym, ℤ, Text, List, [], ◌∷◌, Bool-cases, ap, ◌∙◌, true, Option, none, some, inl, inr, ◌≡◌, refl,
  arith,
}
use koala_v.Storage.Manager.Instance.{close}
use koala_v.Storage.Local.{LocalStorage, Ristretto}
use koala_v.Storage.Local.Instance.{local_storage}
use koala_v.Storage.Closed.{Refuses, close-Refuses}
use koala_v.Startup.Refused.{either-Refuses}
use koala_v.Watcher.{Files, Watcher, FileEvent, event_loop, stop}
use koala_v.Startup.Main.{Environment, Program, Reloading, State, storage}

-- The deferred `watcher.Stop()`, where a watcher has been started.
unfoldable pub stop_watcher :
    {S F : Type 0} → Files F → Option (Reloading S F) → Option (Reloading S F)
stop_watcher files none = none
stop_watcher files (some (cw, w)) = some (cw, (stop files w).1)

cancelled-event_loop :
    {A F : Type 0} (files : Files F) (events : List (ℤ × FileEvent)) (w : Watcher A F) (a : A)
    → w.cancelled ≡ true
    → event_loop files events w a ≡ (w, a)
unfolding event_loop
cancelled-event_loop files [] w a c = refl
cancelled-event_loop files ((now, event) ∷ events) w a c = ground (arith, c)

module _ {R L E F : Type 0} (env : Environment R L E F) where
  -- Shutdown with the timeout of the configuration, then the deferred calls, the last one first.
  unfoldable pub finish :
      {H : Type 0}
      → (ℤ → H → Option Text × H)
      → H
      → Program (State R L) F
      → Option Text × H × Program (State R L) F
  unfolding stop_watcher
  finish shutdown h p =
      let (err, h₁) = shutdown p.shutdown_timeout h in
      let p₁ = record p { watcher = stop_watcher env.files p.watcher } in
      let (e, s) = (storage env).close p₁.state in (err, h₁, record p₁ { state = s })

  -- No event of any file runs a callback.
  abbrev pub Quiet : Option (Reloading (State R L) F) → Type 0
  Quiet none = Unit
  Quiet (some (cw, w)) =
      (events : List (ℤ × FileEvent)) (a : _) → event_loop env.files events w a ≡ (w, a)

  -- A local storage refuses every call; a manager is marked as closed, and its two storages, its
  -- count of failures and the storage that it uses are what they were.
  abbrev pub Left : State R L → State R L → Type 0
  Left (inl l) s = Refuses (storage env) s
  Left (inr m) s = s ≡ inr (record m { closed = true })

  stop_watcher-Quiet : (w : Option (Reloading (State R L) F)) → Quiet (stop_watcher env.files w)
  unfolding stop_watcher
  stop_watcher-Quiet none = tt
  stop_watcher-Quiet (some (cw, w)) = λ events a. cancelled-event_loop env.files events _ a refl

  close-Left :
      ((l : L) → Refuses env.local (env.local.close l).1)
      → (s : State R L) → Left s ((storage env).close s).1
  unfolding close
  close-Left closes (inl l) = either-Refuses env.local _ (env.local.close l).1 (closes l)
  close-Left closes (inr m) = elim (Bool-cases m.closed) [
    | inl c ↦ ground (arith, c) ∙ ap (λ b. inr (record m { closed = b })) c
    | inr c ↦ ap (λ x. inr x) (ground (arith, c))
  ]

module _ {R C E F : Type 0} (cache : Ristretto C) (env : Environment R (LocalStorage C) E F) where
  closes-Refuses :
      env.local ≡ local_storage cache
      → (l : LocalStorage C) → Refuses env.local (env.local.close l).1
  closes-Refuses local l =
      subst (λ st. Refuses st (st.close l).1) (sym local) (close-Refuses cache l)

  -- After the signal, in a program whose local storage is a LocalStorage: the error to be logged is what
  -- the shutdown of the http.Server answers. Whatever it answers, no event of a watched file runs a
  -- callback any more, so that the engine's rules and the matcher stay as they are. A LocalStorage on
  -- its own refuses every call but Close with ErrStorageClosed and changes nothing. A manager only
  -- takes the mark that it is closed: its primary and its local storage are as they were, so that
  -- neither of them has been closed.
  pub finish-Left :
      {H : Type 0} (shutdown : ℤ → H → Option Text × H) (h : H)
      (p : Program (State R (LocalStorage C)) F)
      → env.local ≡ local_storage cache
      → let (err, h₁, q) = finish env shutdown h p in
        ((err, h₁) ≡ shutdown p.shutdown_timeout h)
        × Quiet env q.watcher
        × Left env p.state q.state
        × (q.engine ≡ p.engine)
  unfolding finish
  finish-Left shutdown h p local =
      (refl, stop_watcher-Quiet env p.watcher, close-Left env (closes-Refuses local) p.state, refl)
