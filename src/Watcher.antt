-- ===== src/Watcher.antt =====
-- internal/config/watcher.go: Watcher. fsnotify's watcher, `filepath.Abs` and `filepath.Dir` are parameters;
-- a callback acts on the state of the rest of the program.
pub mod Debounce
pub mod Reload
pub mod Served
use koala_v.Config.{is_zero}
use koala_v.Prelude.{
  ℤ, pos, ◌-ℤ◌, ltb_ℤ, Text, Table, lookup, insert, delete, List, [], ◌∷◌, ◌++◌, Bool, true, false,
  not, ◌||◌, ◌&&◌, Option, none, some, if◌then◌else◌, keys,
}

-- What a callback does with a path, at an instant; its error is only logged.
abbrev pub WatcherCallback : Type 0 → Type 0
WatcherCallback A = ℤ → Text → A → A

-- `F` is the state of the fsnotify watcher.
pub record Watcher (A F : Type 0) : Type 0 where
  pub fs_watcher : F
  pub callbacks : Table (List (WatcherCallback A))
  pub debounce : ℤ
  pub last_modified : Table ℤ
  pub cancelled : Bool
  pub started : Bool

-- An event of the file system, with what its `Has` says.
pub record FileEvent : Type 0 where
  pub name : Text
  pub is_write : Bool
  pub is_create : Bool

-- `none` is an error of Abs, `false` one of Add or of Close.
pub record Files (F : Type 0) : Type 0 where
  pub abs : Text → Option Text
  pub dir : Text → Text
  pub add : Text → F → Bool × F
  pub close : F → Bool × F

pub data WatchError : Type 0 where
  absolute_path watch_directory : Text → WatchError

unfoldable pub new_watcher : {A F : Type 0} → F → ℤ → Watcher A F
new_watcher fs debounce = record {
  fs_watcher = fs;
  callbacks = [];
  debounce = if is_zero debounce then pos 100000000 else debounce;
  last_modified = [];
  cancelled = false;
  started = false;
}

abbrev pub or_empty {ℓ} : {B : Type ℓ} → Option (List B) → List B
or_empty none = []
or_empty (some xs) = xs

-- The callbacks of a path, one after the other.
unfoldable pub run_callbacks : {A : Type 0} → ℤ → Text → List (WatcherCallback A) → A → A
run_callbacks now path [] a = a
run_callbacks now path (callback ∷ callbacks) a =
    run_callbacks now path callbacks (callback now path a)

-- `now.Sub(lastMod) < w.debounce`; a path without an entry has the zero time, which is longer ago
-- than any debounce.
abbrev pub too_soon : ℤ → ℤ → Option ℤ → Bool
too_soon now debounce none = false
too_soon now debounce (some last) = ltb_ℤ (now -ℤ last) debounce

abbrev pub start : {A F : Type 0} → Watcher A F → Watcher A F
start w = if w.started then w else record w { started = true }

module _ {A F : Type 0} (files : Files F) where
  -- The callback is kept also when the directory cannot be watched.
  unfoldable pub watch : Text → WatcherCallback A → Watcher A F → Option WatchError × Watcher A F
  watch path callback w = elim (files.abs path) [
    | none ↦ (some (absolute_path path), w)
    | some abs_path ↦
        let w₁ = record w {
          callbacks =
              insert abs_path (or_empty (lookup abs_path w.callbacks) ++ callback ∷ []) w.callbacks;
        } in
        let (ok, fs) = files.add (files.dir abs_path) w₁.fs_watcher in
        (
          if ok then none else some (watch_directory (files.dir abs_path)),
          record w₁ { fs_watcher = fs },
        )
  ]

  unfoldable pub unwatch : Text → Watcher A F → Option WatchError × Watcher A F
  unwatch path w = elim (files.abs path) [
    | none ↦ (some (absolute_path path), w)
    | some abs_path ↦ (none, record w { callbacks = delete abs_path w.callbacks })
  ]

  -- The callbacks to run for an event, with its path: none if the event is passed over.
  unfoldable pub due : ℤ → FileEvent → Watcher A F → Option (Text × List (WatcherCallback A))
  due now event w =
      if not event.is_write && not event.is_create then none else elim (files.abs event.name) [
        | none ↦ none
        | some path ↦ elim (or_empty (lookup path w.callbacks)) [
          | [] ↦ none
          | c ∷ cs ↦
              if too_soon now w.debounce (lookup path w.last_modified)
              then none
              else some (path, c ∷ cs)
        ]
      ]

  unfoldable pub handle_event : ℤ → FileEvent → Watcher A F → A → Watcher A F × A
  unfolding due run_callbacks
  handle_event now event w a = elim (due now event w) [
    | none ↦ (w, a)
    | some (path, callbacks) ↦ (
      record w { last_modified = insert path now w.last_modified },
      run_callbacks now path callbacks a,
    )
  ]

  -- The loop handles events until it is cancelled.
  unfoldable pub event_loop : List (ℤ × FileEvent) → Watcher A F → A → Watcher A F × A
  unfolding handle_event
  event_loop [] w a = (w, a)
  event_loop ((now, event) ∷ events) w a = elim (w.started && not w.cancelled) [
    | true ↦ let (w₁, a₁) = handle_event now event w a in event_loop events w₁ a₁
    | false ↦ (w, a)
  ]

  -- Whether Close returned no error, and the watcher.
  abbrev pub stop : Watcher A F → Bool × Watcher A F
  stop w =
      let (ok, fs) = files.close w.fs_watcher in
      (ok, record w { fs_watcher = fs; cancelled = true })

abbrev pub watched_files : {A F : Type 0} → Watcher A F → List Text
watched_files w = keys w.callbacks
