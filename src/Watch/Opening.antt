-- ===== src/Watch/Opening.antt =====
-- Watch of watch/watch.go and of hmr/hmr.go, up to the start of the loop. The file system and
-- fsnotify are a parameter; paths and errors are told apart by numbers.
use stc_go.Base.{
  ℕ, zero, suc, ◌+◌, ◌-◌, ◌≡◌, refl, Bool, true, false, Option, none, some, arith, if◌then◌else◌,
}

pub data Outcome {ℓ} (A : Type ℓ) : Type ℓ where
  got : A → Outcome A
  refused : ℕ → Outcome A

-- Package filepath, os.Stat (whether the path is a directory), and what NewWatcher and Add answer.
pub record FileSystem : Type 0 where
  pub abs : ℕ → Outcome ℕ
  pub is_dir : ℕ → Outcome Bool
  pub dir : ℕ → ℕ
  pub base : ℕ → ℕ
  pub new_watcher : Option ℕ
  pub add : ℕ → Option ℕ

-- What the loop is started with; `base` is absent for a directory.
pub record Watcher : Type 0 where
  pub watch_dir : ℕ
  pub base : Option ℕ
  pub window : ℕ
  pub done : Bool

pub data OpenError : Type 0 where
  on_fire_missing : OpenError
  system_error : ℕ → OpenError

pub data Opened : Type 0 where
  watching : Watcher → Opened
  not_opened : OpenError → Opened

-- `if debounce <= 0`: the window in nanoseconds, 0 where the options leave it out.
unfoldable pub window : ℕ → ℕ
window zero = 200_000_000
window (suc n) = suc n

-- The number is that of the fsnotify watchers that are open.
module _ (fs : FileSystem) where
  after_add : Watcher → ℕ → Option ℕ → Opened × ℕ
  after_add w n none = (watching w, n)
  after_add w n (some e) = (not_opened (system_error e), n - 1)

  after_new : Watcher → ℕ → Option ℕ → Opened × ℕ
  unfolding after_add
  after_new w n none = after_add w (n + 1) (fs.add w.watch_dir)
  after_new w n (some e) = (not_opened (system_error e), n)

  after_stat : ℕ → ℕ → ℕ → Outcome Bool → Opened × ℕ
  unfolding after_new
  after_stat n debounce path (refused e) = (not_opened (system_error e), n)
  after_stat n debounce path (got true) =
      after_new (record { watch_dir = path; base = none; window = debounce; done = false }) n
        fs.new_watcher
  after_stat n debounce path (got false) =
      after_new
        (record {
          watch_dir = fs.dir path;
          base = some (fs.base path);
          window = debounce;
          done = false;
        })
        n fs.new_watcher

  after_abs : ℕ → ℕ → Outcome ℕ → Opened × ℕ
  unfolding after_stat
  after_abs n debounce (refused e) = (not_opened (system_error e), n)
  after_abs n debounce (got path) = after_stat n debounce path (fs.is_dir path)

  -- Watch of watch/watch.go
  unfoldable pub open_watcher : ℕ → ℕ → Bool → ℕ → Opened × ℕ
  unfolding after_abs window
  open_watcher n debounce on_fire path =
      if on_fire
      then after_abs n (window debounce) (fs.abs path)
      else (not_opened on_fire_missing, n)

  reload_abs : ℕ → ℕ → Outcome ℕ → Opened × ℕ
  unfolding after_new
  reload_abs n debounce (refused e) = (not_opened (system_error e), n)
  reload_abs n debounce (got path) =
      after_new
        (record {
          watch_dir = fs.dir path;
          base = some (fs.base path);
          window = debounce;
          done = false;
        })
        n fs.new_watcher

  -- Watch of hmr/hmr.go
  unfoldable pub open_reloader : ℕ → ℕ → ℕ → Opened × ℕ
  unfolding reload_abs window
  open_reloader n debounce path = reload_abs n (window debounce) (fs.abs path)

-- Close: the loop is told to end; the second call does nothing.
unfoldable pub close : Watcher → Watcher
close w = if w.done then w else record w { done = true }

-- One more watcher is open where the call succeeds, and none where it does not.
abbrev pub open_after : Opened → ℕ → ℕ
open_after (watching w) n = n + 1
open_after (not_opened e) n = n

module _ (fs : FileSystem) where
  after_new-open_after :
      (w : Watcher) (n : ℕ) (o : Option ℕ)
      → (after_new fs w n o).1 ≡ open_after (after_new fs w n o).0 n
  unfolding after_new after_add
  after_new-open_after w n o = ground arith

  after_stat-open_after :
      (n d p : ℕ) (o : Outcome Bool)
      → (after_stat fs n d p o).1 ≡ open_after (after_stat fs n d p o).0 n
  unfolding after_stat
  after_stat-open_after n d p (refused e) = refl
  after_stat-open_after n d p (got true) = after_new-open_after _ n fs.new_watcher
  after_stat-open_after n d p (got false) = after_new-open_after _ n fs.new_watcher

  after_abs-open_after :
      (n d : ℕ) (o : Outcome ℕ) → (after_abs fs n d o).1 ≡ open_after (after_abs fs n d o).0 n
  unfolding after_abs
  after_abs-open_after n d (refused e) = refl
  after_abs-open_after n d (got p) = after_stat-open_after n d p (fs.is_dir p)

  reload_abs-open_after :
      (n d : ℕ) (o : Outcome ℕ) → (reload_abs fs n d o).1 ≡ open_after (reload_abs fs n d o).0 n
  unfolding reload_abs
  reload_abs-open_after n d (refused e) = refl
  reload_abs-open_after n d (got p) = after_new-open_after _ n fs.new_watcher

  -- The start of a file watcher and the start of a reload watcher leave one more fsnotify watcher
  -- open where they succeed, and none where they return an error.
  pub open-open_after :
      (n debounce path : ℕ) (on_fire : Bool)
      → let (o, m) = open_watcher fs n debounce on_fire path in
        let (o', m') = open_reloader fs n debounce path in
        (m ≡ open_after o n) × (m' ≡ open_after o' n)
  unfolding open_watcher open_reloader
  open-open_after n debounce path true = (
    after_abs-open_after n (window debounce) (fs.abs path),
    reload_abs-open_after n (window debounce) (fs.abs path),
  )
  open-open_after n debounce path false =
      (refl, reload_abs-open_after n (window debounce) (fs.abs path))
