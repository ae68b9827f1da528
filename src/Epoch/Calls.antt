-- ===== src/Epoch/Calls.antt =====
-- src/sync/epoch.cc: the calls that the threads make of one `EpochHandler`, one after the other, as
-- the workers of test/epoch.cc do: they enter and leave guards, defer and reclaim pointers and advance
-- the global epoch.
pub mod Handled
pub mod Conserved
pub mod Oldest
pub mod Kept
pub mod Protected
pub mod Blocked
pub mod Ordered
pub mod Bracketed
pub mod Stepped
pub mod Exact
pub mod Unused
use optimistic_locking.Base.{
  ℕ, ◌≡◌, Option, none, some, List, [], ◌∷◌, ◌++◌, ◌==◌, if◌then◌else◌, update,
}
use optimistic_locking.Epoch.{
  load_epoch, EpochHandler, advance_global_epoch, free_outdated_ptr, defer_free_pointer,
  epoch_guard, destroy_epoch_guard,
}

pub data Call : Type 0 where
  advance : Call
  load : ℕ → Call  -- the first access of a guard's constructor
  enter : ℕ → ℕ → Call  -- and the second, with what the first has loaded
  leave : ℕ → Call
  defer : ℕ → ℕ → Call
  reclaim : ℕ → Call

abbrev pub quietly : Option EpochHandler → Option (List ℕ × EpochHandler)
quietly none = none
quietly (some h) = some ([], h)

-- What the call frees, and the handler behind it.
unfoldable pub perform : Call → EpochHandler → Option (List ℕ × EpochHandler)
perform advance h = some ([], advance_global_epoch h)
perform (load tid) h = some ([], h)
perform (enter tid loaded) h = quietly (epoch_guard tid loaded h)
perform (leave tid) h = quietly (destroy_epoch_guard tid h)
perform (defer tid ptr) h = quietly (defer_free_pointer tid ptr h)
perform (reclaim tid) h = free_outdated_ptr tid h

-- A call that was made, and the pointers that it freed.
pub record Event : Type 0 where
  pub call : Call
  pub freed : List ℕ

-- The epoch that each thread has loaded and not stored as yet.
abbrev pub Loads : Type 0
Loads = ℕ → Option ℕ

-- A guard's constructor stores what it has loaded.
abbrev pub IsLoaded : Loads → Call → Type 0
IsLoaded loads (enter t loaded) = loads t ≡ some loaded
IsLoaded loads _ = Unit

abbrev pub loads_after : Loads → Call → EpochHandler → Loads
loads_after loads (load t) h = update loads t (some (load_epoch h))
loads_after loads (enter t loaded) h = update loads t none
loads_after loads _ h = loads

-- The calls are made one after the other; those of a thread's guard may have others' in between.
pub data Run : Loads → EpochHandler → List Event → EpochHandler → Type 0 where
  done : {loads : Loads} {h : EpochHandler} → Run loads h [] h
  made :
      {loads : Loads} {h h1 h2 : EpochHandler} (c : Call) (freed : List ℕ) (es : List Event)
      → IsLoaded loads c
      → perform c h ≡ some (freed, h1)
      → Run (loads_after loads c h) h1 es h2
      → Run loads h (record { call = c; freed = freed } ∷ es) h2

-- What a call adds to the list of thread `tid`, and what it takes from there.
abbrev pub added : ℕ → Call → List ℕ
added tid (defer t ptr) = if t == tid then ptr ∷ [] else []
added tid advance = []
added tid (load t) = []
added tid (enter t loaded) = []
added tid (leave t) = []
added tid (reclaim t) = []

abbrev pub removed : ℕ → Call → List ℕ → List ℕ
removed tid (reclaim t) freed = if t == tid then freed else []
removed tid advance freed = []
removed tid (load t) freed = []
removed tid (enter t loaded) freed = []
removed tid (leave t) freed = []
removed tid (defer t ptr) freed = []

-- The same of all the calls made.
unfoldable pub deferred_by : ℕ → List Event → List ℕ
deferred_by tid [] = []
deferred_by tid (e ∷ es) = added tid e.call ++ deferred_by tid es

unfoldable pub freed_for : ℕ → List Event → List ℕ
freed_for tid [] = []
freed_for tid (e ∷ es) = removed tid e.call e.freed ++ freed_for tid es

-- All that the threads deferred, and all that the calls freed.
abbrev pub deferred_in : Call → List ℕ
deferred_in (defer t ptr) = ptr ∷ []
deferred_in advance = []
deferred_in (load t) = []
deferred_in (enter t loaded) = []
deferred_in (leave t) = []
deferred_in (reclaim t) = []

unfoldable pub all_deferred : List Event → List ℕ
all_deferred [] = []
all_deferred (e ∷ es) = deferred_in e.call ++ all_deferred es

unfoldable pub all_freed : List Event → List ℕ
all_freed [] = []
all_freed (e ∷ es) = e.freed ++ all_freed es
