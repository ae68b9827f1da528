-- ===== src/SortedList/Shared.antt =====
-- What the threads of an optimistic list share, scopes with destructors, and the accesses between
-- which other threads take turns.
use optimistic_locking.Base.{ℕ, Option, none, some}
use optimistic_locking.Machine.{
  Exception, Outcome, ok, thrown, aborted, running, M, pure, and_then, World, advance,
}
use optimistic_locking.Epoch.{EpochHandler}
use optimistic_locking.SortedList.{Heap}

-- What the list's threads share besides the lock's word: the nodes with `root_`, and the handler;
-- and the variable that the thread which runs here has passed to `LookUp` for the result.
pub record Shared (T : Type 0) : Type 0 where
  pub heap : Heap T
  pub epoch : EpochHandler
  pub result : Option T

module _ {T : Type 0} where
  abbrev pub with_heap : World (Shared T) → Heap T → World (Shared T)
  with_heap w h = record w { mem = record (w.mem) { rest = record ((w.mem).rest) { heap = h } } }

  abbrev pub with_epoch : World (Shared T) → EpochHandler → World (Shared T)
  with_epoch w e = record w { mem = record (w.mem) { rest = record ((w.mem).rest) { epoch = e } } }

  abbrev pub set_result : T → M (World (Shared T)) (Unit {0})
  set_result v w =
      ok tt (record w { mem = record (w.mem) { rest = record ((w.mem).rest) { result = some v } } })

  abbrev pub back :
      {A : Type 0} → World (Shared T) → Outcome (Heap T) A → Outcome (World (Shared T)) A
  back w (ok a h) = ok a (with_heap w h)
  back w (thrown e h) = thrown e (with_heap w h)
  back w aborted = aborted
  back w running = running

  -- a part of the body that runs at once
  abbrev pub on_heap : {A : Type 0} → M (Heap T) A → M (World (Shared T)) A
  on_heap m w = back w (m ((w.mem).rest).heap)

  -- an access of a node or of `root_`, before which the others may move
  abbrev pub racing : {A : Type 0} → M (Heap T) A → M (World (Shared T)) A
  racing m w = on_heap m (advance w)

  abbrev pub stored : World (Shared T) → Option EpochHandler → Outcome (World (Shared T)) (Unit {0})
  stored w none = aborted
  stored w (some e) = ok tt (with_epoch w e)

  -- an access of the handler
  abbrev pub on_epoch : (EpochHandler → Option EpochHandler) → M (World (Shared T)) (Unit {0})
  on_epoch f w = let w' = advance w in stored w' (f ((w'.mem).rest).epoch)

  abbrev pub load_global_epoch : M (World (Shared T)) ℕ
  load_global_epoch w = let w' = advance w in ok (((w'.mem).rest).epoch).global_epoch w'

  abbrev pub root_of : M (Heap T) ℕ
  root_of h = ok h.root h

-- The end of a scope: the destructor `d` runs, also after an exception; one that throws then ends
-- the process.
module _ {W : Type 0} where
  abbrev pub rethrow : Exception → Outcome W (Unit {0}) → {A : Type 0} → Outcome W A
  rethrow e (ok _ w) = thrown e w
  rethrow e (thrown _ w) = aborted
  rethrow e aborted = aborted
  rethrow e running = running

  abbrev pub leave : {A : Type 0} → M W (Unit {0}) → Outcome W A → Outcome W A
  leave d (ok a w) = and_then (d w) (λ _. pure a)
  leave d (thrown e w) = rethrow e (d w)
  leave d aborted = aborted
  leave d running = running
