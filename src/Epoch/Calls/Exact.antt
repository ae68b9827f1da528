-- ===== src/Epoch/Calls/Exact.antt =====
-- src/sync/epoch.cc: `FreeOutdatedPtr` for a thread that defers pointers in its guard alone.
use optimistic_locking.Base.{
  ℕ, ◌+◌, ◌^◌, ◌<◌, ◌≡◌, Bool, false, none, some, List, [], ◌∷◌, length, get_elem?,
  get_elem?-replicate, set, arith,
}
use Prim.Native.Nat.{min}
use optimistic_locking.Epoch.{
  max_number_of_worker, ToFreePointer, EpochHandler, pointers, epoch_handler, free_outdated_ptr,
  min_epoch, max_value,
}
use optimistic_locking.Epoch.Calls.{Loads, loads_after, Event, Run, done, made}
use optimistic_locking.Epoch.Calls.Ordered.{IsOrdered, below, not_below, outdated-below}
use optimistic_locking.Epoch.Calls.Handled.{Handled, perform-Handled}
use optimistic_locking.Epoch.Calls.Bracketed.{is_inside, IsBracketed, Ordered, behind}
use optimistic_locking.Epoch.Calls.Stepped.{Step, perform-Step}

Run-Ordered :
    (tid : ℕ) (b : Bool) (loads : Loads) (h h' : EpochHandler) (es : List Event)
    → IsBracketed tid b es
    → h.global_epoch + length es < 2 ^ 64
    → Run loads h es h'
    → Ordered tid b loads h
    → (q : List ToFreePointer) × (get_elem? h'.to_free_ptr tid ≡ some q) × IsOrdered q
Run-Ordered tid b loads h h' [] bracketed small done o = (o.queue, o.found, o.ordered)
Run-Ordered tid b loads h h' (_ ∷ _) bracketed small (made {h1 = h1} c freed es l call more) o =
    let r : Handled tid c freed h h1 = perform-Handled tid c h h1 freed o.queue o.found call in
    let s : Step tid b c loads h h1 o.top r.new =
      perform-Step tid o.top b c loads h h1 freed r bracketed.0 l (omega arith) call o.is_top
        o.pending in
    let global = s.global in
    Run-Ordered tid (is_inside tid b c) (loads_after loads c h) h1 h' es bracketed.1 (omega arith)
      more
      (behind tid s.next b (is_inside tid b c) c freed loads (loads_after loads c h) h h1 o r s.le
        s.at s.is_top s.pending)

free_outdated_ptr-below :
    (tid : ℕ) (h : EpochHandler) (q : List ToFreePointer)
    → get_elem? h.to_free_ptr tid ≡ some q
    → IsOrdered q
    → let least = min_epoch max_value h.local_epoch in
      free_outdated_ptr tid h
      ≡ some (
        pointers (below least q),
        record h { to_free_ptr = set h.to_free_ptr tid (not_below least q) },
      )
unfolding free_outdated_ptr
free_outdated_ptr-below tid h q found ordered =
    let (b, n) = outdated-below (min_epoch max_value h.local_epoch) q ordered in
    rw (← b, ← n) (ground arith)

-- Let a handler be made and the threads make any calls of it, in any order, that all return and
-- are fewer than `2 ^ 64`, in which thread `tid`, one of the first `no_threads` and 128, defers
-- pointers in its guard alone. `FreeOutdatedPtr` for the thread then returns; the pointers that it
-- frees are all those in the thread's list, in order, whose epoch is below the least of the local
-- epochs and `MAX_VALUE`, and it leaves the others, in order, and all else as it is.
pub bracketed_outdated_all_freed :
    (n tid : ℕ) (h : EpochHandler) (es : List Event)
    → tid < min n max_number_of_worker
    → IsBracketed tid false es
    → length es < 2 ^ 64
    → Run (λ _. none) (epoch_handler n) es h
    → let least = min_epoch max_value h.local_epoch in
      (q : List ToFreePointer) × (get_elem? h.to_free_ptr tid ≡ some q)
      × (free_outdated_ptr tid h
          ≡ some (
            pointers (below least q),
            record h { to_free_ptr = set h.to_free_ptr tid (not_below least q) },
          ))
unfolding epoch_handler
bracketed_outdated_all_freed n tid h es own bracketed small run =
    let (q, found, ordered) =
      Run-Ordered tid false (λ _. none) (epoch_handler n) h es bracketed (omega arith) run
        (record {
          queue = [];
          top = 0;
          found = get_elem?-replicate (min n max_number_of_worker) tid [] own;
          ordered = tt;
          at_most = tt;
          is_top = omega arith;
          pending = λ v e. cc;
        }) in
    (q, found, free_outdated_ptr-below tid h q found ordered)
