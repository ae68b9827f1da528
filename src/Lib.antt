-- ===== src/Lib.antt =====
-- The optimistic-locking library: a lock with shared, exclusive and optimistic modes in one atomic
-- word, a scoped guard, epoch-based reclamation of memory, sorted lists that use them, and a client of
-- PostgreSQL that deposits to accounts with pessimistic and optimistic locking.
--
-- Files, and the code that they model (paths from the repository's root):
--   Base, Base/*       names, lists, families `ℕ → A`, laws of `&` and `|` for every width.
--   Machine            what the code uses of C++: 64-bit atomics by address, assertions, exceptions. A
--                      world holds memory and the turns of other threads: before each access the
--                      next turn changes memory, and says whether a weak exchange fails.
--   Lock/Word          project/include/sync/lock.h: the word of `HybridLock`, 8 bits of state over 56
--                      bits of version. `lock_state` and `version` are the static members,
--                      `same_version_new_state` and `next_version_new_state` the private ones.
--   Lock               project/src/sync/lock.cc: the constructor and the operations of `HybridLock`.
--   Lock/Attempts      what one attempt does to memory; Lock/Spec the abstract lock; Lock/Refinement
--                      the operations against it; Lock/Wrap the release at the last version,
--                      Lock/Retry the loop of `UnlockShared`. Lock/Interface is the class of
--                      project/include/sync/lock.h as a record, Lock/History sequences of its calls.
--   Guard              project/include/sync/guard.h, project/src/sync/guard.cc: `HybridGuard`, its
--                      constructor, destructor, move assignment and methods. Guard/Life has whole
--                      lives of guards, Guard/Wait, Room and Open the three waiting loops of the
--                      constructor.
--   Threads, Threads/* n threads that use one lock, interleaved at each access of its word. A move is
--                      a call of the code of Lock and Guard, or one of the accesses of
--                      `UnlockExclusive`, `DowngradeLock` and `UnlockShared`. Threads/Code joins the
--                      two views: Code/Locks and Code/Guards run the code of Lock and Guard as moves of
--                      one thread.
--   Epoch, Epoch/*     project/include/sync/epoch.h, project/src/sync/epoch.cc: `EpochHandler`, its
--                      vectors as lists, and the two ends of `EpochGuard` for the slot of a thread. An
--                      operation is one step here, but the constructor of `EpochGuard` is two, a load
--                      and a store; Epoch/Reclaim has what is freed, Epoch/Hazards what
--                      is not protected and what is never freed. Epoch/Calls has the threads' calls of
--                      one handler in any order: Handled what a call does to the list of a thread,
--                      Conserved where deferred pointers go, Kept what a pointer that is not outdated
--                      keeps, Blocked one deferred outside of a guard, Unused a slot that no thread
--                      uses, Oldest and Protected a thread that stays in its guard, Ordered, Bracketed,
--                      Stepped and Exact one that defers pointers in its guard alone.
--   Workers            project/include/common/utils.h, project/src/common/utils.cc: the ids of threads,
--                      the handler of SIGSEGV.
--   SortedList         project/include/list/node.h, project/src/list/list.cc: nodes on a heap; the bodies
--                      of `Insert`, `LookUp` and `Delete` and the destructor, as the thread runs them
--                      that has taken the list's lock. Values are compared by a number.
--   SortedList/Chain, Search, Remove, Place, Sorted, Insert, Delete, Destroy
--                      the bodies on a sorted list.
--   SortedList/Mutex   `MutexSortedList` of project/include/list/list.h: the bodies under its mutex.
--   SortedList/Shared, Optimistic
--                      `OptimisticSortedList`: its guards, the attempts of `LookUp` with other threads'
--                      turns before each access of a node, the deferred free of `Delete`.
--   SortedList/Alone, Locked, Agree, Ids
--                      the optimistic list where nobody else moves, beside the mutex list, and which
--                      ids the threads have, beside the handler's slots.
--   SortedList/Waiting, Undisturbed, Interleaved, Deferring
--                      its writers where the others hold the lock first, and move while it is held.
--   SortedList/Racing, Racing/*
--                      `LookUp` of the optimistic list while writers come by: what the others may do,
--                      the loop, the guards round it, the attempts; Racing/Writers
--                      the operations of the lock beside it.
--   SortedList/Total, Total/*
--                      the same `LookUp` beside turns that free no node within its reach and come to
--                      an end: the loop, the guards round it, the attempts.
--   SortedList/Interface, RoundTrip, RoundTrip/*
--                      the base class `SortedList` as a record of operations, which both lists fill,
--                      and a client of it: `Insert`, `LookUp`, `Delete`, `LookUp` of one value.
--   Postgres           project/postgresql/opt_and_pess_lock.cc: the two repositories. A program is a tree
--                      of the calls that it makes of libpqxx and the runtime, which a database answers;
--                      Postgres/Calls has the calls, exceptions and destructors.
--   Postgres/Workload  the threads of the two tests, the functions that make, fill and empty the table,
--                      `main`. The prepared statements are kept as their text.
--   Postgres/Server    how programs run, alone or as interleaved threads; Postgres/Statements the
--                      texts that the names of prepared statements stand for; Postgres/Table what is
--                      relied on of PostgreSQL, as a record of laws about committed rows and the rows
--                      that an open transaction has written; Postgres/Keeps, Optimistic, Ledger, Effects,
--                      LostUpdates the deposits of `testDataOpt`; Postgres/Missing unknown names.
--                      Postgres/Locks is what is relied on of row locks; Postgres/Holding, Pessimistic,
--                      Guarded, LockSteps, LockEffects, LockCalls, LockedUpdates the deposits of
--                      `testDataPess`: what a thread knows of the rows that it has locked. Postgres/Traces
--                      has the stages of a thread by its calls, Postgres/Earned, OptEarned, PessEarned
--                      what it has done where it disconnects.
--   Tests, Tests/*     runs at concrete inputs and instances of the theorems.
--
-- Integers are natural numbers with the wrap at 2 ^ 64 written out. A failed assertion ends a run as
-- `aborted`: the Makefile's build defines no NDEBUG. Waiting loops take a number of rounds and end as
-- `running` when it is used up. The atomics are sequentially consistent. The results over threads hold
-- while writers have released the lock fewer than 2 ^ 56 times: at the last version the carry of
-- `NextVersionNewState` goes into the state, which Lock/Wrap shows. The epochs wrap at 2 ^ 64.
--
-- Not modelled: the tests, and the vendored test framework
-- project/include/common/utest.h. Of libpqxx and PostgreSQL nothing is defined: `Client`, `Server` and
-- `Obeys` or `ObeysLocks` are what the code relies on, and Tests/Bank and Tests/LockBank are small
-- databases that meet it. A `double` and its addition are the client's. Ids and versions of accounts are natural numbers, as the table makes
-- them (`SERIAL`, and a count from 0). The loop of `depositOpt` takes a number of rounds.
pub mod Base
pub mod Machine
pub mod Lock
pub mod Guard
pub mod Threads
pub mod Epoch
pub mod Workers
pub mod SortedList
pub mod Postgres
pub mod Tests
