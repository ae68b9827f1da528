-- ===== src/Threads/Code.antt =====
-- src/sync/lock.cc, src/sync/guard.cc: the code of the lock and of the guard as one thread runs it,
-- with the others' turns before each access, as moves of that thread.

pub mod Locks
pub mod Guards
use optimistic_locking.Base.{ℕ}
use optimistic_locking.Machine.{
  Memory, World, Outcome, ok, thrown, aborted, running, advance, and_then,
}
use optimistic_locking.Threads.{Pc, crashed, Shared, Move}

module _ {D : Type 0} where
  -- Shared memory, with a count of the releases, which no code reads.
  abbrev pub seen_in : Memory D → ℕ → Shared D
  seen_in m n = record { mem = m; bumps = n }

  -- The moves of a thread that the code makes from one world to another: an access comes behind the
  -- next turn of the others; a silent move goes on with what the thread has loaded. They are moves
  -- whatever the count of the releases is, and `k` is what they make of it.
  pub data Runs (lock : ℕ) : World D → Pc D → World D → Pc D → Type 0 where
    done : {w : World D} {p : Pc D} → Runs lock w p w p
    silent :
        {w w' : World D} {p q p' : Pc D}
        → ((n : ℕ) → Move lock (seen_in w.mem n) p (seen_in w.mem n) q)
        → Runs lock w q w' p'
        → Runs lock w p w' p'
    access :
        {w w' : World D} {p q p' : Pc D} {m : Memory D} (k : ℕ → ℕ)
        → ((n : ℕ) → Move lock (seen_in (advance w).mem n) p (seen_in m (k n)) q)
        → Runs lock (record (advance w) { mem = m }) q w' p'
        → Runs lock w p w' p'

  pub Runs-append :
      {lock : ℕ} {w w1 w2 : World D} {p p1 p2 : Pc D}
      → Runs lock w p w1 p1
      → Runs lock w1 p1 w2 p2
      → Runs lock w p w2 p2
  Runs-append done more = more
  Runs-append (silent m rest) more = silent m (Runs-append rest more)
  Runs-append (access k m rest) more = access k m (Runs-append rest more)

-- The code does moves of the thread, however it ends: it returns where `P` says, an exception leaves
-- it at `q`, and a failed assertion is a crash.
abbrev pub Follows :
    {W D A : Type 0}
    → (W → World D)
    → ℕ
    → (A → W → Pc D)
    → Pc D
    → World D
    → Pc D
    → Outcome W A
    → Type 0
Follows of lock P q w p (ok a s) = Runs lock w p (of s) (P a s)
Follows of lock P q w p (thrown e s) = Runs lock w p (of s) q
Follows {D = D} of lock P q w p aborted = (w' : World D) × Runs lock w p w' crashed
Follows of lock P q w p running = Unit

module _ {W D : Type 0} (of : W → World D) (lock : ℕ) (q : Pc D) where
  pub Follows-extend :
      {A : Type 0} (P : A → W → Pc D) (w w1 : World D) (p p1 : Pc D) (x : Outcome W A)
      → Runs lock w p w1 p1
      → Follows of lock P q w1 p1 x
      → Follows of lock P q w p x
  Follows-extend P w w1 p p1 (ok a s) one h = Runs-append one h
  Follows-extend P w w1 p p1 (thrown e s) one h = Runs-append one h
  Follows-extend P w w1 p p1 aborted one (w', h) = (w', Runs-append one h)
  Follows-extend P w w1 p p1 running one h = tt

  pub Follows-and_then :
      {A B : Type 0} (P : A → W → Pc D) (P' : B → W → Pc D) (w : World D) (p : Pc D)
      (x : Outcome W A) (k : A → W → Outcome W B)
      → Follows of lock P q w p x
      → ((a : A) (s : W) → Follows of lock P' q (of s) (P a s) (k a s))
      → Follows of lock P' q w p (and_then x k)
  Follows-and_then P P' w p (ok a s) k h then_ =
      Follows-extend P' w (of s) p (P a s) (k a s) h (then_ a s)
  Follows-and_then P P' w p (thrown e s) k h then_ = h
  Follows-and_then P P' w p aborted k h then_ = h
  Follows-and_then P P' w p running k h then_ = h
