-- ===== src/Workers.antt =====
-- include/common/utils.h, src/common/utils.cc: ids of threads, and the handler of SIGSEGV.
use optimistic_locking.Base.{ℕ, zero, suc, ◌+◌, ◌%◌, ◌^◌, List, [], ◌∷◌, Bool, if◌then◌else◌}
use optimistic_locking.Machine.{M, ok, thrown, throw, restart_exception, runtime_error}

-- The counter `worker_atomic_int`, an `int` that wraps, and the thread's own `thread_id`. Both are
-- kept as 32-bit patterns.
pub record Workers : Type 0 where
  pub worker_atomic_int : ℕ
  pub thread_id : ℕ

unfoldable pub initialize_thread : Workers → Workers
initialize_thread w =
    let next = (w.worker_atomic_int + 1) % 2 ^ 32 in
    record { worker_atomic_int = next; thread_id = next }

-- Another thread starts with the counter as it is and a `thread_id` of 0.
abbrev pub fresh_thread : Workers → Workers
fresh_thread w = record w { thread_id = 0 }

-- The ids of `n` threads that are initialised one after the other.
unfoldable pub initialize_threads : ℕ → Workers → List ℕ
initialize_threads zero w = []
initialize_threads (suc n) w =
    let w' = initialize_thread (fresh_thread w) in w'.thread_id ∷ initialize_threads n w'

abbrev pub sigsegv : ℕ
sigsegv = 11

abbrev pub sa_siginfo : ℕ
sa_siginfo = 4

unfoldable pub handle_segfault : {W : Type 0} → ℕ → M W (Unit {0})
handle_segfault signo = throw restart_exception

pub record Sigaction (W : Type 0) : Type 0 where
  pub sa_flags : ℕ
  pub sa_sigaction : ℕ → M W (Unit {0})

-- `sigaction` is the operating system's; it says whether it failed.
unfoldable pub register_segfault_handler :
    {W : Type 0} → (ℕ → Sigaction W → W → Bool × W) → M W (Unit {0})
unfolding handle_segfault
register_segfault_handler {W} sigaction w =
    let action : Sigaction W = record { sa_flags = sa_siginfo; sa_sigaction = handle_segfault } in
    let (failed, w') = sigaction sigsegv action w in
    if failed then thrown runtime_error w' else ok tt w'
