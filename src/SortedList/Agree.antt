-- ===== src/SortedList/Agree.antt =====
-- src/list/list.cc: `LookUp` of the two lists on the same nodes, whatever these are.
use optimistic_locking.Base.{
  ℕ, zero, suc, ◌+◌, ◌-◌, ◌≡◌, ◌≢◌, refl, ap, ◌∙◌, inl, inr, Bool, false, Option, none, some, ltb,
  ◌==◌, get_elem?, Bool-cases, Option-cases, arith,
}
use optimistic_locking.Machine.{
  Memory, World, Outcome, ok, thrown, aborted, running, M, quiet, ◌>>=◌,
}
use optimistic_locking.Lock.Word.{exclusive, lock_state}
use optimistic_locking.Epoch.{max_value}
use optimistic_locking.SortedList.{Node, null, Heap, load_node, look_up_loop, look_up}
use optimistic_locking.SortedList.Mutex.{
  MutexSortedList, SharedMutex, unlocked_by, with_shared_lock, mutex_look_up,
}
use optimistic_locking.SortedList.Shared.{Shared, racing, root_of}
use optimistic_locking.SortedList.Optimistic.{
  OptimisticSortedList, with_epoch_guard, racing_look_up, look_up_attempt, optimistic_look_up,
}
use optimistic_locking.SortedList.Alone.{
  with_result, is_some, found_in, at_epoch, with_hybrid_guard-optimistic, epoch_left,
}

module _ {T : Type 0} (key : T → ℕ) (value : T) (m : Memory (Shared T)) where
  abbrev h : Heap T
  h = (m.rest).heap

  -- how the loop of the optimistic list ends where that of the mutex list ends so
  abbrev as_racing : Outcome (Heap T) (Option T) → Outcome (World (Shared T)) Bool
  as_racing (ok o _) = found_in m o
  as_racing (thrown e _) = thrown e (quiet m)
  as_racing aborted = aborted
  as_racing running = running

  loaded : (p : ℕ) (n : Node T) → (p == null) ≡ false → h.nodes p ≡ some n → load_node p h ≡ ok n h
  unfolding load_node
  loaded p n inside there = rw (inside, there) refl

  not_loaded : (p : ℕ) → h.nodes p ≡ none → load_node p h ≡ aborted
  unfolding load_node
  not_loaded p dangling = rw dangling (ground arith)

  racing_look_up-look_up_loop :
      (rounds p : ℕ)
      → racing_look_up key rounds value p (quiet m) ≡ as_racing (look_up_loop key rounds value p h)
  unfolding racing_look_up look_up_loop
  racing_look_up-look_up_loop zero p = refl
  racing_look_up-look_up_loop (suc rounds) p = elim (Bool-cases (p == null)) [
    | inl end ↦ rw end refl
    | inr inside ↦ elim (Option-cases (h.nodes p)) [
      | inl dangling ↦ rw (inside, not_loaded p dangling) refl
      | inr (n, there) ↦
          let got = loaded p n inside there in
          elim (Bool-cases (ltb (key value) (key n.value))) [
            | inl past ↦ rw (inside, got, past) refl
            | inr before ↦ elim (Bool-cases (key n.value == key value)) [
              | inl hit ↦ rw (inside, got, before, got, hit, got) refl
              | inr miss ↦
                  rw (inside, got, before, got, miss, got)
                    (racing_look_up-look_up_loop rounds n.next)
            ]
          ]
    ]
  ]

  answer_of :
      (lock : SharedMutex) (x : Outcome (Heap T) (Option T)) (o : Option T) (l : MutexSortedList T)
      → unlocked_by (λ u. record u { readers = u.readers - 1 }) lock x ≡ ok o l
      → as_racing x ≡ found_in m o
  answer_of lock (ok o' h') o l e = let same : o' ≡ o = cc in ap (found_in m) same
  answer_of lock (thrown x h') o l e = cc
  answer_of lock aborted o l e = cc
  answer_of lock running o l e = cc

module _ {T : Type 0} (key : T → ℕ) (value : T) (m : Memory (Shared T)) where
  -- Let the two lists have the same nodes, which may be any, and no other thread move. Where
  -- `MutexSortedList::LookUp` returns, with no writer at its mutex, `OptimisticSortedList::LookUp`
  -- returns from its first attempt with the same answer, if its lock is not held exclusively and the
  -- thread has a slot in the handler; the local epoch is at `MAX_VALUE` then, and nothing but that
  -- and `result` has changed.
  pub look_ups_agree :
      (tries rounds : ℕ) (list : OptimisticSortedList) (tid seen : ℕ) (mutex : SharedMutex)
      (o : Option T) (l : MutexSortedList T)
      → lock_state (m.cells list.lock) ≢ exclusive
      → get_elem? ((m.rest).epoch).local_epoch tid ≡ some seen
      → mutex.writer ≡ false
      → mutex_look_up key (suc rounds) value (record { heap = (m.rest).heap; lock = mutex })
        ≡ ok o l
      → optimistic_look_up key (suc tries) (suc rounds) list tid value (quiet m)
        ≡ found_in (at_epoch m tid max_value) o
  unfolding optimistic_look_up look_up_attempt with_epoch_guard mutex_look_up with_shared_lock
      look_up
  look_ups_agree tries rounds list tid seen mutex o l open_ slot free run =
      let e = ((m.rest).epoch).global_epoch in
      let inside = at_epoch m tid e in
      let answer =
        answer_of key value inside (record { writer = false; readers = mutex.readers + 1 })
          (look_up_loop key (suc rounds) value ((m.rest).heap).root (m.rest).heap) o l
          (rw free at run) in
      let body =
        racing_look_up-look_up_loop key value inside (suc rounds) ((m.rest).heap).root ∙ answer in
      let inner : M (World (Shared T)) Bool =
        racing root_of >>= λ first. racing_look_up key (suc rounds) value first in
      let scope =
        with_hybrid_guard-optimistic list.lock rounds inner inside (is_some o)
          (with_result inside.rest o) open_ body in
      rw slot (rw scope (rw (epoch_left m tid e seen o slot) refl))
