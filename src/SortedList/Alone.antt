-- ===== src/SortedList/Alone.antt =====
-- src/list/list.cc: the operations of `OptimisticSortedList` where no other thread moves.
use optimistic_locking.Base.{
  ℕ, zero, suc, ◌<◌, ◌≡◌, ◌≢◌, refl, ap, ◌∙◌, inl, inr, Bool, true, false, Option, none, some, List,
  ltb, ◌==◌, length, get_elem?, set, Bool-cases, get_elem?-set_self, set-set_self, arith,
}
use optimistic_locking.Machine.{Memory, World, Outcome, ok, M, quiet, ◌>>=◌}
use optimistic_locking.Lock.Word.{exclusive, lock_state}
use optimistic_locking.Guard.{optimistic, must_restart, destroy_guard, validate_optimistic_lock}
use optimistic_locking.Guard.Steps.{hybrid_guard-optimistic}
use optimistic_locking.Epoch.{max_value, destroy_epoch_guard}
use optimistic_locking.SortedList.{null, Heap, load_node}
use optimistic_locking.SortedList.Chain.{
  Chain, stop, node, load_node_lem, IsSorted, find_equal, find_equal-none,
}
use optimistic_locking.SortedList.Search.{not_null}
use optimistic_locking.SortedList.Shared.{Shared, racing, root_of, on_epoch}
use optimistic_locking.SortedList.Optimistic.{
  OptimisticSortedList, with_hybrid_guard, with_epoch_guard, racing_look_up, look_up_attempt,
  optimistic_look_up,
}

module _ {T : Type 0} where
  -- `result` holds a value that was found.
  abbrev pub with_result : Shared T → Option T → Shared T
  with_result s none = s
  with_result s (some v) = record s { result = some v }

  abbrev pub is_some : Option T → Bool
  is_some none = false
  is_some (some v) = true

  abbrev pub found_in : Memory (Shared T) → Option T → Outcome (World (Shared T)) Bool
  found_in m o = ok (is_some o) (quiet (record m { rest = with_result m.rest o }))

module _ {T : Type 0} (key : T → ℕ) (value : T) (m : Memory (Shared T)) where
  abbrev h : Heap T
  h = (m.rest).heap

  racing_load :
      (p next : ℕ) (v : T)
      → p ≢ null
      → h.nodes p ≡ some (record { value = v; next = next })
      → racing (load_node p) (quiet m) ≡ ok (record { value = v; next = next }) (quiet m)
  racing_load p next v ne e = rw (load_node_lem h p next v ne e) refl

  racing_look_up-find_equal :
      (rounds : ℕ) {p : ℕ} {xs : List (ℕ × T)}
      → Chain h p xs
      → IsSorted key xs
      → length xs < rounds
      → racing_look_up key rounds value p (quiet m) ≡ found_in m (find_equal key value xs)
  unfolding racing_look_up
  racing_look_up-find_equal zero c sorted enough = absurd (omega arith)
  racing_look_up-find_equal (suc rounds) stop sorted enough = refl
  racing_look_up-find_equal (suc rounds) (node {p} {next} {v} {xs} ne e c) sorted enough =
      let loaded = load_node_lem h p next v ne e in
      rw (not_null p ne, loaded)
        (elim (Bool-cases (ltb (key value) (key v))) [
          | inl past ↦
              let other : (key v == key value) ≡ false = ground arith in
              rw (past, other, find_equal-none key value v xs (ground arith) sorted.0) refl
          | inr before ↦
              rw (before, loaded)
                (elim (Bool-cases (key v == key value)) [
                  | inl hit ↦ rw (hit, loaded) refl
                  | inr miss ↦
                      rw (miss, loaded) (racing_look_up-find_equal rounds c sorted.1 (omega arith))
                ])
        ])

pub must_restart_self : (w : ℕ) → lock_state w ≢ exclusive → must_restart w w ≡ false
unfolding must_restart
must_restart_self w h = ground arith

-- A scope with an optimistic guard, alone, on a lock that nobody holds exclusively, round a body that
-- leaves the lock alone.
pub with_hybrid_guard-optimistic :
    {T A : Type 0} (lock rounds : ℕ) (body : M (World (Shared T)) A) (m : Memory (Shared T)) (a : A)
    (rest : Shared T)
    → lock_state (m.cells lock) ≢ exclusive
    → body (quiet m) ≡ ok a (quiet (record m { rest = rest }))
    → with_hybrid_guard (suc rounds) lock optimistic body (quiet m)
      ≡ ok a (quiet (record m { rest = rest }))
unfolding with_hybrid_guard destroy_guard validate_optimistic_lock
with_hybrid_guard-optimistic lock rounds body m a rest open_ run =
    rw (hybrid_guard-optimistic lock m rounds open_, run, must_restart_self (m.cells lock) open_)
      refl

module _ {T : Type 0} (m : Memory (Shared T)) where
  -- memory with the thread's local epoch set
  abbrev pub at_epoch : ℕ → ℕ → Memory (Shared T)
  at_epoch tid v = record m {
    rest = record (m.rest) {
      epoch = record ((m.rest).epoch) { local_epoch = set ((m.rest).epoch).local_epoch tid v };
    };
  }

  -- the end of an `EpochGuard`, where the thread has a slot
  leave_epoch :
      (tid seen : ℕ) (s : Shared T)
      → get_elem? (s.epoch).local_epoch tid ≡ some seen
      → on_epoch (destroy_epoch_guard tid) (quiet (record m { rest = s }))
        ≡ ok tt (
            quiet (record m {
              rest = record s {
                epoch = record (s.epoch) { local_epoch = set (s.epoch).local_epoch tid max_value };
              };
            }))
  unfolding destroy_epoch_guard
  leave_epoch tid seen s slot = rw slot refl

  pub epoch_left :
      (tid e seen : ℕ) (o : Option T)
      → get_elem? ((m.rest).epoch).local_epoch tid ≡ some seen
      → on_epoch
          (destroy_epoch_guard tid)
          (quiet (record m { rest = with_result ((at_epoch tid e).rest) o }))
        ≡ ok tt (quiet (record m { rest = with_result ((at_epoch tid max_value).rest) o }))
  epoch_left tid e seen none slot =
      let l = ((m.rest).epoch).local_epoch in
      leave_epoch tid e ((at_epoch tid e).rest) (get_elem?-set_self l tid e slot)
      ∙ ap
          (λ (l' : List ℕ). ok tt (
            quiet (record m {
              rest = record (m.rest) { epoch = record ((m.rest).epoch) { local_epoch = l' } };
            })))
          (set-set_self l tid e max_value)
  epoch_left tid e seen (some v) slot =
      let l = ((m.rest).epoch).local_epoch in
      leave_epoch tid e (with_result ((at_epoch tid e).rest) (some v))
        (get_elem?-set_self l tid e slot)
      ∙ ap
          (λ (l' : List ℕ). ok tt (
            quiet (record m {
              rest = record (m.rest) {
                epoch = record ((m.rest).epoch) { local_epoch = l' };
                result = some v;
              };
            })))
          (set-set_self l tid e max_value)

module _ {T : Type 0} (key : T → ℕ) (value : T) (m : Memory (Shared T)) where
  -- On a sorted list of which every node is on the heap, with more rounds than nodes, where the lock
  -- is not held exclusively, the thread has a slot in the handler, and no other thread moves:
  -- `OptimisticSortedList::LookUp` returns from its first attempt. It says whether some node equals
  -- the value, has stored that of the first such node in `result`, has left the thread's local epoch
  -- at `MAX_VALUE`, and has changed nothing else.
  pub optimistic_look_up-find_equal :
      (tries rounds : ℕ) (list : OptimisticSortedList) (tid : ℕ) {xs : List (ℕ × T)} {seen : ℕ}
      → lock_state (m.cells list.lock) ≢ exclusive
      → get_elem? ((m.rest).epoch).local_epoch tid ≡ some seen
      → Chain (m.rest).heap ((m.rest).heap).root xs
      → IsSorted key xs
      → length xs < suc rounds
      → optimistic_look_up key (suc tries) (suc rounds) list tid value (quiet m)
        ≡ found_in (at_epoch m tid max_value) (find_equal key value xs)
  unfolding optimistic_look_up look_up_attempt with_epoch_guard destroy_epoch_guard
  optimistic_look_up-find_equal tries rounds list tid {xs} {seen} open_ slot c sorted enough =
      let e = ((m.rest).epoch).global_epoch in
      let inside = at_epoch m tid e in
      let body = racing_look_up-find_equal key value inside (suc rounds) c sorted enough in
      let o = find_equal key value xs in
      let inner : M (World (Shared T)) Bool =
        racing root_of >>= λ first. racing_look_up key (suc rounds) value first in
      let scope =
        with_hybrid_guard-optimistic list.lock rounds inner inside (is_some o)
          (with_result inside.rest o) open_ body in
      rw slot (rw scope (rw (epoch_left m tid e seen o slot) refl))
