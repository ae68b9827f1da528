-- ===== src/SortedList.antt =====
-- include/list/node.h, include/list/list.h, src/list/list.cc: the nodes of a sorted list on a heap,
-- and the bodies of `Insert`, `LookUp` and `Delete`, which both lists share, as the thread runs them
-- that has taken the list's lock. `T` is compared by a number, as the tests' `Student` is by its
-- `matrID`. A loop takes its number of rounds.
pub mod Chain
pub mod Search
pub mod Remove
pub mod Place
pub mod Sorted
pub mod Insert
pub mod Delete
pub mod Mutex
pub mod Shared
pub mod Optimistic
pub mod Alone
pub mod Locked
pub mod Waiting
pub mod Undisturbed
pub mod Interleaved
pub mod Deferring
pub mod Ids
pub mod Agree
pub mod Destroy
pub mod Interface
pub mod RoundTrip
pub mod Racing
pub mod Total
use optimistic_locking.Base.{
  ℕ, zero, suc, Bool, true, false, not, Option, none, some, ltb, ◌==◌, if◌then◌else◌, update,
}
use optimistic_locking.Machine.{M, Outcome, ok, aborted, running, pure, assert, ◌>>=◌, ◌>>◌}

pub record Node (T : Type 0) : Type 0 where
  pub value : T
  pub next : ℕ

abbrev pub null : ℕ
null = 0

-- `root_`, and the nodes by address
pub record Heap (T : Type 0) : Type 0 where
  pub root : ℕ
  pub nodes : ℕ → Option (Node T)

module _ {T : Type 0} where
  abbrev at_node : Heap T → Option (Node T) → Outcome (Heap T) (Node T)
  at_node h none = aborted
  at_node h (some n) = ok n h

  -- `*p`, which must be a node
  unfoldable pub load_node : ℕ → M (Heap T) (Node T)
  load_node p h = if p == null then aborted else at_node h (h.nodes p)

  unfoldable pub store_node : ℕ → Node T → M (Heap T) (Unit {0})
  store_node p n h = ok tt (record h { nodes = update h.nodes p (some n) })

  unfoldable pub free_node : ℕ → M (Heap T) (Unit {0})
  free_node p h = ok tt (record h { nodes = update h.nodes p none })

  unfoldable pub set_root : ℕ → M (Heap T) (Unit {0})
  set_root p h = ok tt (record h { root = p })

  -- `NewNode`, where `malloc` returns `fresh`
  unfoldable pub new_node : ℕ → T → ℕ → M (Heap T) ℕ
  unfolding store_node
  new_node fresh value next = do
    store_node fresh (record { value = value; next = next })
    pure fresh

  -- `root_ = current->next`, or `prev->next = current->next`
  unfoldable pub unlink : ℕ → ℕ → M (Heap T) (Unit {0})
  unlink prev next =
      if prev == null
      then set_root next
      else do p ← load_node prev; store_node prev (record p { next = next })

module _ {T : Type 0} (key : T → ℕ) where
  -- The loop of `Insert`: whether an equal value was found, and `prev`.
  unfoldable pub insert_loop : ℕ → T → ℕ → ℕ → M (Heap T) (Bool × ℕ)
  insert_loop zero value prev current = λ _. running
  insert_loop (suc rounds) value prev current = if current == null then pure (false, prev) else do
    n ← load_node current
    if ltb (key value) (key n.value)
        then pure (false, prev)
        else if key n.value == key value
        then pure (true, prev)
        else insert_loop rounds value current n.next

  -- the end of `Insert`
  unfoldable pub place : ℕ → T → Bool × ℕ → M (Heap T) (Unit {0})
  place fresh value (true, prev) = do
    p ← load_node prev
    assert (not (p.next == null))
    n ← load_node p.next
    store_node p.next (record n { value = value })
  place fresh value (false, prev) = do
    p ← load_node prev
    q ← new_node fresh value p.next
    store_node prev (record p { next = q })

  unfoldable pub insert : ℕ → ℕ → T → M (Heap T) (Unit {0})
  unfolding insert_loop place
  insert rounds fresh value h =
      if h.root == null
      then (do q ← new_node fresh value h.root; set_root q) h
      else (do
        first ← load_node h.root
        if ltb (key value) (key first.value)
            then (do q ← new_node fresh value h.root; set_root q)
            else (do found ← insert_loop rounds value null h.root; place fresh value found))
          h

  -- `LookUp`: the value found, which is what it stores in `result`
  unfoldable pub look_up_loop : ℕ → T → ℕ → M (Heap T) (Option T)
  look_up_loop zero value current = λ _. running
  look_up_loop (suc rounds) value current = if current == null then pure none else do
    n ← load_node current
    if ltb (key value) (key n.value)
        then pure none
        else if key n.value == key value
        then pure (some n.value)
        else look_up_loop rounds value n.next

  unfoldable pub look_up : ℕ → T → M (Heap T) (Option T)
  unfolding look_up_loop
  look_up rounds value h = look_up_loop rounds value h.root h

  -- The loop of `Delete`: the node that it has unlinked.
  unfoldable pub delete_loop : ℕ → T → ℕ → ℕ → M (Heap T) (Option ℕ)
  unfolding unlink
  delete_loop zero value prev current = λ _. running
  delete_loop (suc rounds) value prev current = if current == null then pure none else do
    n ← load_node current
    if ltb (key value) (key n.value)
        then pure none
        else if key n.value == key value
        then (do unlink prev n.next; pure (some current))
        else delete_loop rounds value current n.next

-- The end of `MutexSortedList::Delete`: the node is freed.
unfoldable pub free_found : {T : Type 0} → Option ℕ → M (Heap T) Bool
free_found none = pure false
free_found (some current) = do assert (not (current == null)); free_node current; pure true

unfoldable pub delete : {T : Type 0} → (T → ℕ) → ℕ → T → M (Heap T) Bool
unfolding delete_loop free_found
delete key rounds value h =
    (do found ← delete_loop key rounds value null h.root; free_found found) h

-- The destructor: frees every node.
unfoldable pub destroy_list : {T : Type 0} → ℕ → M (Heap T) (Unit {0})
destroy_list zero h = running
destroy_list (suc rounds) h =
    if h.root == null
    then ok tt h
    else (do n ← load_node h.root; free_node h.root; set_root n.next; destroy_list rounds) h
