-- ===== src/Tests/SortedList.antt =====
-- A list of two numbers, which are their own keys.
use Prim.Native.Nat.{ℕ}
use optimistic_locking.Base.{◌≡◌, ◌≢◌, refl, true, none, some, [], ◌∷◌, update, arith, ℕ_discrete}
use optimistic_locking.Machine.{ok, aborted}
use optimistic_locking.SortedList.{
  Node, Heap, load_node, store_node, free_node, new_node, insert, delete_loop, delete,
}
use optimistic_locking.SortedList.Chain.{Chain, stop, node}
use optimistic_locking.SortedList.Remove.{Avoids}
use optimistic_locking.SortedList.Insert.{Inserted, insert-insert_sorted}
use optimistic_locking.SortedList.Delete.{delete-erase_equal}
use optimistic_locking.SortedList.Interface.{mutex_list}
use optimistic_locking.SortedList.RoundTrip.{in_and_out}
use optimistic_locking.SortedList.RoundTrip.Mutex.{at_leisure, in_and_out-mutex_list}
use optimistic_locking.SortedList.Search.{insert_first_again}

abbrev pub key : ℕ → ℕ
key v = v

abbrev cell : ℕ → ℕ → Node ℕ
cell v q = record { value = v; next = q }

-- 30 at address 5, then 40 at address 6
abbrev pub heap : Heap ℕ
heap = record {
  root = 5;
  nodes = update (update (λ _. none) 5 (some (cell 30 6))) 6 (some (cell 40 0));
}

pub heap-Chain : Chain heap 5 ((5, 30) ∷ (6, 40) ∷ [])
unfolding ℕ_discrete
heap-Chain = node (omega arith) refl (node (omega arith) refl stop)

insert_first_again_example : insert key 3 7 30 heap ≡ aborted
insert_first_again_example = insert_first_again key heap 30 2 7 5 30 ((6, 40) ∷ []) heap-Chain refl

insert-insert_sorted_example : Inserted key 7 35 3 heap ((5, 30) ∷ (6, 40) ∷ [])
insert-insert_sorted_example =
    insert-insert_sorted key 7 35 3 heap (omega arith) (omega arith) heap-Chain
      ((λ e. omega arith, tt), (tt, tt)) ((omega arith, tt), (tt, tt)) (omega arith) (omega arith)

delete-erase_equal_example :
    (left : Heap ℕ) × (delete key 3 40 heap ≡ ok true left)
    × Chain left left.root ((5, 30) ∷ [])
    × (left.nodes 6 ≡ none)
    × ((q : ℕ) → Avoids {T = ℕ} q ((5, 30) ∷ (6, 40) ∷ []) → left.nodes q ≡ heap.nodes q)
delete-erase_equal_example =
    delete-erase_equal key heap 40 3 heap-Chain ((λ e. omega arith, tt), (tt, tt))
      ((omega arith, tt), (tt, tt)) (omega arith) (λ e. cc)

in_and_out-mutex_list_example :
    (left : Heap ℕ) × (in_and_out (mutex_list key 4) 7 35 (at_leisure heap)
      ≡ ok (some 35, true, none) (at_leisure left))
    × Chain left left.root ((5, 30) ∷ (6, 40) ∷ [])
    × (left.nodes 7 ≡ none)
    × ((q : ℕ) → q ≢ 7 → Avoids {T = ℕ} q ((5, 30) ∷ (6, 40) ∷ []) → left.nodes q ≡ heap.nodes q)
in_and_out-mutex_list_example =
    in_and_out-mutex_list key 7 35 4 heap (omega arith) (omega arith) heap-Chain
      ((λ e. omega arith, tt), (tt, tt)) ((omega arith, tt), (tt, tt)) refl (omega arith)

-- `Insert` of 35 puts a node between the two.
insert_between :
    insert key 3 7 35 heap
    ≡ ok tt (record {
      root = 5;
      nodes = update (update heap.nodes 7 (some (cell 35 6))) 5 (some (cell 30 7));
    })
unfolding insert load_node new_node ℕ_discrete
insert_between = refl

-- `Delete` of 40 unlinks its node.
delete_last :
    delete_loop key 3 40 0 5 heap
    ≡ ok (some 6) (record { root = 5; nodes = update heap.nodes 5 (some (cell 30 0)) })
unfolding delete_loop load_node store_node ℕ_discrete
delete_last = refl

deleted :
    delete key 3 40 heap
    ≡ ok true (record { root = 5; nodes = update (update heap.nodes 5 (some (cell 30 0))) 6 none })
unfolding delete load_node store_node free_node ℕ_discrete
deleted = refl
