-- ===== src/SortedList/Total.antt =====
-- src/list/list.cc: what `OptimisticSortedList::LookUp` wants of the other threads to return: that no
-- node is freed which it may still reach, as the epochs are to see to, and that they stop.
pub mod Loop
pub mod Scope
pub mod Attempt
use optimistic_locking.Base.{
  ℕ, zero, suc, ◌+◌, ◌-◌, ◌≤◌, ◌<◌, ◌≡◌, ◌≢◌, refl, sym, ap, ◌∙◌, inl, inr, ◌⊎◌, Option, none, some,
  List, [], ◌∷◌, All, length, get_elem?, arith, ◌==◌,
}
use optimistic_locking.Machine.{
  Memory, Turn, World, Exception, restart_exception, Outcome, ok, thrown, aborted, running,
  and_then, advance, after, M, ◌>>=◌,
}
use optimistic_locking.Lock.Word.{exclusive, lock_state}
use optimistic_locking.SortedList.{Heap, Node, null, load_node}
use optimistic_locking.SortedList.Search.{not_null}
use optimistic_locking.SortedList.Chain.{Chain, stop, node, load_node_lem}
use optimistic_locking.SortedList.Shared.{Shared, racing}
use optimistic_locking.SortedList.Racing.{heap_of}

-- A run ends: it returns, or it throws `RestartException`.
abbrev pub Ends : {W A : Type 0} → (A → W → Type 0) → (W → Type 0) → Outcome W A → Type 0
Ends P Q (ok a w) = P a w
Ends P Q (thrown e w) = (e ≡ restart_exception) × Q w
Ends P Q aborted = ⊥
Ends P Q running = ⊥

pub Ends-weaken :
    {W A : Type 0} (P P' : A → W → Type 0) (Q Q' : W → Type 0) (x : Outcome W A)
    → Ends P Q x
    → ((a : A) (w : W) → P a w → P' a w)
    → ((w : W) → Q w → Q' w)
    → Ends P' Q' x
Ends-weaken P P' Q Q' (ok a w) h more later = more a w h
Ends-weaken P P' Q Q' (thrown e w) h more later = (h.0, later w h.1)
Ends-weaken P P' Q Q' aborted h more later = h
Ends-weaken P P' Q Q' running h more later = h

pub Ends-and_then :
    {W A B : Type 0} (P : A → W → Type 0) (P' : B → W → Type 0) (Q Q' : W → Type 0)
    (x : Outcome W A) (k : A → W → Outcome W B)
    → Ends P Q x
    → ((w : W) → Q w → Q' w)
    → ((a : A) (w : W) → P a w → Ends P' Q' (k a w))
    → Ends P' Q' (and_then x k)
Ends-and_then P P' Q Q' (ok a w) k h later then_ = then_ a w h
Ends-and_then P P' Q Q' (thrown e w) k h later then_ = (h.0, later w h.1)
Ends-and_then P P' Q Q' aborted k h later then_ = h
Ends-and_then P P' Q Q' running k h later then_ = h

abbrev pub turns_left : {T : Type 0} → World (Shared T) → ℕ
turns_left w = length w.turns

-- From `p` the pointers lead through at most `n` nodes, all on the heap, to the null pointer.
abbrev pub Bounded : {T : Type 0} → ℕ → Heap T → ℕ → Type 0
Bounded {T} n h p = (xs : List (ℕ × T)) × Chain h p xs × (length xs ≤ n)

module _ {T : Type 0} (tid n : ℕ) where
  -- So it is from the root, and the thread has a slot in the handler.
  pub record Sound (m : Memory (Shared T)) : Type 0 where
    pub rooted : Bounded n (m.rest).heap ((m.rest).heap).root
    pub slot : (e : ℕ) × (get_elem? ((m.rest).epoch).local_epoch tid ≡ some e)

  -- A turn of the others keeps that, and frees no node that is reached from an address: what is
  -- inserted and unlinked leaves at most `n` nodes from there.
  abbrev pub IsSafeTurn : Turn (Shared T) → Type 0
  IsSafeTurn t =
      (m : Memory (Shared T))
      → Sound m
      → Sound (t.interfere m)
        × ((p : ℕ) → Bounded n (m.rest).heap p → Bounded n ((t.interfere m).rest).heap p)

module _ {T : Type 0} (lock tid n : ℕ) where
  -- The last turn leaves no writer, whatever this thread writes meanwhile beside the atomics.
  abbrev pub EndsOpen : List (Turn (Shared T)) → Memory (Shared T) → Type 0
  EndsOpen [] m = lock_state (m.cells lock) ≢ exclusive
  EndsOpen (t ∷ ts) m = (s : Shared T) → EndsOpen ts (t.interfere (record m { rest = s }))

  pub record Safe (w : World (Shared T)) : Type 0 where
    pub turns_safe : All (IsSafeTurn tid n) w.turns
    pub sound : Sound tid n w.mem
    pub ends_open : EndsOpen w.turns w.mem

  -- What the thread counts on from `w` to `w'`, `k` turns later at least, if there were as many.
  pub record Onward (k : ℕ) (w w' : World (Shared T)) : Type 0 where
    pub safe : Safe w'
    pub keeps : (p : ℕ) → Bounded n (heap_of w) p → Bounded n (heap_of w') p
    pub fewer : turns_left w' ≤ turns_left w - k
    pub still :
        turns_left w ≡ 0 → (heap_of w' ≡ heap_of w) × ((w'.mem).cells lock ≡ (w.mem).cells lock)

  pub Onward-compose :
      (k j : ℕ) (w w1 w2 : World (Shared T)) → Onward k w w1 → Onward j w1 w2 → Onward (k + j) w w2
  Onward-compose k j w w1 w2 one two = record {
    safe = two.safe;
    keeps = λ p b. two.keeps p (one.keeps p b);
    fewer = let a = one.fewer in let b = two.fewer in omega arith;
    still = λ none_left.
        let a = one.fewer in
        let (heap1, cell1) = one.still none_left in
        let (heap2, cell2) = two.still (omega arith) in (heap2 ∙ heap1, cell2 ∙ cell1);
  }

  pub Onward-fewer : (k j : ℕ) (w w1 : World (Shared T)) → j ≤ k → Onward k w w1 → Onward j w w1
  Onward-fewer k j w w1 le one = record {
    safe = one.safe;
    keeps = one.keeps;
    fewer = let a = one.fewer in omega arith;
    still = one.still;
  }

  after-Onward :
      (ts : List (Turn (Shared T))) (m : Memory (Shared T))
      → Safe (record { mem = m; turns = ts })
      → Onward 1 (record { mem = m; turns = ts }) (after ts m)
  after-Onward [] m safe = record {
    safe = safe;
    keeps = λ p b. b;
    fewer = omega arith;
    still = λ _. (refl, refl);
  }
  after-Onward (t ∷ ts) m safe =
      let (sound, keeps) = safe.turns_safe.0 m safe.sound in
      record {
        safe = record {
          turns_safe = safe.turns_safe.1;
          sound = sound;
          ends_open = safe.ends_open m.rest;
        };
        keeps = keeps;
        fewer = omega arith;
        still = λ none_left. absurd (omega (arith, none_left));
      }

  pub advance-Onward : (w : World (Shared T)) → Safe w → Onward 1 w (advance w)
  advance-Onward w safe = after-Onward w.turns w.mem safe

  EndsOpen-elsewhere :
      (ts : List (Turn (Shared T))) (m : Memory (Shared T)) (s : Shared T)
      → EndsOpen ts m
      → EndsOpen ts (record m { rest = s })
  EndsOpen-elsewhere [] m s open_ = open_
  EndsOpen-elsewhere (t ∷ ts) m s open_ = open_

  -- what the thread itself writes elsewhere
  pub Onward-elsewhere :
      (w : World (Shared T)) (s : Shared T)
      → Safe w
      → s.heap ≡ ((w.mem).rest).heap
      → (e : ℕ) → get_elem? (s.epoch).local_epoch tid ≡ some e
      → Onward 0 w (record w { mem = record (w.mem) { rest = s } })
  Onward-elsewhere w s safe same e slot = record {
    safe = record {
      turns_safe = safe.turns_safe;
      sound = record { rooted = rw same (safe.sound.rooted); slot = (e, slot) };
      ends_open = EndsOpen-elsewhere w.turns w.mem s safe.ends_open;
    };
    keeps = λ p b. rw same b;
    fewer = omega arith;
    still = λ _. (same, refl);
  }
