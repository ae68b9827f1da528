-- ===== src/SortedList/Total/Loop.antt =====
-- src/list/list.cc: the loop of `OptimisticSortedList::LookUp` ends.
use optimistic_locking.Base.{
  ℕ, zero, suc, ◌+◌, ◌<◌, ◌≡◌, ◌≢◌, refl, inl, inr, ◌⊎◌, Bool, true, some, List, length, ltb, ◌==◌,
  Bool-cases, arith,
}
use optimistic_locking.Machine.{World, Outcome, M, advance, pure, ◌>>=◌, ◌>>◌}
use optimistic_locking.SortedList.{Node, null, Heap, load_node}
use optimistic_locking.SortedList.Chain.{Chain, stop, node, load_node_lem}
use optimistic_locking.SortedList.Shared.{Shared, racing, set_result}
use optimistic_locking.SortedList.Optimistic.{racing_look_up}
use optimistic_locking.SortedList.Racing.{heap_of}
use optimistic_locking.SortedList.Total.{
  Ends, Ends-weaken, Ends-and_then, turns_left, Bounded, Safe, Onward, Onward-compose, Onward-fewer,
  advance-Onward, Onward-elsewhere,
}

module _ {T : Type 0} where
  node_there :
      {h : Heap T} {p : ℕ} {xs : List (ℕ × T)}
      → Chain h p xs
      → p ≢ null
      → (x : Node T) × (h.nodes p ≡ some x)
  node_there stop inside = absurd (inside refl)
  node_there (node {p} {next} {v} ne e c) inside = (record { value = v; next = next }, e)

  Chain-next :
      {h : Heap T} {p : ℕ} {xs : List (ℕ × T)} (x : Node T)
      → Chain h p xs
      → p ≢ null
      → h.nodes p ≡ some x
      → (ys : List (ℕ × T)) × Chain h x.next ys × (length xs ≡ suc (length ys))
  Chain-next x stop inside there = absurd (inside refl)
  Chain-next x (node {p} {next} {v} {xs} ne e c) inside there =
      let same : next ≡ x.next = ground arith in (xs, rw same at c, refl)

module _ {T : Type 0} (lock tid n : ℕ) where
  Bounded-next :
      (h : Heap T) (p : ℕ) (x : Node T)
      → p ≢ null
      → h.nodes p ≡ some x
      → Bounded n h p
      → Bounded n h x.next
  Bounded-next h p x inside there (xs, c, le) =
      let (ys, next, size) = Chain-next x c inside there in (ys, next, omega (arith, size))

  -- `*p` as it was at some moment after `w`
  abbrev Loaded : ℕ → World (Shared T) → Node T → World (Shared T) → Type 0
  Loaded p w x w' = Onward lock tid n 1 w w' × ((heap_of w').nodes p ≡ some x)

  racing-load_node :
      (p : ℕ) (w : World (Shared T))
      → p ≢ null
      → Safe lock tid n w
      → Bounded n (heap_of w) p
      → Ends (Loaded p w) (λ _. ⊥) (racing (load_node p) w)
  racing-load_node p w inside safe b =
      let on = advance-Onward lock tid n w safe in
      let (xs, c, _) = on.keeps p b in
      let (x, there) = node_there c inside in
      rw (load_node_lem (heap_of (advance w)) p x.next x.value inside there) (on, there)

  load_then :
      (p : ℕ) (w : World (Shared T))
      → p ≢ null
      → Safe lock tid n w
      → Bounded n (heap_of w) p
      → {B : Type 0} (P : B → World (Shared T) → Type 0) → (k : Node T → M (World (Shared T)) B)
      → ((x : Node T) (w' : World (Shared T))
          → Loaded p w x w'
          → Bounded n (heap_of w') p
          → Ends P (λ _. ⊥) (k x w'))
      → Ends P (λ _. ⊥) ((racing (load_node p) >>= k) w)
  load_then p w inside safe b P k then_ =
      Ends-and_then (Loaded p w) P (λ _. ⊥) (λ _. ⊥) (racing (load_node p) w) k
        (racing-load_node p w inside safe b) (λ _ no. no)
        λ x w' loaded. then_ x w' loaded ((loaded.0).keeps p b)

  -- More rounds than turns and nodes; where no turns are left, than nodes from here.
  abbrev pub Enough : ℕ → World (Shared T) → ℕ → Type 0
  Enough rounds w p =
      (turns_left w + n < rounds)
      ⊎ ((turns_left w ≡ 0) × ((xs : List (ℕ × T)) × Chain (heap_of w) p xs × (length xs < rounds)))

  next-Enough :
      (rounds p : ℕ) (w w' : World (Shared T)) (x : Node T)
      → p ≢ null
      → Enough (suc rounds) w p
      → Loaded p w x w'
      → Bounded n (heap_of w') p
      → Enough rounds w' x.next
  next-Enough rounds p w w' x inside (inl many) (on, there) (xs, c, le) =
      let fewer = on.fewer in
      let (ys, next, size) = Chain-next x c inside there in
      elim (Bool-cases (turns_left w == 0)) [
        | inl last ↦
            let none_left : turns_left w ≡ 0 = ground arith in
            inr (omega arith, (ys, next, omega (arith, size)))
        | inr more ↦ let some_left : turns_left w ≢ 0 = ground arith in inl (omega arith)
      ]
  next-Enough rounds p w w' x inside (inr (none_left, (xs, c, many))) (on, there) b =
      let fewer = on.fewer in
      let (same, _) = on.still none_left in
      let (ys, next, size) = Chain-next x (rw (← same) at c) inside there in
      inr (omega arith, (ys, next, omega (arith, size)))

  then_next :
      (p : ℕ) (w w1 w2 : World (Shared T)) (x : Node T)
      → Onward lock tid n 1 w w1
      → Loaded p w1 x w2
      → Loaded p w x w2
  then_next p w w1 w2 x one (on, there) = (
    Onward-fewer lock tid n 2 1 w w2 (omega arith) (Onward-compose lock tid n 1 1 w w1 w2 one on),
    there,
  )

  abbrev pub Ended : World (Shared T) → Bool → World (Shared T) → Type 0
  Ended w b w' = Onward lock tid n 0 w w'

  loop_on :
      (w w1 : World (Shared T)) (k : ℕ) (x : Outcome (World (Shared T)) Bool)
      → Onward lock tid n k w w1
      → Ends (Ended w1) (λ _. ⊥) x
      → Ends (Ended w) (λ _. ⊥) x
  loop_on w w1 k x one h =
      Ends-weaken (Ended w1) (Ended w) (λ _. ⊥) (λ _. ⊥) x h
        (λ b w2 two.
          Onward-fewer lock tid n (k + 0) 0 w w2 (omega arith)
            (Onward-compose lock tid n k 0 w w1 w2 one two))
        (λ _ no. no)

  pub here : (w : World (Shared T)) → Safe lock tid n w → Onward lock tid n 0 w w
  here w safe =
      let (e, slot) = safe.sound.slot in Onward-elsewhere lock tid n w (w.mem).rest safe refl e slot

  -- The loop ends, from a pointer that leads through nodes, and throws nothing.
  pub racing_look_up-Ends :
      (key : T → ℕ) (value : T) (rounds p : ℕ) (w : World (Shared T))
      → Safe lock tid n w
      → Bounded n (heap_of w) p
      → Enough rounds w p
      → Ends (Ended w) (λ _. ⊥) (racing_look_up key rounds value p w)
  unfolding racing_look_up
  racing_look_up-Ends key value zero p w safe b (inl many) = absurd (omega arith)
  racing_look_up-Ends key value zero p w safe b (inr (_, (xs, c, many))) = absurd (omega arith)
  racing_look_up-Ends key value (suc rounds) p w safe b enough = elim (Bool-cases (p == null)) [
    | inl end ↦ rw end (here w safe)
    | inr inside ↦
        let ne : p ≢ null = ground arith in
        rw inside (
          load_then p w ne safe b _ _ λ first w1 got1 b1.
            elim (Bool-cases (ltb (key value) (key first.value))) [
              | inl past ↦ rw past (Onward-fewer lock tid n 1 0 w w1 (omega arith) got1.0)
              | inr before ↦ rw before (
                  load_then p w1 ne (got1.0).safe b1 _ _ λ second w2 got2 b2.
                    let on2 = (then_next p w w1 w2 second got1.0 got2).0 in
                    elim (Bool-cases (key second.value == key value)) [
                      | inl hit ↦ rw hit (
                          load_then p w2 ne on2.safe b2 _ _ λ third w3 got3 b3.
                            let on3 = (then_next p w w2 w3 third on2 got3).0 in
                            let (e, slot) = (on3.safe).sound.slot in
                            loop_on w w3 1 ((set_result third.value >> pure true) w3) on3 (
                              Onward-elsewhere lock tid n w3
                                (record ((w3.mem).rest) { result = some third.value }) on3.safe refl
                                e slot))
                      | inr miss ↦ rw miss (
                          load_then p w2 ne on2.safe b2 _ _ λ third w3 got3 b3.
                            let got = then_next p w w2 w3 third on2 got3 in
                            loop_on w w3 1 _ got.0 (
                              racing_look_up-Ends key value rounds third.next w3 (got.0).safe
                                (Bounded-next (heap_of w3) p third ne got.1 b3)
                                (next-Enough rounds p w w3 third ne enough got b3)))
                    ])
            ])
  ]
