-- ===== src/SortedList/Racing/Loop.antt =====
-- src/list/list.cc: the loop of `OptimisticSortedList::LookUp` while other threads move.
use optimistic_locking.Base.{
  ℕ, zero, suc, ◌≡◌, refl, ap, ◌∙◌, inl, inr, Bool, true, false, Option, none, some, ltb, ◌==◌,
  Bool-cases,
}
use optimistic_locking.Machine.{World, Outcome, ok, pure, ◌>>◌}
use optimistic_locking.SortedList.{Node, null, Heap, load_node, look_up_loop}
use optimistic_locking.SortedList.Shared.{Shared, set_result}
use optimistic_locking.SortedList.Alone.{is_some}
use optimistic_locking.SortedList.Optimistic.{racing_look_up}
use optimistic_locking.SortedList.Racing.{
  Ensures, Ensures-weaken, Evolves_refl, Evolves_elsewhere, Settled, heap_of, AreFair, Later,
}
use optimistic_locking.SortedList.Racing.Loads.{
  Later-compose, Loaded, load_then, Loaded-first, thrice,
}

module _ {T : Type 0} where
  -- what is in the variable for the result
  abbrev pub Holds : Option T → World (Shared T) → Type 0
  Holds none w = Unit
  Holds (some v) w = ((w.mem).rest).result ≡ some v

module _ {T : Type 0} (key : T → ℕ) (lock : ℕ) (value : T) where
  -- The answer that the loop gives, if no writer has come by since `w`.
  abbrev pub Answered :
      (Heap T → Outcome (Heap T) (Option T)) → World (Shared T) → Bool → World (Shared T) → Type 0
  Answered search w b w' =
      Later lock w w'
      × (Settled lock w.mem w'.mem
          → (o : Option T) × (search (heap_of w) ≡ ok o (heap_of w)) × (b ≡ is_some o) × Holds o w')

  look_up_loop_end :
      (rounds p : ℕ) (h : Heap T)
      → (p == null) ≡ true
      → look_up_loop key (suc rounds) value p h ≡ ok none h
  unfolding look_up_loop
  look_up_loop_end rounds p h end = rw end refl

  module _ (rounds p : ℕ) (inside : (p == null) ≡ false) (h : Heap T) (n : Node T)
      (got : load_node p h ≡ ok n h) where
    look_up_loop_past :
        ltb (key value) (key n.value) ≡ true → look_up_loop key (suc rounds) value p h ≡ ok none h
    unfolding look_up_loop
    look_up_loop_past past = rw (inside, got, past) refl

    look_up_loop_hit :
        ltb (key value) (key n.value) ≡ false
        → (key n.value == key value) ≡ true
        → look_up_loop key (suc rounds) value p h ≡ ok (some n.value) h
    unfolding look_up_loop
    look_up_loop_hit before hit = rw (inside, got, before, hit) refl

    look_up_loop_miss :
        ltb (key value) (key n.value) ≡ false
        → (key n.value == key value) ≡ false
        → look_up_loop key (suc rounds) value p h ≡ look_up_loop key rounds value n.next h
    unfolding look_up_loop
    look_up_loop_miss before miss = rw (inside, got, before, miss) refl

  -- The loop has loaded the node at `p` three times.
  module _ (rounds p : ℕ) (inside : (p == null) ≡ false) (w w1 w2 w3 : World (Shared T))
      (first second third : Node T) (got1 : Loaded lock p w first w1)
      (got2 : Loaded lock p w1 second w2) (got3 : Loaded lock p w2 third w3)
      (before : ltb (key value) (key first.value) ≡ false) where
    so_far : Later lock w w3
    so_far = Later-compose lock w w1 w3 got1.0 (Later-compose lock w1 w2 w3 got2.0 got3.0)

    hit-Answered :
        (key second.value == key value) ≡ true
        → Ensures
            (Answered (look_up_loop key (suc rounds) value p) w)
            (λ _. ⊥)
            ((set_result third.value >> pure true) w3)
    hit-Answered hit =
        let s' : Shared T = record ((w3.mem).rest) { result = some third.value } in
        let w' : World (Shared T) = record w3 { mem = record (w3.mem) { rest = s' } } in
        let last : Later lock w3 w' = (so_far.0, Evolves_elsewhere lock w3.mem s' refl) in
        (
          Later-compose lock w w3 w' so_far last,
          λ s.
              let (at_w, e, e', _, _) =
                thrice lock p w w1 w2 w3 w' first second third got1 got2 got3 last s in
              (
                some first.value,
                look_up_loop_hit rounds p inside (heap_of w) first at_w before (rw e at hit),
                refl,
                ap (λ n. some (Node.value n)) e',
              ),
        )

    miss-Answered :
        (key second.value == key value) ≡ false
        → (b : Bool) (w' : World (Shared T))
        → Answered (look_up_loop key rounds value third.next) w3 b w'
        → Answered (look_up_loop key (suc rounds) value p) w b w'
    miss-Answered miss b w' (last, rest) = (
      Later-compose lock w w3 w' so_far last,
      λ s.
          let (at_w, e, e', same, s3) =
            thrice lock p w w1 w2 w3 w' first second third got1 got2 got3 last s in
          let (o, found, is, holds) = rest s3 in
          let next =
            look_up_loop_miss rounds p inside (heap_of w) first at_w before (rw e at miss) in
          (o, next ∙ rw (e', same) at found, is, holds),
    )

  past-Answered :
      (rounds p : ℕ) (w w1 : World (Shared T)) (first : Node T)
      → (p == null) ≡ false
      → Loaded lock p w first w1
      → ltb (key value) (key first.value) ≡ true
      → Answered (look_up_loop key (suc rounds) value p) w false w1
  past-Answered rounds p w w1 first inside got past = (
    got.0,
    λ s.
        let here : Later lock w1 w1 = ((got.0).0, Evolves_refl lock w1.mem) in
        let (at_w, _) = Loaded-first lock p w w1 w1 first got here s in
        (none, look_up_loop_past rounds p inside (heap_of w) first at_w past, refl, tt),
  )

  pub racing_look_up-Answered :
      (rounds p : ℕ) (w : World (Shared T))
      → AreFair lock w
      → Ensures
          (Answered (look_up_loop key rounds value p) w)
          (λ _. ⊥)
          (racing_look_up key rounds value p w)
  unfolding racing_look_up
  racing_look_up-Answered zero p w fair = tt
  racing_look_up-Answered (suc rounds) p w fair = elim (Bool-cases (p == null)) [
    | inl end ↦ rw end (
      (fair, Evolves_refl lock w.mem),
      λ s. (none, look_up_loop_end rounds p (heap_of w) end, refl, tt),
    )
    | inr inside ↦ rw inside (
        load_then lock p w fair _ _ λ first w1 got1.
          elim (Bool-cases (ltb (key value) (key first.value))) [
            | inl past ↦ rw past (past-Answered rounds p w w1 first inside got1 past)
            | inr before ↦ rw before (
                load_then lock p w1 (got1.0).0 _ _ λ second w2 got2.
                  elim (Bool-cases (key second.value == key value)) [
                    | inl hit ↦ rw hit (
                        load_then lock p w2 (got2.0).0 _ _ λ third w3 got3.
                          hit-Answered rounds p inside w w1 w2 w3 first second third got1 got2 got3
                            before hit)
                    | inr miss ↦ rw miss (
                        load_then lock p w2 (got2.0).0 _ _ λ third w3 got3.
                          Ensures-weaken _ _ (λ _. ⊥) _
                            (racing_look_up-Answered rounds third.next w3 (got3.0).0)
                            (miss-Answered rounds p inside w w1 w2 w3 first second third got1 got2
                              got3 before miss))
                  ])
          ])
  ]
