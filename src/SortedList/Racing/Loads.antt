-- ===== src/SortedList/Racing/Loads.antt =====
-- src/list/list.cc: loads of a node while other threads move.
use optimistic_locking.Base.{ℕ, ◌≡◌, refl, ◌∙◌, inl, inr, ◌==◌, Bool-cases, Option-cases}
use optimistic_locking.Machine.{World, ok, M, advance, ◌>>=◌}
use optimistic_locking.SortedList.{Node, null, load_node}
use optimistic_locking.SortedList.Shared.{Shared, racing}
use optimistic_locking.SortedList.Racing.{
  Ensures, Ensures-and_then, Evolves_trans, Settled, Settled-first, Settled-second, heap_of,
  AreFair, Later, advance-Later,
}

module _ {T : Type 0} (lock : ℕ) where
  pub Later-compose :
      (w w1 w2 : World (Shared T)) → Later lock w w1 → Later lock w1 w2 → Later lock w w2
  Later-compose w w1 w2 one two = (two.0, Evolves_trans lock one.1 two.1)

  -- `*p` as it was at some moment after `w`
  abbrev pub Loaded : ℕ → World (Shared T) → Node T → World (Shared T) → Type 0
  Loaded p w n w' = Later lock w w' × (load_node p (heap_of w') ≡ ok n (heap_of w'))

  racing-load_node :
      (p : ℕ) (w : World (Shared T))
      → AreFair lock w
      → Ensures (Loaded p w) (λ _. ⊥) (racing (load_node p) w)
  unfolding load_node
  racing-load_node p w fair =
      let w' = advance w in
      let moved = (advance-Later lock w fair).0 in
      elim (Bool-cases (p == null)) [
        | inl end ↦ rw end tt
        | inr inside ↦ elim (Option-cases ((heap_of w').nodes p)) [
          | inl dangling ↦ rw (inside, dangling) tt
          | inr (n, there) ↦
              let got : load_node p (heap_of w') ≡ ok n (heap_of w') = rw (inside, there) refl in
              rw got (moved, got)
        ]
      ]

  -- The loop loads a node and goes on.
  pub load_then :
      (p : ℕ) (w : World (Shared T))
      → AreFair lock w
      → {B : Type 0} (P : B → World (Shared T) → Type 0) → (k : Node T → M (World (Shared T)) B)
      → ((n : Node T) (w' : World (Shared T)) → Loaded p w n w' → Ensures P (λ _. ⊥) (k n w'))
      → Ensures P (λ _. ⊥) ((racing (load_node p) >>= k) w)
  load_then p w fair P k then_ =
      Ensures-and_then (Loaded p w) P (λ _. ⊥) (racing (load_node p) w) k
        (racing-load_node p w fair) then_

  -- where nothing has been written between
  pub Loaded-first :
      (p : ℕ) (w w1 w2 : World (Shared T)) (n : Node T)
      → Loaded p w n w1
      → Later lock w1 w2
      → Settled lock w.mem w2.mem
      → (load_node p (heap_of w) ≡ ok n (heap_of w)) × (heap_of w1 ≡ heap_of w)
  Loaded-first p w w1 w2 n (one, got) two settled =
      let (e, open_) = Settled-first lock one.1 two.1 settled in
      let same : heap_of w1 ≡ heap_of w = (one.1).nodes_same e open_ in (rw same at got, same)

  -- Three loads of a node find the same one.
  pub thrice :
      (p : ℕ) (w w1 w2 w3 w' : World (Shared T)) (first second third : Node T)
      → Loaded p w first w1
      → Loaded p w1 second w2
      → Loaded p w2 third w3
      → Later lock w3 w'
      → Settled lock w.mem w'.mem
      → (load_node p (heap_of w) ≡ ok first (heap_of w))
        × (second ≡ first)
        × (third ≡ first)
        × (heap_of w3 ≡ heap_of w)
        × Settled lock (w3.mem) (w'.mem)
  thrice p w w1 w2 w3 w' first second third got1 got2 got3 last s =
      let last2 = Later-compose w2 w3 w' got3.0 last in
      let last1 = Later-compose w1 w2 w' got2.0 last2 in
      let s1 = Settled-second lock (got1.0).1 last1.1 s in
      let s2 = Settled-second lock (got2.0).1 last2.1 s1 in
      let (at0, same1) = Loaded-first p w w1 w' first got1 last1 s in
      let (at1, same2) = Loaded-first p w1 w2 w' second got2 last2 s1 in
      let (at2, same3) = Loaded-first p w2 w3 w' third got3 last s2 in
      let e : second ≡ first = let x = at1 in let y = got1.1 in cc in
      let e' : third ≡ second = let x = at2 in let y = got2.1 in cc in
      (at0, e, e' ∙ e, same3 ∙ same2 ∙ same1, Settled-second lock (got3.0).1 last.1 s2)
