-- ===== src/Tests/Total.antt =====
-- `LookUp` of the optimistic list returns while another thread deletes the first node.
use optimistic_locking.Base.{
  ◌≤◌, ℕ, ◌≡◌, refl, inl, inr, Bool, false, Option, none, some, List, [], ◌∷◌, ◌==◌, if◌then◌else◌,
  Bool-cases, arith, length,
}
use optimistic_locking.Machine.{Memory, Turn, World, ok}
use optimistic_locking.Lock.Word.{lock_state, version}
use optimistic_locking.SortedList.{Heap, Node, null, look_up}
use optimistic_locking.SortedList.Chain.{Chain, stop, node}
use optimistic_locking.SortedList.Search.{not_null}
use optimistic_locking.SortedList.Shared.{Shared}
use optimistic_locking.SortedList.Optimistic.{optimistic_look_up}
use optimistic_locking.SortedList.Racing.{Evolves_refl, IsFairTurn}
use optimistic_locking.SortedList.Racing.Scope.{Seen}
use optimistic_locking.SortedList.Total.{IsSafeTurn, Safe}
use optimistic_locking.SortedList.Total.Attempt.{optimistic_look_up_returns}
use optimistic_locking.Tests.SortedList.{key, heap-Chain}
use optimistic_locking.Tests.OptimisticList.{shared_list, list}

abbrev value_next : Option (Node ℕ) → ℕ
value_next none = null
value_next (some x) = x.next

abbrev skipped : (ℕ → Option (Node ℕ)) → ℕ → ℕ
skipped nodes p = if p == null then null else value_next (nodes p)

-- Another thread unlinks the first node in one go, unless the version is past 0: the lock is free
-- then, at the next version.
abbrev unlinked : Memory (Shared ℕ) → Memory (Shared ℕ)
unlinked m =
    if version (m.cells 0) == 0
    then record {
      cells = λ _. 1;
      rest = record (m.rest) {
        heap = record ((m.rest).heap) { root = skipped ((m.rest).heap).nodes ((m.rest).heap).root };
      };
    }
    else m

abbrev unlinking : Turn (Shared ℕ)
unlinking = record { interfere = unlinked; spurious = false }

word_one : (version 1 ≡ 1) × (lock_state 1 ≡ 0) × (version 0 ≡ 0)
unfolding version lock_state
word_one = (refl, refl, refl)

Chain-same :
    {h g : Heap ℕ} {p : ℕ} {xs : List (ℕ × ℕ)} → g.nodes ≡ h.nodes → Chain h p xs → Chain g p xs
Chain-same same stop = stop
Chain-same same (node {p} {next} {v} ne e c) = node ne (rw same e) (Chain-same same c)

Chain-skipped :
    (h : Heap ℕ) {p : ℕ} {xs : List (ℕ × ℕ)}
    → Chain h p xs
    → (ys : List (ℕ × ℕ)) × Chain h (skipped h.nodes p) ys × (length ys ≤ length xs)
Chain-skipped h stop = ([], stop, omega arith)
Chain-skipped h (node {p} {next} {v} {xs} ne e c) = (xs, rw (not_null p ne, e) c, omega arith)

unlinking-IsSafeTurn : IsSafeTurn 1 2 unlinking
unlinking-IsSafeTurn m sound = elim (Bool-cases (version (m.cells 0) == 0)) [
  | inl old ↦
      let (xs, c, le) = sound.rooted in
      let (ys, skips, shorter) = Chain-skipped (m.rest).heap c in
      rw old (
        record { rooted = (ys, Chain-same refl skips, omega arith); slot = sound.slot },
        λ p (zs, chain, few). (zs, Chain-same refl chain, few),
      )
  | inr past ↦ rw past (sound, λ p b. b)
]

unlinking-IsFairTurn : IsFairTurn 0 unlinking
unlinking-IsFairTurn m = elim (Bool-cases (version (m.cells 0) == 0)) [
  | inl old ↦
      let zero_ : version (m.cells 0) ≡ 0 = ground arith in
      let one = word_one.0 in
      rw old (
        record {
          versions = omega arith;
          held = λ e _. absurd (omega arith);
          nodes_same = λ e _. absurd (omega arith);
        },
        refl,
      )
  | inr past ↦ rw past (Evolves_refl 0 m, refl)
]

abbrev nothing : Turn (Shared ℕ)
nothing = record { interfere = λ m. m; spurious = false }

-- The first node is unlinked while this thread is in its search.
abbrev searched : World (Shared ℕ)
searched = record {
  mem = shared_list;
  turns = nothing ∷ nothing ∷ nothing ∷ nothing ∷ unlinking ∷ [];
}

idle-IsSafeTurn : IsSafeTurn 1 2 nothing
idle-IsSafeTurn m sound = (sound, λ p b. b)

searched-Safe : Safe 0 1 2 searched
unfolding version lock_state
searched-Safe = record {
  turns_safe = (
    idle-IsSafeTurn,
    (idle-IsSafeTurn, (idle-IsSafeTurn, (idle-IsSafeTurn, (unlinking-IsSafeTurn, tt)))),
  );
  sound = record { rooted = (_, heap-Chain, omega arith); slot = (3, refl) };
  ends_open = λ _ _ _ _ _. omega arith;
}

idle-IsFairTurn : IsFairTurn 0 nothing
idle-IsFairTurn m = (Evolves_refl 0 m, refl)

optimistic_look_up_returns_example :
    (b : Bool) × (w' : World (Shared ℕ)) × (optimistic_look_up key 6 8 list 1 40 searched ≡ ok b w')
    × Seen 0 (look_up key 8 40) searched b w'
optimistic_look_up_returns_example =
    optimistic_look_up_returns key list 1 2 40 8 6 searched
      (
        idle-IsFairTurn,
        (idle-IsFairTurn, (idle-IsFairTurn, (idle-IsFairTurn, (unlinking-IsFairTurn, tt)))),
      )
      searched-Safe (omega arith) (omega arith)
