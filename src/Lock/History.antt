-- ===== src/Lock/History.antt =====
-- Whole histories of calls of a `HybridLock` by one thread, over its interface.
use optimistic_locking.Base.{
  ℕ, ◌+◌, ◌^◌, ◌≤◌, ◌<◌, ◌≡◌, refl, sym, ap, ◌∙◌, Bool, true, Option, none, some, List, [], ◌∷◌,
  All, length, arith,
}
use optimistic_locking.Machine.{
  Memory, World, M, Outcome, ok, thrown, aborted, running, quiet, pure, and_then, ◌>>=◌, ◌>>◌,
}
use optimistic_locking.Lock.Word.{version}
use optimistic_locking.Lock.Spec.{View, Operation, view_of, spec}
use optimistic_locking.Lock.Refinement.{view_operation, Ready, run, Agrees, run-spec}
use optimistic_locking.Lock.Interface.{HybridLock, hybrid_lock_at}

module _ {H : Type 0} where
  abbrev pub call : HybridLock H → Operation ℕ → M (World H) Bool
  call l (Operation.lock_exclusive old) = l.try_lock_exclusive old
  call l (Operation.lock_shared old) = l.try_lock_shared old
  call l (Operation.upgrade old) = l.upgrade_lock old
  call l Operation.unlock_exclusive = l.unlock_exclusive >> pure true
  call l Operation.unlock_shared = l.unlock_shared 1 >> pure true
  call l Operation.downgrade = l.downgrade_lock >> pure true

  -- the calls of a list, one after the other, with their results
  pub history : HybridLock H → List (Operation ℕ) → M (World H) (List Bool)
  history l [] = pure []
  history l (o ∷ os) = do b ← call l o; bs ← history l os; pure (b ∷ bs)

abbrev prepend : Bool → Option (List Bool × View) → Option (List Bool × View)
prepend b none = none
prepend b (some (bs, v)) = some (b ∷ bs, v)

pub spec_history : List (Operation View) → View → Option (List Bool × View)
spec_history [] v = some ([], v)
spec_history (o ∷ os) v = elim (spec o v) [
  | none ↦ none
  | some (b, v') ↦ prepend b (spec_history os v')
]

abbrev pub views : List (Operation ℕ) → List (Operation View)
views [] = []
views (o ∷ os) = view_operation o ∷ views os

-- A word that a caller hands over is 64 bits wide.
abbrev pub Fits : Operation ℕ → Type 0
Fits (Operation.lock_exclusive old) = old < 2 ^ 64
Fits (Operation.lock_shared old) = old < 2 ^ 64
Fits (Operation.upgrade old) = old < 2 ^ 64
Fits _ = Unit

-- The outcome of a history is the one of the specification, as for one operation.
abbrev pub AllAgree :
    {H : Type 0} → ℕ → Memory H → Outcome (World H) (List Bool) → Option (List Bool × View) → Type 0
AllAgree lock m (ok bs w) (some (cs, v)) =
    (bs ≡ cs) × (view_of ((w.mem).cells lock) ≡ v) × ((w.mem).rest ≡ m.rest)
AllAgree lock m aborted none = Unit
AllAgree lock m _ _ = ⊥

-- An operation counts the version up by one at most.
spec-version :
    (o : Operation View) (v : View) (b : Bool) (v' : View)
    → spec o v ≡ some (b, v')
    → v'.version ≤ v.version + 1
unfolding spec
spec-version (Operation.lock_exclusive seen) v b v' e = ground arith
spec-version (Operation.lock_shared seen) v b v' e = ground arith
spec-version (Operation.upgrade seen) v b v' e = ground arith
spec-version Operation.unlock_exclusive v b v' e = ground arith
spec-version Operation.unlock_shared v b v' e = ground arith
spec-version Operation.downgrade v b v' e = ground arith

call-run :
    {H : Type 0}
    → (lock : ℕ) → (o : Operation ℕ) → call {H = H} (hybrid_lock_at lock) o ≡ run lock o
call-run lock (Operation.lock_exclusive old) = refl
call-run lock (Operation.lock_shared old) = refl
call-run lock (Operation.upgrade old) = refl
call-run lock Operation.unlock_exclusive = refl
call-run lock Operation.unlock_shared = refl
call-run lock Operation.downgrade = refl

ready : (w : ℕ) → (o : Operation ℕ) → Fits o → version w + 1 < 2 ^ 56 → Ready w o
ready w (Operation.lock_exclusive old) h last = h
ready w (Operation.lock_shared old) h last = h
ready w (Operation.upgrade old) h last = h
ready w Operation.unlock_exclusive h last = last
ready w Operation.unlock_shared h last = tt
ready w Operation.downgrade h last = last

AllAgree-prepend :
    {H : Type 0}
    → (lock : ℕ) (m m' : Memory H) (b : Bool) (x : Outcome (World H) (List Bool))
    → (s : Option (List Bool × View)) → m'.rest ≡ m.rest
    → AllAgree lock m' x s
    → AllAgree lock m (and_then x (λ bs. pure (b ∷ bs))) (prepend b s)
AllAgree-prepend lock m m' b (ok bs w) (some (cs, v)) e (same, seen, rest) =
    (ap (λ z. b ∷ z) same, seen, rest ∙ e)
AllAgree-prepend {H = H} lock m m' b (ok bs w) none e h = elim h [ ]
AllAgree-prepend {H = H} lock m m' b (thrown _ _) s e h = elim h [ ]
AllAgree-prepend lock m m' b aborted none e h = tt
AllAgree-prepend {H = H} lock m m' b aborted (some _) e h = elim h [ ]
AllAgree-prepend {H = H} lock m m' b running s e h = elim h [ ]

at_rest : {H : Type 0} → (w : World H) → w.turns ≡ [] → w ≡ quiet w.mem
at_rest w idle = ap (λ ts. record { mem = w.mem; turns = ts }) idle

-- One operation, and then the rest of the history.
AllAgree-step :
    {H : Type 0}
    → (lock : ℕ) (m : Memory H) (x : Outcome (World H) Bool) (s : Option (Bool × View))
    → (k : M (World H) (List Bool)) (rest : View → Option (List Bool × View)) → Agrees lock m x s
    → ((m' : Memory H) (b : Bool) (v : View)
        → s ≡ some (b, v)
        → m'.cells lock < 2 ^ 64
        → view_of (m'.cells lock) ≡ v
        → AllAgree lock m' (k (quiet m')) (rest (view_of (m'.cells lock))))
    → AllAgree lock m
        (and_then x (λ b. k >>= λ bs. pure (b ∷ bs)))
        (elim s [ none ↦ none | some (b, v) ↦ prepend b (rest v) ])
AllAgree-step lock m (ok b w) (some (c, v)) k rest (same, seen, fits, kept, idle) later =
    rw (ap k (at_rest w idle), same, ap rest (sym seen))
      (AllAgree-prepend lock m w.mem c (k (quiet w.mem)) (rest (view_of ((w.mem).cells lock))) kept
        (later w.mem c v refl fits seen))
AllAgree-step {H = H} lock m (ok b w) none k rest h later = elim h [ ]
AllAgree-step {H = H} lock m (thrown _ _) s k rest h later = elim h [ ]
AllAgree-step lock m aborted none k rest h later = tt
AllAgree-step {H = H} lock m aborted (some _) k rest h later = elim h [ ]
AllAgree-step {H = H} lock m running s k rest h later = elim h [ ]

module _ {H : Type 0} (lock : ℕ) where
  -- A thread that runs alone calls the operations of a `HybridLock` one after the other, with words
  -- of 64 bits, on a lock whose word is 64 bits wide and that is further from the last version than
  -- there are calls. The results of all calls and the lock's view at the end are those of the
  -- specification, the history stops at a failed assertion where the specification has one, and the
  -- data is not changed.
  pub history-spec :
      (os : List (Operation ℕ)) (m : Memory H)
      → All Fits os
      → m.cells lock < 2 ^ 64
      → version (m.cells lock) + length os < 2 ^ 56
      → AllAgree lock m
          (history (hybrid_lock_at lock) os (quiet m))
          (spec_history (views os) (view_of (m.cells lock)))
  unfolding history spec_history
  history-spec [] m h fits bound = (refl, refl, refl)
  history-spec (o ∷ os) m h fits bound = rw (call-run lock o) (
      AllAgree-step lock m (run lock o (quiet m)) (spec (view_operation o) (view_of (m.cells lock)))
        (history (hybrid_lock_at lock) os) (spec_history (views os))
        (run-spec lock m fits o (ready (m.cells lock) o h.0 (omega arith)))
        (λ m' b v e fits' seen.
          let more : v.version ≤ version (m.cells lock) + 1 =
            spec-version (view_operation o) (view_of (m.cells lock)) b v e in
          let same : version (m'.cells lock) ≡ v.version = ap View.version seen in
          history-spec os m' h.1 fits' (omega arith)))
