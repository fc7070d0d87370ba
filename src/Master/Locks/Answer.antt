-- ===== src/Master/Locks/Answer.antt =====
-- The wait of the shell for an answer: `save_state` in the body of the `if let` waits for the guard that
-- the `if let` itself holds.
use cpcluster.Prelude.{
  ℕ, Bool, true, false, none, some, List, [], ◌∷◌, ◌==◌, ◌≡◌, ◌≢◌, inl, inr, arith, Bool-cases, ◌∙◌,
  subst, sym,
}
use cpcluster.Master.Locks.{
  same_lock, Lock, completed_tasks, rank, Operation, answers, has_limit, locks_of, Locks, begin,
  acquire, drop_all, own, Move, Moves, begins, acquires, drops, times_out, stay, onward, all_free,
}

-- The completed tasks come last.
unfoldable ends : List Lock → Bool
ends [] = false
ends (l ∷ []) = rank l == 3
ends (_ ∷ l ∷ ls) = ends (l ∷ ls)

-- How far a task under a time limit can be.
data Stage (s : Locks) (i : ℕ) : Type 0 where
  outside : s.waits i ≡ none → Stage s i
  first : s.waits i ≡ some (locks_of answers) → Stage s i
  inside :
      (ls : List Lock)
      → s.waits i ≡ some ls
      → ends ls ≡ true
      → s.owner completed_tasks ≡ some i
      → Stage s i

abbrev Staged : Locks → Type 0
Staged s = (i : ℕ) → s.limited i ≡ true → Stage s i

-- A task that a move leaves alone stays as far as it is.
same_stage :
    (s t : Locks) (i : ℕ)
    → t.waits i ≡ s.waits i
    → (s.owner completed_tasks ≡ some i → t.owner completed_tasks ≡ some i)
    → Stage s i
    → Stage t i
same_stage s t i w o (outside e) = outside (w ∙ e)
same_stage s t i w o (first e) = first (w ∙ e)
same_stage s t i w o (inside ls e f h) = inside ls (w ∙ e) f (o h)

own_kept :
    (i j : ℕ) (l : Lock) (s : Locks)
    → s.owner l ≡ none
    → s.owner completed_tasks ≡ some j
    → own i l s completed_tasks ≡ some j
own_kept i j l s f h = elim (same_lock completed_tasks l) [
  | inl q ↦ ground (arith, f, h, q)
  | inr q ↦ rw q h
]

begun_stage : (i : ℕ) (op : Operation) (s : Locks) → has_limit op ≡ true → Stage (begin i op s) i
unfolding has_limit
begun_stage i answers s h = first (ground arith)
begun_stage i _ s h = cc

ends_rest :
    (l : Lock) (ls : List Lock) → (3 == rank l) ≡ false → ends (l ∷ ls) ≡ true → ends ls ≡ true
unfolding ends
ends_rest l [] f h = ground (arith, f, h)
ends_rest l (k ∷ ls) f h = h

-- A task that gets one more mutex.
further_stage :
    (i : ℕ) (l : Lock) (ls : List Lock) (s : Locks)
    → s.waits i ≡ some (l ∷ ls)
    → s.owner l ≡ none
    → Stage s i
    → Stage (acquire i l ls s) i
unfolding ends locks_of rank
further_stage i l ls s e f (outside g) = ground (arith, e, g)
further_stage i l ls s e f (first g) =
    inside ls (ground arith) (ground (arith, e, g)) (ground (arith, e, g))
further_stage i l ls s e f (inside ms g h o) = elim (same_lock completed_tasks l) [
  | inl q ↦ ground (arith, f, o, q)
  | inr q ↦
      inside ls (ground arith) (ends_rest l ls q (ground (arith, e, g, h))) (own_kept i i l s f o)
]

Move-Staged : {s t : Locks} → Move s t → Staged s → Staged t
unfolding ends
Move-Staged (begins i op s e) h j r = elim (Bool-cases (j == i)) [
  | inl q ↦
      let same : j ≡ i = ground (arith, q) in
      subst (Stage (begin i op s)) (sym same) (begun_stage i op s (ground (arith, q, r)))
  | inr q ↦ same_stage s (begin i op s) j (ground (arith, q)) (λ o. o) (h j (ground (arith, q, r)))
]
Move-Staged (acquires i l ls s e f) h j r = elim (Bool-cases (j == i)) [
  | inl q ↦
      let same : j ≡ i = ground (arith, q) in
      subst (Stage (acquire i l ls s)) (sym same)
        (further_stage i l ls s e f (h i (subst (λ k. s.limited k ≡ true) same r)))
  | inr q ↦ same_stage s (acquire i l ls s) j (ground (arith, q)) (own_kept i j l s f) (h j r)
]
Move-Staged (drops i s e) h j r = elim (Bool-cases (j == i)) [
  | inl q ↦ outside (ground (arith, q))
  | inr q ↦ same_stage s (drop_all i s) j (ground (arith, q)) (λ o. ground (arith, q, o)) (h j r)
]
Move-Staged (times_out i s e) h j r = elim (Bool-cases (j == i)) [
  | inl q ↦ outside (ground (arith, q))
  | inr q ↦ same_stage s (drop_all i s) j (ground (arith, q)) (λ o. ground (arith, q, o)) (h j r)
]

Moves-Staged : {s t : Locks} → Moves s t → Staged s → Staged t
Moves-Staged (stay s) h = h
Moves-Staged (onward k m) h = Moves-Staged m (Move-Staged k h)

-- From free mutexes on, and in whatever order the tasks go on: a task of the shell that is removing an
-- answer never has all the mutexes that it takes, so that only its time limit ends it.
pub answer_never_complete :
    (s : Locks) → Moves all_free s → (i : ℕ) → s.limited i ≡ true → s.waits i ≢ some []
unfolding ends locks_of
answer_never_complete s m i r e = elim (Moves-Staged m (λ j q. cc) i r) [
  | outside g ↦ ground (arith, e, g)
  | first g ↦ ground (arith, e, g)
  | inside ls g h o ↦ ground (arith, e, g, h)
]
