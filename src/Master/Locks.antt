-- ===== src/Master/Locks.antt =====
-- Which mutexes of a `MasterNode` a task holds at once, in CPCluster_masterNode/src/lib.rs and state.rs.
-- A guard lives to the end of its statement, or of its block where a `let` binds it.
pub mod Deadlock
pub mod Answer
use cpcluster.Prelude.{
  ℕ, Bool, true, false, Option, none, some, List, [], ◌∷◌, ◌==◌, ◌≡◌, ◌⊎◌, inl, inr, refl,
  if◌then◌else◌,
}

-- The mutexes, named for the fields.
pub data Lock : Type 0 where
  connected_nodes : Lock
  available_ports : Lock
  pending_tasks : Lock
  completed_tasks : Lock

-- The order in which `save_state` takes them.
unfoldable pub rank : Lock → ℕ
rank connected_nodes = 0
rank available_ports = 1
rank pending_tasks = 2
rank completed_tasks = 3

-- Different mutexes have different places.
pub same_lock : (k l : Lock) → k ≡ l ⊎ ((rank k == rank l) ≡ false)
unfolding rank
same_lock connected_nodes connected_nodes = inl refl
same_lock available_ports available_ports = inl refl
same_lock pending_tasks pending_tasks = inl refl
same_lock completed_tasks completed_tasks = inl refl
same_lock connected_nodes _ = inr refl
same_lock available_ports _ = inr refl
same_lock pending_tasks _ = inr refl
same_lock completed_tasks _ = inr refl

-- What a task does without giving a guard back in between: `save_state`, `collect_state`, the search of
-- `send_pending_tasks`, the `if let` of the shell that removes a result and saves the state in its body,
-- or the use of a single table.
pub data Operation : Type 0 where
  saves : Operation
  collects : Operation
  searches : Operation
  answers : Operation
  uses : Lock → Operation

-- The mutexes that it takes, one after the other, before it gives all of them back.
unfoldable pub locks_of : Operation → List Lock
locks_of saves = connected_nodes ∷ available_ports ∷ pending_tasks ∷ completed_tasks ∷ []
locks_of collects = connected_nodes ∷ pending_tasks ∷ completed_tasks ∷ []
locks_of searches = pending_tasks ∷ connected_nodes ∷ []
locks_of answers =
    completed_tasks ∷ connected_nodes ∷ available_ports ∷ pending_tasks ∷ completed_tasks ∷ []
locks_of (uses l) = l ∷ []

-- The shell waits for an answer under `timeout`, which ends it wherever it stands.
unfoldable pub has_limit : Operation → Bool
has_limit answers = true
has_limit _ = false

-- Who holds a mutex, and what the task of a number has still to take; one that has all its guards has
-- nothing left to take, and one that is outside of all operations has none. `limited` says whether the
-- operation that it began last is one under `timeout`.
pub record Locks : Type 0 where
  pub owner : Lock → Option ℕ
  pub waits : ℕ → Option (List Lock)
  pub limited : ℕ → Bool

abbrev pub waits_for : ℕ → Option (List Lock) → Locks → ℕ → Option (List Lock)
waits_for i w s j = if j == i then w else s.waits j

abbrev pub begin : ℕ → Operation → Locks → Locks
begin i op s = record s {
  waits = waits_for i (some (locks_of op)) s;
  limited = λ j. if j == i then has_limit op else s.limited j;
}

abbrev pub own : ℕ → Lock → Locks → Lock → Option ℕ
own i l s k = if rank k == rank l then some i else s.owner k

-- `lock().await` returns.
abbrev pub acquire : ℕ → Lock → List Lock → Locks → Locks
acquire i l ls s = record s { owner = own i l s; waits = waits_for i (some ls) s }

-- The guards that a task holds are dropped.
abbrev pub released : ℕ → Option ℕ → Option ℕ
released i none = none
released i (some j) = if j == i then none else some j

abbrev pub drop_all : ℕ → Locks → Locks
drop_all i s = record s { owner = λ l. released i (s.owner l); waits = waits_for i none s }

-- One task begins an operation, gets a mutex that no one holds, drops its guards at the end, or drops
-- what it has when its time is up.
pub data Move : Locks → Locks → Type 0 where
  begins : (i : ℕ) (op : Operation) (s : Locks) → s.waits i ≡ none → Move s (begin i op s)
  acquires :
      (i : ℕ) (l : Lock) (ls : List Lock) (s : Locks)
      → s.waits i ≡ some (l ∷ ls)
      → s.owner l ≡ none
      → Move s (acquire i l ls s)
  drops : (i : ℕ) (s : Locks) → s.waits i ≡ some [] → Move s (drop_all i s)
  times_out : (i : ℕ) (s : Locks) → s.limited i ≡ true → Move s (drop_all i s)

pub data Moves : Locks → Locks → Type 0 where
  stay : (s : Locks) → Moves s s
  onward : {a b c : Locks} → Move a b → Moves b c → Moves a c

-- No one holds a mutex, and no one is about to take one.
abbrev pub all_free : Locks
all_free = record { owner = λ l. none; waits = λ i. none; limited = λ i. false }
