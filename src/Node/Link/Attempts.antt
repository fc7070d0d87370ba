-- ===== src/Node/Link/Attempts.antt =====
-- How often a node dials its masters, and how long it waits, before it gives up.
use cpcluster.Prelude.{
  ℕ, zero, suc, ◌+◌, ◌*◌, ◌≤◌, String, Option, List, [], ◌∷◌, if◌then◌else◌, str_eq,
}
use cpcluster.Prelude.Action.{Action}
use cpcluster.Prelude.Dict.{Dict}
use cpcluster.Common.Protocol.{Bytes, NodeMessage}
use cpcluster.Common.Wire.{Wire}
use cpcluster.Node.Link.{Link, Trace, reconnect}

-- At most so many more connections were tried, and so much more time was slept.
-- Which of them count is up to `counted`.
record AtMost (counted : Trace → ℕ) (dials waits : ℕ) (t after : Trace) : Type 0 where
  dialled_at_most : counted after ≤ counted t + dials
  slept_at_most : after.slept_ms ≤ t.slept_ms + waits

-- The dials of `retries + 1` rounds, and the doubling waits between them.
abbrev rounds : ℕ → ℕ → ℕ
rounds zero n = n
rounds (suc left) n = n + rounds left n

abbrev waits : ℕ → ℕ → ℕ
waits zero delay = 0
waits (suc left) delay = delay + waits left (2 * delay)

abbrev total : (String → ℕ) → List String → ℕ
total weight [] = 0
total weight (addr ∷ addrs) = weight addr + total weight addrs

-- How often an address is in a list.
abbrev pub occurs : String → List String → ℕ
occurs addr = total (λ a. if str_eq a addr then 1 else 0)

module _ (wire : Wire) (dial : ℕ → String → Option Link) (token : Bytes) (max_retries : ℕ)
    (master_addresses : List String) (open_tasks : Dict NodeMessage) where
  abbrev after_all : Trace
  after_all = (reconnect wire dial token max_retries master_addresses open_tasks).1
