-- ===== src/Threads/Rest.antt =====
-- The threads of MultiThreadTimedExecutor in priority_executor.cpp can always come to rest, with every
-- group free.
use deadline_driven_enhancem.Base.{ℕ, ◌≡◌, ◌≢◌, Bool}
use deadline_driven_enhancem.PriorityQueue.{PriorityQueue}
use deadline_driven_enhancem.Graph.{Graph}
use deadline_driven_enhancem.Threads.{idle, Pool, Reaches}

module _ (pq : PriorityQueue) (g : Graph) (mutually_exclusive : ℕ → Bool) where
  -- A thread ends its round, alone.
  record Ended (t : ℕ) (p : Pool) : Type 0 where
    pub last : Pool
    pub reached : Reaches pq g mutually_exclusive p last
    pub at_rest : last.phase t ≡ idle
    pub others : (u : ℕ) → t ≢ u → last.phase u ≡ p.phase u
