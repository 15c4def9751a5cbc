-- ===== src/Lock/Threads/Tests.antt =====
-- Two threads at a new lock, with what the theorems say of them.
use phoebe.Base.{◌≤◌, refl, [], ◌∷◌, length, arith}
use phoebe.Lock.Threads.{Threads, Step, Reach, take_ticket}
use phoebe.Lock.Threads.Laws.{start, Proceeds, Reach-exclusion, Reach-Proceeds}

-- Both have taken a ticket.
abbrev contended : Threads
contended = record {
  lock = record { next_ticket = 2; serving_ticket = 0 };
  waiting = 0 ∷ 1 ∷ [];
  inside = [];
}

start-contended : Reach 2 start contended
unfolding take_ticket
start-contended =
    Reach.next (Reach.next Reach.here (Step.take (omega arith))) (Step.take (omega arith))

-- The first of them has entered.
abbrev entered : Threads
entered = record {
  lock = record { next_ticket = 2; serving_ticket = 0 };
  waiting = 1 ∷ [];
  inside = 0 ∷ [];
}

start-entered : Reach 2 start entered
start-entered = Reach.next start-contended (Step.enter [] (1 ∷ []) 0 refl refl)

Reach-exclusion_example : length entered.inside ≤ 1
Reach-exclusion_example = Reach-exclusion 2 entered (omega arith) start-entered

Reach-Proceeds_example : Proceeds 2 contended
Reach-Proceeds_example = Reach-Proceeds 2 contended (omega arith) start-contended refl
