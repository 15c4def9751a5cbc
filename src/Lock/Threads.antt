-- ===== src/Lock/Threads.antt =====
-- Threads that contend for a ticket lock of `kernel/include/lock.hpp`. A thread in `lock` has taken a
-- ticket by `fetch_add` and waits, or has read its ticket in `serving_ticket` and is inside. Only a
-- thread that is inside calls `unlock`, which no other then writes to: it is one step.
pub mod Laws
pub mod Tests
use phoebe.Base.{ℕ, ◌+◌, ◌<◌, ◌≡◌, ◌==◌, Bool, true, u64, List, [], ◌∷◌, ◌++◌, length}
use phoebe.Lock.{TicketLock, unlock}

-- `next_ticket_.fetch_add(1)`
unfoldable pub take_ticket : TicketLock → ℕ × TicketLock
take_ticket l = (l.next_ticket, record l { next_ticket = u64 (l.next_ticket + 1) })

-- The condition that ends the loop of `lock`.
abbrev pub is_served : TicketLock → ℕ → Bool
is_served l ticket = l.serving_ticket == ticket

-- The lock, and the tickets of the threads that wait and of those that are inside.
pub record Threads : Type 0 where
  pub lock : TicketLock
  pub waiting : List ℕ
  pub inside : List ℕ

-- A step of any of at most `threads` threads, in any order.
pub data Step (threads : ℕ) (s : Threads) : Threads → Type 0 where
  take :
      length s.waiting + length s.inside < threads
      → Step threads s (record s {
        lock = (take_ticket s.lock).1;
        waiting = s.waiting ++ ((take_ticket s.lock).0 ∷ []);
      })
  enter :
      (front back : List ℕ) (ticket : ℕ)
      → s.waiting ≡ front ++ (ticket ∷ back)
      → is_served s.lock ticket ≡ true
      → Step threads s (record s { waiting = front ++ back; inside = ticket ∷ s.inside })
  leave :
      (front back : List ℕ) (ticket : ℕ)
      → s.inside ≡ front ++ (ticket ∷ back)
      → Step threads s (record s { lock = unlock s.lock; inside = front ++ back })

pub data Reach (threads : ℕ) (s : Threads) : Threads → Type 0 where
  here : Reach threads s s
  next : {t u : Threads} → Reach threads s t → Step threads t u → Reach threads s u
