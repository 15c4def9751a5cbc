-- ===== src/Lock.antt =====
-- `kernel/include/lock.hpp`: the ticket lock, and below it the guard, as one thread runs them while
-- no other touches the lock. A wait that no one ends is `none`.
pub mod Scoped
pub mod Threads
pub mod Laws
pub mod Tests
use phoebe.Base.{ℕ, ◌+◌, ◌^◌, ◌==◌, not, Bool, true, false, if◌then◌else◌, u64, Option, none, some}

pub record TicketLock : Type 0 where
  pub next_ticket : ℕ
  pub serving_ticket : ℕ

abbrev pub new_lock : TicketLock
new_lock = record { next_ticket = 0; serving_ticket = 0 }

infixl 5 ◌>>=◌
abbrev pub ◌>>=◌ {ℓ κ} : {A : Type ℓ} {B : Type κ} → Option A → (A → Option B) → Option B
none >>= next = none
some a >>= next = next a

-- The loop of `lock` reads `serving_ticket` until it is the ticket taken: at once, or never.
unfoldable pub lock : TicketLock → Option TicketLock
lock l =
    let ticket = l.next_ticket in
    if l.serving_ticket == ticket then some (record l { next_ticket = u64 (ticket + 1) }) else none

unfoldable pub is_locked : TicketLock → Bool
is_locked l = not (l.serving_ticket == l.next_ticket)

unfoldable pub unlock : TicketLock → TicketLock
unfolding is_locked
unlock l = if is_locked l then record l { serving_ticket = u64 (l.serving_ticket + 1) } else l

unfoldable pub try_lock : TicketLock → Option (Bool × TicketLock)
unfolding is_locked lock
try_lock l = if is_locked l then some (false, l) else (do l' ← lock l; some (true, l'))
