-- ===== src/Lock/Scoped.antt =====
-- The guard `ScopedLock` of `kernel/include/lock.hpp`. The methods `lock`, `try_lock` and `unlock`
-- are `lock_mutex`, `try_lock_mutex` and `unlock_mutex` here.
use phoebe.Base.{Bool, true, false, if◌then◌else◌, Option, none, some}
use phoebe.Lock.{TicketLock, lock, unlock, try_lock, ◌>>=◌}

-- A guard, with the lock that its pointer refers to in place of the pointer. Two guards may refer
-- to one lock; the functions below are about one guard at a time.
pub record ScopedLock : Type 0 where
  pub mutex : Option TicketLock
  pub locked : Bool

-- The constructors.
abbrev pub no_mutex : ScopedLock
no_mutex = record { mutex = none; locked = false }

unfoldable pub scoped : TicketLock → Option ScopedLock
unfolding lock
scoped m = do m' ← lock m; some (record { mutex = some m'; locked = true })

unfoldable pub scoped_defer : TicketLock → ScopedLock
scoped_defer m = record { mutex = some m; locked = false }

-- The result of `try_lock` is not looked at.
unfoldable pub scoped_try : TicketLock → Option ScopedLock
unfolding try_lock
scoped_try m = do r ← try_lock m; some (record { mutex = some (r.1); locked = true })

unfoldable pub scoped_adopt : TicketLock → ScopedLock
scoped_adopt m = record { mutex = some m; locked = true }

-- The destructor: what becomes of the lock. A guard that is `locked` has one.
unfoldable pub destroy : ScopedLock → Option TicketLock
unfolding unlock
destroy g = if g.locked then (do m ← g.mutex; some (unlock m)) else g.mutex

unfoldable pub lock_mutex : ScopedLock → Option ScopedLock
unfolding lock
lock_mutex g = elim g.mutex [
  | none ↦ some g
  | some m ↦ do m' ← lock m; some (record { mutex = some m'; locked = true })
]

unfoldable pub try_lock_mutex : ScopedLock → Option (Bool × ScopedLock)
unfolding try_lock
try_lock_mutex g = elim g.mutex [
  | none ↦ some (false, g)
  | some m ↦ do
    r ← try_lock m
    some (r.0, record { mutex = some (r.1); locked = if r.0 then true else g.locked })
]

unfoldable pub unlock_mutex : ScopedLock → ScopedLock
unfolding unlock
unlock_mutex g = elim g.mutex [
  | none ↦ g
  | some m ↦ record { mutex = some (unlock m); locked = false }
]

unfoldable pub swap : ScopedLock → ScopedLock → ScopedLock × ScopedLock
swap g other = (
  record { mutex = other.mutex; locked = other.locked },
  record { mutex = g.mutex; locked = g.locked },
)

-- The guard left, and the pointer returned.
unfoldable pub release : ScopedLock → ScopedLock × Option TicketLock
release g = (record { mutex = none; locked = false }, g.mutex)

-- `operator=(ScopedLock&&)`: the guard assigned to, and the other.
unfoldable pub assign : ScopedLock → ScopedLock → ScopedLock × ScopedLock
unfolding unlock_mutex swap
assign g other = swap (if g.locked then unlock_mutex g else g) other
