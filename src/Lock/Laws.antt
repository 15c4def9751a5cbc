-- ===== src/Lock/Laws.antt =====
-- How taking and leaving a lock fit together, with and without a guard.
use phoebe.Base.{◌+◌, ◌^◌, ◌<◌, ◌≡◌, refl, true, false, u64, none, some, arith}
use phoebe.Lock.{TicketLock, lock, is_locked, unlock, try_lock, ◌>>=◌}
use phoebe.Lock.Scoped.{
  ScopedLock, no_mutex, scoped, scoped_defer, scoped_try, scoped_adopt, destroy, lock_mutex,
  unlock_mutex, swap, assign,
}

-- The counters are 64-bit words.
pub record IsValid (l : TicketLock) : Type 0 where
  pub next : l.next_ticket < 2 ^ 64
  pub serving : l.serving_ticket < 2 ^ 64

-- A free lock is obtained by `lock` and by `try_lock`, is locked then, is not obtained again while
-- it is held, and is free after `unlock`.
pub lock-unlock :
    (l : TicketLock)
    → IsValid l
    → is_locked l ≡ false
    → (l' : TicketLock) × (lock l ≡ some l')
      × (try_lock l ≡ some (true, l'))
      × (is_locked l' ≡ true)
      × (lock l' ≡ none)
      × (try_lock l' ≡ some (false, l'))
      × (is_locked (unlock l') ≡ false)
unfolding lock is_locked unlock try_lock
lock-unlock l valid free = (
  record l { next_ticket = u64 (l.next_ticket + 1) },
  ground (arith, valid.next),
  ground (arith, valid.next),
  ground (arith, valid.next, valid.serving),
  ground (arith, valid.next, valid.serving),
  ground (arith, valid.next, valid.serving),
  ground (arith, valid.next, valid.serving),
)

-- A guard that holds a lock.
abbrev pub holding : TicketLock → ScopedLock
holding m = record { mutex = some m; locked = true }

-- Over a free lock, a guard that is made with it, one that is deferred and locked later, one made by
-- `try_to_lock`, and one that adopts the lock once `lock` has taken it all hold the lock: it is locked
-- and cannot be taken by another. A guard without a lock that is assigned a holding one holds the lock in
-- its place, the other one holds nothing, and its end touches no lock. The lock is free when the holding guard is
-- destroyed.
pub scoped-destroy :
    (l : TicketLock)
    → IsValid l
    → is_locked l ≡ false
    → (held : TicketLock) × (after : TicketLock) × (scoped l ≡ some (holding held))
      × (lock_mutex (scoped_defer l) ≡ some (holding held))
      × (scoped_try l ≡ some (holding held))
      × ((lock l >>= λ m. some (scoped_adopt m)) ≡ some (holding held))
      × (is_locked held ≡ true)
      × (lock held ≡ none)
      × (assign no_mutex (holding held) ≡ (holding held, no_mutex))
      × (destroy (holding held) ≡ some after)
      × (destroy no_mutex ≡ none)
      × (is_locked after ≡ false)
unfolding lock is_locked unlock try_lock scoped destroy lock_mutex scoped_defer scoped_try
    scoped_adopt assign swap unlock_mutex
scoped-destroy l valid free = (
  record l { next_ticket = u64 (l.next_ticket + 1) },
  record { next_ticket = u64 (l.next_ticket + 1); serving_ticket = u64 (l.serving_ticket + 1) },
  ground (arith, valid.next, valid.serving),
  ground (arith, valid.next, valid.serving),
  ground (arith, valid.next, valid.serving),
  ground (arith, valid.next, valid.serving),
  ground (arith, valid.next, valid.serving),
  ground (arith, valid.next, valid.serving),
  refl,
  ground (arith, valid.next, valid.serving),
  refl,
  ground (arith, valid.next, valid.serving),
)

-- A guard made by `try_to_lock` over a lock that another thread holds takes no ticket, and yet
-- moves the lock to the next ticket when it is destroyed: with a single holder and no one waiting,
-- the lock is free then, while the holder is still inside.
pub scoped_try-destroy_held :
    (l : TicketLock)
    → IsValid l
    → l.next_ticket ≡ u64 (l.serving_ticket + 1)
    → (is_locked l ≡ true)
      × ((scoped_try l >>= destroy) ≡ some (record l { serving_ticket = l.next_ticket }))
      × (is_locked (record l { serving_ticket = l.next_ticket }) ≡ false)
unfolding is_locked unlock try_lock destroy scoped_try
scoped_try-destroy_held l valid held = (
  ground (arith, valid.next, valid.serving),
  ground (arith, valid.next, valid.serving),
  ground arith,
)
