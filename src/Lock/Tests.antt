-- ===== src/Lock/Tests.antt =====
-- The laws of the lock at a lock that was used before.
use phoebe.Base.{◌-◌, ◌^◌, ◌≡◌, refl, true, false, none, some, arith}
use phoebe.Lock.{TicketLock, lock, is_locked, unlock, try_lock, ◌>>=◌}
use phoebe.Lock.Scoped.{
  scoped, scoped_defer, scoped_try, scoped_adopt, destroy, lock_mutex, assign, no_mutex,
}
use phoebe.Lock.Laws.{holding, lock-unlock, scoped-destroy, scoped_try-destroy_held}

-- The next ticket is the last one that fits 64 bits.
abbrev used : TicketLock
used = record { next_ticket = 2 ^ 64 - 1; serving_ticket = 2 ^ 64 - 1 }

abbrev busy : TicketLock
busy = record { next_ticket = 4; serving_ticket = 3 }

used_free : is_locked used ≡ false
unfolding is_locked
used_free = refl

lock-unlock_example :
    (l' : TicketLock) × (lock used ≡ some l')
    × (try_lock used ≡ some (true, l'))
    × (is_locked l' ≡ true)
    × (lock l' ≡ none)
    × (try_lock l' ≡ some (false, l'))
    × (is_locked (unlock l') ≡ false)
lock-unlock_example = lock-unlock used (omega arith) used_free

scoped-destroy_example :
    (held : TicketLock) × (after : TicketLock) × (scoped used ≡ some (holding held))
    × (lock_mutex (scoped_defer used) ≡ some (holding held))
    × (scoped_try used ≡ some (holding held))
    × ((lock used >>= λ m. some (scoped_adopt m)) ≡ some (holding held))
    × (is_locked held ≡ true)
    × (lock held ≡ none)
    × (assign no_mutex (holding held) ≡ (holding held, no_mutex))
    × (destroy (holding held) ≡ some after)
    × (destroy no_mutex ≡ none)
    × (is_locked after ≡ false)
scoped-destroy_example = scoped-destroy used (omega arith) used_free

scoped_try-destroy_held_example :
    (is_locked busy ≡ true)
    × ((scoped_try busy >>= destroy) ≡ some (record { next_ticket = 4; serving_ticket = 4 }))
    × (is_locked (record { next_ticket = 4; serving_ticket = 4 }) ≡ false)
scoped_try-destroy_held_example = scoped_try-destroy_held busy (omega arith) (omega arith)
