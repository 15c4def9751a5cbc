-- ===== src/Lock/Threads/Laws.antt =====
-- At most one thread is inside, and tickets are served in the order in which they were taken.
use phoebe.Base.{
  ℕ, zero, suc, ◌+◌, ◌^◌, ◌≤◌, ◌<◌, ◌≡◌, refl, sym, ap, ◌∙◌, ◌⊎◌, inl, inr, ◌==◌, ==_iff, false,
  u64, List, [], ◌∷◌, ◌++◌, length, get_or, arith,
}
use phoebe.Libc.Strtol.{advance}
use phoebe.Lock.{TicketLock, new_lock, unlock, is_locked}
use phoebe.Lock.Threads.{Threads, Step, Reach, take_ticket}

-- `n` tickets from `s` on, as they are handed out.
unfoldable pub run : ℕ → ℕ → List ℕ
run s zero = []
run s (suc n) = u64 s ∷ run (s + 1) n

abbrev pub tickets : ℕ → ℕ → TicketLock
tickets s e = record { next_ticket = u64 e; serving_ticket = u64 s }

-- The tickets from the one served on are those of the thread inside, if there is one, and of the
-- threads that wait, each once and in order.
pub data IsFair (threads : ℕ) : Threads → Type 0 where
  quiet :
      (s n : ℕ)
      → n ≤ threads
      → IsFair threads (record { lock = tickets s (s + n); waiting = run s n; inside = [] })
  busy :
      (s n : ℕ)
      → n < threads
      → IsFair threads
          (record { lock = tickets s (s + suc n); waiting = run (s + 1) n; inside = u64 s ∷ [] })

run-append : (s n : ℕ) → run s n ++ (u64 (s + n) ∷ []) ≡ run s (suc n)
unfolding run
run-append s zero = let e : s + 0 ≡ s = omega arith in rw e
run-append s (suc n) =
    let e : s + suc n ≡ s + 1 + n = omega arith in
    rw e (ap (λ (t : List ℕ). u64 s ∷ t) (run-append (s + 1) n))

length-run : (s n : ℕ) → length (run s n) ≡ n
unfolding run
length-run s zero = refl
length-run s (suc n) = ap suc (length-run (s + 1) n)

-- A ticket before the first does not occur again until they wrap around.
run-absent :
    (t s n : ℕ) (front back : List ℕ)
    → t < s
    → s + n ≤ t + 2 ^ 64
    → ¬ (run s n ≡ front ++ (u64 t ∷ back))
unfolding run
run-absent t s zero [] back p q e = absurd (omega (arith, ap length e))
run-absent t s zero (x ∷ front) back p q e = absurd (omega (arith, ap length e))
run-absent t s (suc n) [] back p q e =
    let same : u64 s ≡ u64 t = ap (λ (l : List ℕ). get_or l 0 0) e in
    absurd (omega (arith, same, p, q))
run-absent t s (suc n) (x ∷ front) back p q e =
    run-absent t (s + 1) n front back (omega (arith, p)) (omega (arith, q)) (ap advance e)

-- The ticket served is the first.
run-first :
    (s n : ℕ) (front back : List ℕ)
    → n < 2 ^ 64
    → run s n ≡ front ++ (u64 s ∷ back)
    → (m : ℕ) × (n ≡ suc m) × (front ++ back ≡ run (s + 1) m)
unfolding run
run-first s zero [] back q e = absurd (omega (arith, ap length e))
run-first s zero (x ∷ front) back q e = absurd (omega (arith, ap length e))
run-first s (suc n) [] back q e = (n, refl, sym (ap advance e))
run-first s (suc n) (x ∷ front) back q e =
    absurd (run-absent s (s + 1) n front back (omega arith) (omega (arith, q)) (ap advance e))

unlock-tickets :
    (s n : ℕ) → n + 1 < 2 ^ 64 → unlock (tickets s (s + suc n)) ≡ tickets (s + 1) (s + 1 + n)
unfolding unlock is_locked
unlock-tickets s n h =
    let held : (u64 s == u64 (s + suc n)) ≡ false = ground (arith, h) in
    let served : u64 (u64 s + 1) ≡ u64 (s + 1) = omega arith in
    let e : s + suc n ≡ s + 1 + n = omega arith in rw (held, served, e)

single-leave : (a b : ℕ) (front back : List ℕ) → (a ∷ []) ≡ front ++ (b ∷ back) → front ++ back ≡ []
single-leave a b [] back e = sym (ap advance e)
single-leave a b (x ∷ []) back e = absurd (omega (arith, ap length e))
single-leave a b (x ∷ y ∷ front) back e = absurd (omega (arith, ap length e))

module _ (threads : ℕ) (few : threads < 2 ^ 64) where
  Step-IsFair : {s t : Threads} → IsFair threads s → Step threads s t → IsFair threads t
  unfolding take_ticket unlock is_locked
  Step-IsFair (IsFair.quiet s n h) (Step.take room) =
      let e : u64 (u64 (s + n) + 1) ≡ u64 (s + suc n) = omega arith in
      rw (e, run-append s n) (IsFair.quiet s (suc n) (omega (arith, room, length-run s n)))
  Step-IsFair (IsFair.busy s n h) (Step.take room) =
      let e : u64 (u64 (s + suc n) + 1) ≡ u64 (s + suc (suc n)) = omega arith in
      let f : s + suc n ≡ s + 1 + n = omega arith in
      rw (e, f, run-append (s + 1) n)
        (IsFair.busy s (suc n) (omega (arith, room, length-run (s + 1) n)))
  Step-IsFair (IsFair.quiet s n h) (Step.enter front back ticket e served) =
      let t : u64 s ≡ ticket = (==_iff (u64 s) ticket).0 served in
      let (m, count, rest) =
        run-first s n front back (omega (arith, h, few))
          (e ∙ ap (λ (x : ℕ). front ++ (x ∷ back)) (sym t)) in
      rw (sym t, rest, count) (IsFair.busy s m (omega (arith, h, count)))
  Step-IsFair (IsFair.busy s n h) (Step.enter front back ticket e served) =
      let t : u64 s ≡ ticket = (==_iff (u64 s) ticket).0 served in
      absurd (
        run-absent s (s + 1) n front back (omega arith) (omega (arith, h, few))
          (e ∙ ap (λ (x : ℕ). front ++ (x ∷ back)) (sym t)))
  Step-IsFair (IsFair.quiet s n h) (Step.leave [] back ticket e) =
      absurd (omega (arith, ap length e))
  Step-IsFair (IsFair.quiet s n h) (Step.leave (x ∷ front) back ticket e) =
      absurd (omega (arith, ap length e))
  Step-IsFair (IsFair.busy s n h) (Step.leave front back ticket e) =
      rw (single-leave (u64 s) ticket front back e, unlock-tickets s n (omega (arith, h, few)))
        (IsFair.quiet (s + 1) n (omega (arith, h)))

  Reach-IsFair : {s t : Threads} → IsFair threads s → Reach threads s t → IsFair threads t
  Reach-IsFair fair Reach.here = fair
  Reach-IsFair fair (Reach.next path step) = Step-IsFair (Reach-IsFair fair path) step

IsFair-inside : {threads : ℕ} {t : Threads} → IsFair threads t → length t.inside ≤ 1
IsFair-inside (IsFair.quiet s n h) = omega arith
IsFair-inside (IsFair.busy s n h) = omega arith

abbrev pub start : Threads
start = record { lock = new_lock; waiting = []; inside = [] }

start-IsFair : (threads : ℕ) → IsFair threads start
unfolding run
start-IsFair threads = IsFair.quiet 0 0 (omega arith)

-- However fewer than 2 ^ 64 threads take turns at a new lock, at most one of them is inside at a
-- time.
pub Reach-exclusion :
    (threads : ℕ) (t : Threads) → threads < 2 ^ 64 → Reach threads start t → length t.inside ≤ 1
Reach-exclusion threads t few path =
    IsFair-inside (Reach-IsFair threads few (start-IsFair threads) path)

-- Nobody waits, or the thread with the first ticket can enter.
abbrev pub Proceeds : ℕ → Threads → Type 0
Proceeds threads t =
    (t.waiting ≡ [])
    ⊎ ((ticket : ℕ) × (back : List ℕ) × (t.waiting ≡ ticket ∷ back)
        × Step threads t (record t { waiting = back; inside = ticket ∷ t.inside }))

IsFair-Proceeds :
    {threads : ℕ} {t : Threads} → IsFair threads t → t.inside ≡ [] → Proceeds threads t
unfolding run
IsFair-Proceeds (IsFair.quiet s zero h) e = inl refl
IsFair-Proceeds (IsFair.quiet s (suc n) h) e =
    inr
      (u64 s, run (s + 1) n, refl, Step.enter [] (run (s + 1) n) (u64 s) refl ((==_iff _ _).1 refl))
IsFair-Proceeds (IsFair.busy s n h) e = absurd (omega (arith, ap length e))

-- Whenever nobody is inside, either nobody waits or the thread that has waited longest can enter.
pub Reach-Proceeds :
    (threads : ℕ) (t : Threads)
    → threads < 2 ^ 64
    → Reach threads start t
    → t.inside ≡ []
    → Proceeds threads t
Reach-Proceeds threads t few path free =
    IsFair-Proceeds (Reach-IsFair threads few (start-IsFair threads) path) free
