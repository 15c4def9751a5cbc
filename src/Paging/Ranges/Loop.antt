-- ===== src/Paging/Ranges/Loop.antt =====
-- The loop over the pages of a row: what each round does to its page, the loop does to the row.
use phoebe.Base.{
  ℕ, zero, suc, ◌+◌, ◌*◌, ◌^◌, ◌≤◌, ◌<◌, ◌≡◌, ◌≢◌, ◌⊎◌, inl, inr, refl, sym, ap, ◌∙◌, arith, dec_lt,
  Result, ok, stop, Stop,
}
use phoebe.Paging.Frames.{Frames, Laws}
use phoebe.Paging.Walk.{Status}
use phoebe.Paging.Map.{IsMap, Updates, entry_of, page_number}
use phoebe.Paging.Ranges.{each_page}

-- The pages of a row that is no longer than the addresses reach are different.
pub distinct :
    (v i j : ℕ) → i < j → j < 2 ^ 36 → page_number (v + i * 4096) ≢ page_number (v + j * 4096)
distinct v i j less bound same = omega (arith, less, bound, same)

pub distinct-sym :
    (v i j : ℕ) → i < j → j < 2 ^ 36 → page_number (v + j * 4096) ≢ page_number (v + i * 4096)
distinct-sym v i j less bound same = distinct v i j less bound (sym same)

module _ (frames : Frames) (offset : ℕ) (laws : Laws frames offset) (top : ℕ) where
  open frames use {State}

  -- The routine ended in one of the stops that are known.
  abbrev pub Stopped : (Stop → Type 0) → Result (Status × State) → Type 0
  Stopped Known r = (e : Stop) × Known e × (r ≡ stop e)

  module _ (v : ℕ) (want : ℕ → ℕ → ℕ) where
    -- The routine succeeded: in the pages from `k` up to `n` of the row from `v` the entry is what is
    -- wanted of the one before, and every other page has the entry that it had.
    pub record Row (s : State) (k n : ℕ) (r : Result (Status × State)) : Type 0 where
      pub state : State
      pub level : ℕ → ℕ
      pub prefix : ℕ → ℕ
      pub result : r ≡ ok (Status.system_ok, state)
      pub valid : IsMap frames offset laws top state level prefix
      pub inside :
          (i : ℕ)
          → k ≤ i
          → i < n
          → entry_of frames offset laws top state (v + i * 4096)
            ≡ want i (entry_of frames offset laws top s (v + i * 4096))
      pub outside :
          (v' : ℕ)
          → ((i : ℕ) → k ≤ i → i < n → page_number v' ≢ page_number (v + i * 4096))
          → entry_of frames offset laws top state v' ≡ entry_of frames offset laws top s v'

    module _ (n : ℕ) (few : n ≤ 2 ^ 36) (Known : Stop → Type 0)
        (body failed : ℕ → State → Result (Status × State))
        (each : (i : ℕ) (s : State) (level prefix : ℕ → ℕ)
          → i < n
          → IsMap frames offset laws top s level prefix
          → Stopped Known (body (i * 4096) s)
            ⊎ Updates frames offset laws top s
                (v + i * 4096)
                (want i (entry_of frames offset laws top s (v + i * 4096)))
                (body (i * 4096) s)) where
      abbrev loop : ℕ → ℕ → State → Result (Status × State)
      loop left k s = each_page frames offset body failed left 4096 (k * 4096) s

      loop-ok :
          (left k : ℕ) (s s' : State)
          → body (k * 4096) s ≡ ok (Status.system_ok, s')
          → loop (suc left) k s ≡ loop left (k + 1) s'
      unfolding each_page
      loop-ok left k s s' e =
          let next : k * 4096 + 4096 ≡ (k + 1) * 4096 = omega arith in rw e (rw next refl)

      loop-stop :
          (left k : ℕ) (s : State) (e : Stop)
          → body (k * 4096) s ≡ stop e
          → loop (suc left) k s ≡ stop e
      unfolding each_page
      loop-stop left k s e h = rw h refl

      -- A round for the first page and the loop over the others.
      Row-step :
          (left k : ℕ) (s : State)
          → k + suc left ≤ n
          → (u : Updates frames offset laws top s
              (v + k * 4096)
              (want k (entry_of frames offset laws top s (v + k * 4096)))
              (body (k * 4096) s))
          → Row u.state (k + 1) (k + suc left) (loop left (k + 1) u.state)
          → Row s k (k + suc left) (loop (suc left) k s)
      Row-step left k s bound u row = record {
        state = row.state;
        level = row.level;
        prefix = row.prefix;
        result = loop-ok left k s u.state u.result ∙ row.result;
        valid = row.valid;
        inside = λ i from to. elim (dec_lt k i) [
          | yes behind ↦
              row.inside i (omega (arith, behind)) to
              ∙ ap (want i) (
                  u.elsewhere (v + i * 4096)
                    (distinct-sym v k i behind (omega (arith, to, bound, few))))
          | no first ↦
              let at_k : i ≡ k = omega (arith, first, from) in
              rw at_k (
                row.outside (v + k * 4096) (λ j after before.
                  distinct v k j (omega (arith, after)) (omega (arith, before, bound, few)))
                ∙ u.here)
        ];
        outside = λ v' other.
            row.outside v' (λ i after before. other i (omega (arith, after)) before)
            ∙ u.elsewhere v' (other k (omega arith) (omega arith));
      }

      loop-Row :
          (left k : ℕ) (s : State) (level prefix : ℕ → ℕ)
          → k + left ≤ n
          → IsMap frames offset laws top s level prefix
          → Stopped Known (loop left k s) ⊎ Row s k (k + left) (loop left k s)
      unfolding each_page
      loop-Row zero k s level prefix bound map = inr (record {
        state = s;
        level = level;
        prefix = prefix;
        result = refl;
        valid = map;
        inside = λ i from to. absurd (omega (arith, from, to));
        outside = λ v' other. refl;
      })
      loop-Row (suc left) k s level prefix bound map =
          elim (each k s level prefix (omega (arith, bound)) map) [
            | inl (e, known, stopped) ↦ inl (e, known, loop-stop left k s e stopped)
            | inr u ↦
                elim (loop-Row left (k + 1) u.state u.level u.prefix (omega (arith, bound))
                  u.valid) [
                    | inl (e, known, stopped) ↦
                        inl (e, known, loop-ok left k s u.state u.result ∙ stopped)
                    | inr row ↦
                        let all : k + 1 + left ≡ k + suc left = omega arith in
                        inr (Row-step left k s bound u (rw all at row))
                  ]
          ]

      -- The whole row.
      pub each_page-Row :
          (s : State) (level prefix : ℕ → ℕ)
          → IsMap frames offset laws top s level prefix
          → Stopped Known (each_page frames offset body failed n 4096 0 s)
            ⊎ Row s 0 n (each_page frames offset body failed n 4096 0 s)
      each_page-Row s level prefix map =
          let all : 0 + n ≡ n = omega arith in
          rw all at (loop-Row n 0 s level prefix (omega arith) map)
