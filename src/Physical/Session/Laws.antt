-- ===== src/Physical/Session/Laws.antt =====
-- No frame is in two hands: an invariant of every reachable session.
use phoebe.Base.{
  ℕ, ◌+◌, ◌*◌, ◌≤◌, ◌<◌, ◌≡◌, refl, sym, ◌∙◌, subst, ◌⊎◌, inl, inr, arith, ok, List, [], ◌∷◌,
  dec_lt, max, ok-injective, ok-ne-stop,
}
use phoebe.Address.{page_size}
use phoebe.Bitmap.{Bitmap}
use phoebe.Physical.{Physical, physical_allocate, physical_free}
use phoebe.Physical.Range.{IsFree}
use phoebe.Physical.Laws.{
  IsValid, IsUsed, limit, limit-allocated, limit-freed, view-allocated, page_pos,
  used_pages-allocated, used_pages-freed, allocated, freed, Allocates, physical_allocate_lem,
  allocated-IsValid, physical_free-freed, view-freed, freed-IsValid,
}
use phoebe.Physical.Session.{
  Block, Remove, here, there, Session, Step, allocate, release, Reach, start, later, IsHeld, Apart,
  AllApart, AllHeld, total, IsSound,
}

-- A free row and a row in use have no frame in common.
free-used-apart :
    (b : Bitmap) (lo n lo' n' : ℕ)
    → 0 < n
    → 0 < n'
    → IsFree b lo n
    → IsUsed b lo' n'
    → (lo + n ≤ lo') ⊎ (lo' + n' ≤ lo)
free-used-apart b lo n lo' n' p q free used = elim (dec_lt lo' (lo + n)) [
  | yes left ↦ elim (dec_lt lo (lo' + n')) [
    | yes right ↦ absurd (
        ground (
          arith,
          free (max lo lo') (omega arith) (omega arith),
          used (max lo lo') (omega arith) (omega arith),
        ))
    | no right ↦ inr (omega arith)
  ]
  | no left ↦ inl (omega arith)
]

Apart-symm : (a b : Block) → Apart a b → Apart b a
Apart-symm a b (inl h) = inr h
Apart-symm a b (inr h) = inl h

Remove-AllApart :
    {b : Block} {held rest : List Block} (c : Block)
    → Remove b held rest
    → AllApart c held
    → Apart c b × AllApart c rest
Remove-AllApart c here a = a
Remove-AllApart c (there r) a = let (h, t) = Remove-AllApart c r a.1 in (h, (a.0, t))

-- What is known of a block and of the others when it is taken out.
Remove-AllHeld :
    {p : Physical} {b : Block} {held rest : List Block}
    → Remove b held rest
    → AllHeld p held
    → IsHeld p b × AllApart b rest × AllHeld p rest
Remove-AllHeld here h = h
Remove-AllHeld {b = b} (there {y = y} r) h =
    let (one, apart, all) = Remove-AllHeld r h.2 in
    let (from_b, from_rest) = Remove-AllApart y r h.1 in
    (one, (Apart-symm y b from_b, apart), (h.0, from_rest, all))

Remove-total :
    {b : Block} {held rest : List Block} → Remove b held rest → total held ≡ b.count + total rest
unfolding total
Remove-total here = refl
Remove-total (there r) = omega (arith, Remove-total r)

module _ (offset count page : ℕ) (p : Physical) (valid : IsValid p) (pos : 0 < count)
    (fits : page + count ≤ limit p) (free : IsFree p.bitmap page count) where
  IsHeld-allocated : (b : Block) → IsHeld p b → IsHeld (allocated offset count page p) b
  IsHeld-allocated b h = record {
    page = h.page;
    address = h.address;
    pos = h.pos;
    some_frames = h.some_frames;
    fits = rw limit-allocated h.fits;
    used = λ k l u. ground (arith, view-allocated offset count page p valid fits k, h.used k);
  }

  Apart-allocated :
      (b : Block) → IsHeld p b → Apart (record { ptr = page * page_size; count = count }) b
  Apart-allocated b h = ground (
    arith,
    h.address,
    free-used-apart p.bitmap page count h.page b.count pos h.some_frames free h.used,
  )

  AllHeld-allocated :
      (held : List Block)
      → AllHeld p held
      → AllHeld (allocated offset count page p) held
        × AllApart (record { ptr = page * page_size; count = count }) held
  AllHeld-allocated [] h = (tt, tt)
  AllHeld-allocated (b ∷ held) (one, apart, all) =
      let (all', apart') = AllHeld-allocated held all in
      ((IsHeld-allocated b one, apart, all'), (Apart-allocated b one, apart'))

module _ (p : Physical) (b : Block) (valid : IsValid p) (one : IsHeld p b) where
  abbrev after : Physical
  after = freed b.count one.page p

  IsHeld-freed : (c : Block) → Apart b c → IsHeld p c → IsHeld after c
  IsHeld-freed c apart h = record {
    page = h.page;
    address = h.address;
    pos = h.pos;
    some_frames = h.some_frames;
    fits = rw limit-freed h.fits;
    used = λ k l u. ground (
      arith,
      view-freed b.count one.page p valid one.pos one.fits k,
      h.used k l u,
      one.address,
      h.address,
    );
  }

  AllHeld-freed : (held : List Block) → AllApart b held → AllHeld p held → AllHeld after held
  AllHeld-freed [] a h = tt
  AllHeld-freed (c ∷ held) (a, rest) (h, apart, all) =
      (IsHeld-freed c a h, apart, AllHeld-freed held rest all)

module _ (offset : ℕ) {s : Session} (sound : IsSound s) where
  allocate-IsSound :
      (count : ℕ) (r : ℕ × Physical)
      → 0 < count
      → physical_allocate offset count s.state ≡ ok r
      → IsSound (record { state = r.1; held = record { ptr = r.0; count = count } ∷ s.held })
  allocate-IsSound count r pos e =
      elim (physical_allocate_lem offset count s.state sound.valid pos) [
        | inl a ↦ subst After (ok-injective (sym a.result ∙ e)) (taken a)
        | inr none ↦ absurd (ok-ne-stop (sym e ∙ none.0))
      ]
    where
      After : ℕ × Physical → Type 0
      After x =
          IsSound (record { state = x.1; held = record { ptr = x.0; count = count } ∷ s.held })

      new_block :
          (a : Allocates offset count s.state (physical_allocate offset count s.state))
          → IsHeld
              (allocated offset count a.page s.state)
              (record { ptr = a.page * page_size; count = count })
      new_block a = record {
        page = a.page;
        address = refl;
        pos = page_pos offset count s.state sound.valid pos a.page a.free;
        some_frames = pos;
        fits = rw limit-allocated a.to;
        used =
            λ k l u. ground (arith, view-allocated offset count a.page s.state sound.valid a.to k);
      }

      taken :
          (a : Allocates offset count s.state (physical_allocate offset count s.state))
          → After (a.page * page_size, allocated offset count a.page s.state)
      taken a =
          let (held, apart) =
            AllHeld-allocated offset count a.page s.state sound.valid pos a.to a.free s.held
              sound.held in
          record {
            valid =
                allocated-IsValid offset count a.page s.state sound.valid
                  (page_pos offset count s.state sound.valid pos a.page a.free) a.to a.free;
            held = (new_block a, apart, held);
            counted =
                unfold total in
                omega (
                  arith,
                  sound.counted,
                  used_pages-allocated offset count a.page s.state sound.valid a.to a.free,
                );
          }

  release-IsSound :
      (b : Block) (rest : List Block) (p' : Physical)
      → Remove b s.held rest
      → physical_free b.ptr b.count s.state ≡ ok p'
      → IsSound (record { state = p'; held = rest })
  release-IsSound b rest p' out e =
      let (one, apart, all) = Remove-AllHeld out sound.held in
      subst (λ x. IsSound (record { state = x; held = rest })) (same one) (given one apart all)
    where
      same : (one : IsHeld s.state b) → freed b.count one.page s.state ≡ p'
      same one = ok-injective (
          sym (physical_free-freed b.count one.page s.state sound.valid one.pos one.fits)
          ∙ (rw one.address at e))

      given :
          (one : IsHeld s.state b)
          → AllApart b rest
          → AllHeld s.state rest
          → IsSound (record { state = freed b.count one.page s.state; held = rest })
      given one apart all = record {
        valid =
            freed-IsValid b.count one.page s.state sound.valid one.pos one.fits one.used
              (omega (arith, sound.counted, Remove-total out));
        held = AllHeld-freed s.state b sound.valid one rest apart all;
        counted = omega (
          arith,
          sound.counted,
          sound.valid.all_counted,
          sound.valid.few,
          Remove-total out,
          used_pages-freed b.count one.page s.state,
        );
      }

pub Step-IsSound : {offset : ℕ} {s t : Session} → Step offset s t → IsSound s → IsSound t
Step-IsSound {offset} (allocate count r pos e) sound = allocate-IsSound offset sound count r pos e
Step-IsSound {offset} (release b rest p' out e) sound = release-IsSound offset sound b rest p' out e

-- From a sound session, after any number of allocations and of releases of held blocks in any
-- order, the accounts are right, every held block is a row of used frames, and no two overlap.
pub Reach-IsSound : {offset : ℕ} {s t : Session} → Reach offset s t → IsSound s → IsSound t
Reach-IsSound start sound = sound
Reach-IsSound (later r st) sound = Step-IsSound st (Reach-IsSound r sound)
