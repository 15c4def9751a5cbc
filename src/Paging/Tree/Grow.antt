-- ===== src/Paging/Tree/Grow.antt =====
-- A new table in place of none.
use phoebe.Base.{
  ℕ, zero, suc, ◌+◌, ◌*◌, ◌^◌, ◌<◌, ◌≡◌, ◌≢◌, ◌⊎◌, inl, inr, refl, sym, ap, ◌∙◌, subst, ◌==◌, ◌&&◌,
  if◌then◌else◌, true, false, arith, Bool-cases, and_true, ==_iff,
}
use phoebe.Paging.{new_page_flags, get_address, set_flags, set_address}
use phoebe.Paging.Frames.{Frames, Laws, Allocated, slot, IsPage}
use phoebe.Paging.Walk.{link}
use phoebe.Paging.Tree.{idx, word, next, leaf, lookup, Child, IsTree}
use phoebe.Paging.Tree.Link.{
  linked, linked-lt, get_address-linked, is_valid-linked, is_large-linked,
}
use phoebe.Paging.Tree.Lookup.{idx-lt, next-empty, next-link, lookup-blank, Next, Next-cases}

abbrev pub update : (ℕ → ℕ) → ℕ → ℕ → ℕ → ℕ
update f k n x = if k == x then n else f x

module _ (frames : Frames) (offset : ℕ) (laws : Laws frames offset) where
  open frames use {State, allocate, read, write}

  -- The tree of `s` is part of that of `s'`, every address has the entry that it had, and the frames in
  -- use stay in use.
  pub record Extends (s : State) (level prefix : ℕ → ℕ) (s' : State) (level' prefix' : ℕ → ℕ)
      : Type 0 where
    pub tree : IsTree frames offset laws s' level' prefix'
    pub level_kept : (f : ℕ) → 0 < level f → level' f ≡ level f
    pub prefix_kept : (f : ℕ) → 0 < level f → prefix' f ≡ prefix f
    pub next_kept :
        (l f i : ℕ)
        → level f ≡ suc (suc l)
        → i < 512
        → next frames offset s f i ≢ 0
        → next frames offset s' f i ≡ next frames offset s f i
    pub lookup_kept :
        (l f v : ℕ) → level f ≡ suc l → lookup frames offset s' l f v ≡ lookup frames offset s l f v
    pub used_kept : (h : ℕ) → laws.Used s h → laws.Used s' h

  module _ (s t : State) (level prefix : ℕ → ℕ) (l f i g : ℕ)
      (tree : IsTree frames offset laws s level prefix) (at_level : level f ≡ suc (suc l))
      (in_table : i < 512) (none_yet : word frames offset s f i ≡ 0) (ready : laws.Ready t)
      (new : Allocated frames offset laws.limit laws.Used s g t) where
    abbrev grown : State
    grown = link frames offset (slot offset f i) g t

    abbrev level' : ℕ → ℕ
    level' = update level g (suc l)

    abbrev prefix' : ℕ → ℕ
    prefix' = update prefix g (prefix f * 512 + i)

    not_new : (h : ℕ) → 0 < level h → h ≢ g
    not_new h some_level e = new.fresh (subst (laws.Used s) e (tree.used h some_level))

    level_new : level g ≡ 0
    level_new = elim (Bool-cases (level g == 0)) [
      | inl e ↦ (==_iff _ _).0 e
      | inr e ↦ absurd (not_new g (ground (arith, e)) refl)
    ]

    new_word : ℕ
    new_word = linked g new.page.0 (omega (arith, new.page, laws.physical))

    grown-write : grown ≡ write t (slot offset f i) new_word
    unfolding link new_word
    grown-write =
        let here : word frames offset t f i ≡ 0 =
          new.same f i (tree.page f (omega (arith, at_level))) (not_new f (omega (arith, at_level)))
            in_table
          ∙ none_yet in
        ap (λ (w : ℕ). write t (slot offset f i) (set_flags (set_address w g) new_page_flags)) here

    -- Every word of the new state.
    word-grown :
        (h j : ℕ)
        → IsPage laws.limit h
        → j < 512
        → word frames offset grown h j
          ≡ (if f == h && i == j then new_word else word frames offset t h j)
    unfolding new_word
    word-grown h j page h_lt =
        ap (λ (u : State). word frames offset u h j) grown-write
        ∙ laws.read-write t f i h j _ (tree.page f (omega (arith, at_level))) page in_table h_lt
            (linked-lt g new.page.0 (omega (arith, new.page, laws.physical)))

    -- A word of a table that was there, apart from the one that is written.
    word-kept :
        (h j : ℕ)
        → (h ≡ 0) ⊎ (0 < level h)
        → j < 512
        → (f == h && i == j) ≡ false
        → word frames offset grown h j ≡ word frames offset s h j
    word-kept h j there h_lt other =
        let page : IsPage laws.limit h = page_of there in
        let apart : h ≢ g = apart_of there in
        rw other at (word-grown h j page h_lt) ∙ new.same h j page apart h_lt
      where
        page_of : (h ≡ 0) ⊎ (0 < level h) → IsPage laws.limit h
        page_of (inl e) = omega (arith, e, new.page)
        page_of (inr p) = tree.page h p

        apart_of : (h ≡ 0) ⊎ (0 < level h) → h ≢ g
        apart_of (inl e) = λ q. omega (arith, e, q, new.pos)
        apart_of (inr p) = not_new h p

    word_self : word frames offset grown f i ≡ new_word
    word_self =
        let same : (f == f && i == i) ≡ true = ground arith in
        rw same at (word-grown f i (tree.page f (omega (arith, at_level))) in_table)

    word-blank : (j : ℕ) → j < 512 → word frames offset grown g j ≡ 0
    word-blank j h =
        let other : (f == g && i == j) ≡ false =
          ground (arith, not_new f (omega (arith, at_level))) in
        rw other at (word-grown g j new.page h) ∙ new.zero j h

    word-null : (j : ℕ) → j < 512 → word frames offset grown 0 j ≡ 0
    word-null j h =
        let other : (f == 0 && i == j) ≡ false =
          ground (arith, tree.pos f (omega (arith, at_level))) in
        word-kept 0 j (inl refl) h other ∙ tree.zero j h

    pub next_self : next frames offset grown f i ≡ g
    unfolding new_word
    next_self =
        let below : g < 2 ^ 52 = omega (arith, new.page, laws.physical) in
        next-link frames offset grown f i (rw word_self (is_valid-linked g new.page.0 below))
        ∙ rw word_self (get_address-linked g new.page.0 below)

    -- An entry of a table of level 2 or more leads where it did, unless it is the one written.
    next-kept :
        (h j : ℕ)
        → (h ≡ 0) ⊎ (0 < level h)
        → j < 512
        → (f == h && i == j) ≡ false
        → next frames offset grown h j ≡ next frames offset s h j
    unfolding next
    next-kept h j there h_lt other = rw (word-kept h j there h_lt other)

    grown-lookup :
        (k h v : ℕ)
        → level h ≡ suc k
        → lookup frames offset grown k h v ≡ lookup frames offset s k h v
    unfolding leaf
    grown-lookup zero h v here =
        let other : (f == h && i == idx 0 v) ≡ false = elim (Bool-cases (f == h)) [
          | inl e ↦ absurd (omega (arith, ap level ((==_iff f h).0 e), here, at_level))
          | inr e ↦ rw e
        ] in
        word-kept h (idx 0 v) (inr (omega (arith, here))) (idx-lt 0 v) other
    grown-lookup (suc k) h v here =
        let j = idx (suc k) v in
        let down =
          Next-cases frames offset laws s level prefix tree k h j here (idx-lt (suc k) v) in
        let below = grown-lookup k (next frames offset s h j) v in
        let null = lookup-blank frames offset grown k 0 v word-null word-null in
        let was_null = lookup-blank frames offset s k 0 v tree.zero tree.zero in
        elim (Bool-cases (f == h && i == j)) [
          | inl e ↦
              let both = and_true _ _ e in
              let same_table : f ≡ h = (==_iff f h).0 both.0 in
              let same_entry : i ≡ j = (==_iff i j).0 both.1 in
              let blank = lookup-blank frames offset grown k g v word-null word-blank in
              let led : next frames offset grown h j ≡ g =
                subst (λ (x : ℕ). next frames offset grown x j ≡ g) same_table
                  (subst (λ (x : ℕ). next frames offset grown f x ≡ g) same_entry next_self) in
              let was : next frames offset s h j ≡ 0 =
                subst (λ (x : ℕ). next frames offset s x j ≡ 0) same_table
                  (subst (λ (x : ℕ). next frames offset s f x ≡ 0) same_entry
                    (next-empty frames offset s f i none_yet)) in
              rw (led, was) (blank ∙ sym was_null)
          | inr e ↦
              let kept = next-kept h j (inr (omega (arith, here))) (idx-lt (suc k) v) e in
              rw kept (elim down [
                | Next.none_left empty led ↦ rw led (null ∙ sym was_null)
                | Next.table at_next named valid small ↦ below at_next
              ])
        ]

    level-kept : (h : ℕ) → 0 < level h → level' h ≡ level h
    level-kept h p = let e : (g == h) ≡ false = ground (arith, not_new h p) in rw e

    prefix-kept : (h : ℕ) → 0 < level h → prefix' h ≡ prefix h
    prefix-kept h p = let e : (g == h) ≡ false = ground (arith, not_new h p) in rw e

    child-self : Child frames offset laws grown level' prefix' l f i
    unfolding new_word
    child-self =
        let below : g < 2 ^ 52 = omega (arith, new.page, laws.physical) in
        let address : get_address new_word ≡ g = get_address-linked g new.page.0 below in
        let itself : (g == g) ≡ true = (==_iff g g).1 refl in
        let apart : (g == f) ≡ false = ground (arith, not_new f (omega (arith, at_level))) in
        Child.link (rw word_self (is_valid-linked g new.page.0 below))
          (rw word_self (is_large-linked g new.page.0 below)) (rw (word_self, address, itself))
          (rw (word_self, address, itself, apart))

    grown-child :
        (k h j : ℕ)
        → level' h ≡ suc (suc k)
        → j < 512
        → Child frames offset laws grown level' prefix' k h j
    grown-child k h j here h_lt = elim (Bool-cases (g == h)) [
      | inl e ↦
          let same : g ≡ h = (==_iff g h).0 e in
          Child.empty (subst (λ (x : ℕ). word frames offset grown x j ≡ 0) same (word-blank j h_lt))
      | inr e ↦
          let was : level h ≡ suc (suc k) = rw e at here in
          let some_level : 0 < level h = omega (arith, was) in
          elim (Bool-cases (f == h && i == j)) [
            | inl e' ↦
                let both = and_true _ _ e' in
                let same_table : f ≡ h = (==_iff f h).0 both.0 in
                let same_entry : i ≡ j = (==_iff i j).0 both.1 in
                let same_level : l ≡ k = omega (arith, ap level same_table, was, at_level) in
                rw (← same_table, ← same_entry, ← same_level) child-self
            | inr e' ↦
                let kept = word-kept h j (inr some_level) h_lt e' in
                elim (tree.child k h j was h_lt) [
                  | Child.empty blank ↦ Child.empty (kept ∙ blank)
                  | Child.link valid small down named ↦
                      let there : 0 < level (get_address (word frames offset s h j)) =
                        omega (arith, down) in
                      Child.link (rw kept valid) (rw kept small)
                        (rw kept (level-kept _ there ∙ down))
                        (rw kept (prefix-kept _ there ∙ named ∙ rw (prefix-kept h some_level)))
                ]
          ]
    ]

    grown-IsTree : IsTree frames offset laws grown level' prefix'
    grown-IsTree = record {
      ready =
          subst laws.Ready (sym grown-write)
            (laws.write-Ready t f i new_word (tree.page f (omega (arith, at_level))) ready);
      page = λ h p. elim (Bool-cases (g == h)) [
        | inl e ↦ subst (IsPage laws.limit) ((==_iff g h).0 e) new.page
        | inr e ↦ tree.page h (rw e at p)
      ];
      pos = λ h p. elim (Bool-cases (g == h)) [
        | inl e ↦ omega (arith, (==_iff g h).0 e, new.pos)
        | inr e ↦ tree.pos h (rw e at p)
      ];
      used = λ h p.
          subst (λ (u : State). laws.Used u h) (sym grown-write)
            (laws.write-Used t f i new_word h (elim (Bool-cases (g == h)) [
              | inl e ↦ subst (laws.Used t) ((==_iff g h).0 e) new.used
              | inr e ↦ new.kept h (tree.used h (rw e at p))
            ]));
      zero = word-null;
      child = grown-child;
    }

    grown-next_kept :
        (k h j : ℕ)
        → level h ≡ suc (suc k)
        → j < 512
        → next frames offset s h j ≢ 0
        → next frames offset grown h j ≡ next frames offset s h j
    grown-next_kept k h j here h_lt some_next = elim (Bool-cases (f == h && i == j)) [
      | inl e ↦
          let both = and_true _ _ e in
          let none : next frames offset s h j ≡ 0 =
            subst (λ (x : ℕ). next frames offset s x j ≡ 0) ((==_iff f h).0 both.0)
              (subst (λ (x : ℕ). next frames offset s f x ≡ 0) ((==_iff i j).0 both.1)
                (next-empty frames offset s f i none_yet)) in
          absurd (some_next none)
      | inr e ↦ next-kept h j (inr (omega (arith, here))) h_lt e
    ]

    -- The new table leaves every address the entry that it had.
    pub grown-Extends : Extends s level prefix grown level' prefix'
    grown-Extends = record {
      tree = grown-IsTree;
      level_kept = level-kept;
      prefix_kept = prefix-kept;
      next_kept = grown-next_kept;
      lookup_kept = grown-lookup;
      used_kept = λ h used.
          subst (λ (u : State). laws.Used u h) (sym grown-write)
            (laws.write-Used t f i new_word h (new.kept h used));
    }
