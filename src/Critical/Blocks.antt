-- ===== src/Critical/Blocks.antt =====
-- With a lock that lets one thread in, the lines written under it are whole blocks: a thread's block
-- follows another thread's, in the order in which the threads took the lock.
use posix_intro.Common.{
  ℕ, ◌<◌, ◌≡◌, ◌≢◌, refl, sym, ◌∙◌, ap, inl, inr, true, false, List, [], ◌∷◌, ◌++◌, arith,
  append-nil, append_assoc, Bool-cases, ℕ_discrete,
}
use posix_intro.Common.Threads.{move, tally, tally-move, weight-le-tally}
use posix_intro.Locks.{Lock}
use posix_intro.Critical.{
  Statement, writes, counts, locks, unlocks, Event, entered, left, wrote, inside, IsGuarded, System,
  Step, enters, leaves, says, numbers, Runs, start, later,
}
use posix_intro.Critical.Exclusion.{
  holder, inside_of_IsGuarded, Inv, alone, CanStart, start-tally, Runs-Inv,
}

module _ {Line : Type 0} where
  -- The lines that a thread still writes before its next lock statement.
  abbrev pub locked : List (Statement Line) → List Line
  locked [] = []
  locked (writes l ∷ p) = l ∷ locked p
  locked (counts _ ∷ p) = []
  locked (locks ∷ p) = []
  locked (unlocks ∷ p) = []

  -- Under the lock, the thread writes these lines each time.
  abbrev pub HasBlock : List Line → List (Statement Line) → Type 0
  HasBlock b [] = Unit
  HasBlock b (writes _ ∷ p) = HasBlock b p
  HasBlock b (counts _ ∷ p) = ⊥
  HasBlock b (locks ∷ p) = (locked p ≡ b) × HasBlock b p
  HasBlock b (unlocks ∷ p) = HasBlock b p

  -- The lines that a run writes under the lock, and the threads that took it, in order.
  abbrev pub locked_lines : List (Event Line) → List Line
  locked_lines [] = []
  locked_lines (wrote true i l ∷ es) = l ∷ locked_lines es
  locked_lines (wrote false i l ∷ es) = locked_lines es
  locked_lines (entered i ∷ es) = locked_lines es
  locked_lines (left i ∷ es) = locked_lines es

  abbrev pub turns : List (Event Line) → List ℕ
  turns [] = []
  turns (entered i ∷ es) = i ∷ turns es
  turns (left i ∷ es) = turns es
  turns (wrote held i l ∷ es) = turns es

  -- The blocks of these threads.
  abbrev pub blocks : (ℕ → List Line) → List ℕ → List Line
  blocks block [] = []
  blocks block (i ∷ is) = block i ++ blocks block is

  locked_lines-append :
      (es fs : List (Event Line)) → locked_lines (es ++ fs) ≡ locked_lines es ++ locked_lines fs
  locked_lines-append [] fs = refl
  locked_lines-append (wrote true i l ∷ es) fs = rw (locked_lines-append es fs)
  locked_lines-append (wrote false i l ∷ es) fs = locked_lines-append es fs
  locked_lines-append (entered i ∷ es) fs = locked_lines-append es fs
  locked_lines-append (left i ∷ es) fs = locked_lines-append es fs

  turns-append : (es fs : List (Event Line)) → turns (es ++ fs) ≡ turns es ++ turns fs
  turns-append [] fs = refl
  turns-append (wrote held i l ∷ es) fs = turns-append es fs
  turns-append (entered i ∷ es) fs = rw (turns-append es fs)
  turns-append (left i ∷ es) fs = turns-append es fs

  blocks-append :
      (block : ℕ → List Line) (is js : List ℕ)
      → blocks block (is ++ js) ≡ blocks block is ++ blocks block js
  blocks-append block [] js = refl
  blocks-append block (i ∷ is) js =
      rw (blocks-append block is js)
        (sym (append_assoc (block i) (blocks block is) (blocks block js)))

  lines_same :
      (es : List (Event Line)) (e : Event Line)
      → locked_lines (e ∷ []) ≡ []
      → locked_lines (es ++ e ∷ []) ≡ locked_lines es
  lines_same es e h = rw (locked_lines-append es (e ∷ []), h) (append-nil (locked_lines es))

  blocks_same :
      (block : ℕ → List Line) (es : List (Event Line)) (e : Event Line)
      → turns (e ∷ []) ≡ []
      → blocks block (turns (es ++ e ∷ [])) ≡ blocks block (turns es)
  blocks_same block es e h =
      rw (turns-append es (e ∷ []), h) (ap (blocks block) (append-nil (turns es)))

move_here {ℓ} : {A : Type ℓ} (f : ℕ → A) (i : ℕ) (x : A) → move f i x i ≡ x
move_here f i x = ground arith

move_apart {ℓ} : {A : Type ℓ} (f : ℕ → A) (i : ℕ) (x : A) (j : ℕ) → j ≢ i → move f i x j ≡ f j
move_apart f i x j h = ground arith

module _ (lock : Lock) {Line : Type 0} (block : ℕ → List Line) where
  -- After these events, nobody has the lock and all blocks are whole, or the thread that has it
  -- still has to write the rest of the last one.
  pub data Covered (n : ℕ) (s : System lock Line) (es : List (Event Line)) : Type 0 where
    whole : tally holder n s.rest ≡ 0 → locked_lines es ≡ blocks block (turns es) → Covered n s es
    open_block :
        (i : ℕ)
        → i < n
        → inside (s.rest i) ≡ true
        → locked_lines es ++ locked (s.rest i) ≡ blocks block (turns es)
        → Covered n s es

  Step-Covered :
      {n : ℕ} {s : System lock Line} {es : List (Event Line)} {e : Event Line}
      {t : System lock Line}
      → Step lock Line n s e t
      → Inv lock n s
      → ((i : ℕ) → HasBlock (block i) (s.rest i))
      → Covered n s es
      → Covered n t (es ++ e ∷ [])
  Step-Covered {n} {s = s} {es} (enters i {p} lt at w) inv has (whole z same) =
      let here : IsGuarded true p = rw at at (inv.guarded i) in
      let mine : (locked p ≡ block i) × HasBlock (block i) p = rw at at (has i) in
      open_block i lt (rw (move_here s.rest i p) (inside_of_IsGuarded true p here)) (
        rw
          (
            lines_same es (entered i) refl,
            move_here s.rest i p,
            turns-append es (entered i ∷ []),
            blocks-append block (turns es) (i ∷ []),
            mine.0,
            same,
          )
          (ap (λ b. blocks block (turns es) ++ b) (sym (append-nil (block i)))))
  Step-Covered {n} {s = s} {es} (enters i {p} lt at w) inv has (open_block j below in_j same) =
      absurd
        (ground (arith, inv.token, lock.Takes-units w, weight-le-tally holder n s.rest j below))
  Step-Covered {n} {s = s} {es} (leaves i {p} lt at) inv has (whole z same) =
      absurd (ground (arith, weight-le-tally holder n s.rest i lt))
  Step-Covered {n} {s = s} {es} (leaves i {p} lt at) inv has (open_block j below in_j same) =
      let here : IsGuarded false p = rw at at (inv.guarded i) in
      let mine : i ≡ j = alone lock inv i j lt below (rw at refl) in_j in
      let nothing : locked (s.rest j) ≡ [] = rw (← mine, at) refl in
      whole
        (ground (
          arith,
          inv.token,
          weight-le-tally holder n s.rest i lt,
          tally-move holder n s.rest i p lt,
          inside_of_IsGuarded false p here,
        ))
        (rw (lines_same es (left i) refl, blocks_same block es (left i) refl)
          (sym (append-nil (locked_lines es)) ∙ rw (← nothing) same))
  Step-Covered {n} {s = s} {es} (says i {p} {l} lt at) inv has (whole z same) =
      let out : inside p ≡ false = ground (arith, weight-le-tally holder n s.rest i lt) in
      whole (ground (arith, tally-move holder n s.rest i p lt)) (
        rw (out, lines_same es (wrote false i l) refl, blocks_same block es (wrote false i l) refl)
          same)
  Step-Covered {n} {s = s} {es} (says i {p} {l} lt at) inv has (open_block j below in_j same) =
      elim (Bool-cases (inside p)) [
        | inl within ↦
            let mine : i ≡ j = alone lock inv i j lt below (rw at within) in_j in
            let next : locked (s.rest j) ≡ l ∷ locked p = rw (← mine, at) refl in
            open_block i lt (rw (move_here s.rest i p) within) (
              rw
                (
                  within,
                  move_here s.rest i p,
                  locked_lines-append es (wrote true i l ∷ []),
                  blocks_same block es (wrote true i l) refl,
                )
                (append_assoc (locked_lines es) (l ∷ []) (locked p) ∙ rw (← next) same))
        | inr out ↦
            let other : j ≢ i = λ e. absurd (ground arith) in
            open_block j below (rw (move_apart s.rest i p j other) in_j) (
              rw
                (
                  out,
                  move_apart s.rest i p j other,
                  lines_same es (wrote false i l) refl,
                  blocks_same block es (wrote false i l) refl,
                )
                same)
      ]
  Step-Covered {s = s} (numbers i lt at) inv has covered =
      let never : ⊥ = rw at at (has i) in absurd never

  HasBlock-move :
      (rest : ℕ → List (Statement Line)) (i : ℕ) (p : List (Statement Line))
      → ((j : ℕ) → HasBlock (block j) (rest j))
      → HasBlock (block i) p
      → (j : ℕ) → HasBlock (block j) (move rest i p j)
  HasBlock-move rest i p has here j = elim (ℕ_discrete j i) [
    | yes same ↦ rw (same, move_here rest i p) here
    | no other ↦ rw (move_apart rest i p j other) (has j)
  ]

  Step-HasBlock :
      {n : ℕ} {s : System lock Line} {e : Event Line} {t : System lock Line}
      → Step lock Line n s e t
      → ((i : ℕ) → HasBlock (block i) (s.rest i))
      → (i : ℕ) → HasBlock (block i) (t.rest i)
  Step-HasBlock {s = s} (enters i {p} lt at w) has =
      let mine : (locked p ≡ block i) × HasBlock (block i) p = rw at at (has i) in
      HasBlock-move s.rest i p has mine.1
  Step-HasBlock {s = s} (leaves i {p} lt at) has = HasBlock-move s.rest i p has (rw at at (has i))
  Step-HasBlock {s = s} (says i {p} lt at) has = HasBlock-move s.rest i p has (rw at at (has i))
  Step-HasBlock (numbers i lt at) has = let never : ⊥ = rw at at (has i) in absurd never

  -- In every run, from threads that each have their block, the locked lines are covered by blocks.
  pub Runs-Covered :
      {n : ℕ} {s : System lock Line} {es : List (Event Line)} {t : System lock Line}
      → CanStart lock s
      → ((i : ℕ) → HasBlock (block i) (s.rest i))
      → Runs lock Line n s es t
      → Covered n t es × ((i : ℕ) → HasBlock (block i) (t.rest i))
  Runs-Covered {n} {s = s} c has start = (whole (start-tally lock n s c) refl, has)
  Runs-Covered c has (later r st) =
      let (covered, has') = Runs-Covered c has r in
      (Step-Covered st (Runs-Inv lock c r) has' covered, Step-HasBlock st has')
