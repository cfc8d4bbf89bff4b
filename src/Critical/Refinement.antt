-- ===== src/Critical/Refinement.antt =====
-- Runs of threads that take the lock for single lines too, against runs of threads that do not.
use posix_intro.Common.{
  ℕ, ◌+◌, ◌==◌, ◌<◌, ◌≡◌, refl, ap, ◌∙◌, sym, false, Bool-cases, inl, inr, ◌⊎◌, List, [], ◌∷◌, ◌++◌,
  arith, append-nil,
}
use posix_intro.Common.Threads.{move, move_related, tally_of_light, weight-le-tally}
use posix_intro.Locks.{Lock}
use posix_intro.Critical.{
  Statement, Event, inside, System, Step, enters, leaves, says, numbers, Runs, start, later,
}
use posix_intro.Critical.Exclusion.{holder, Inv, CanStart, Runs-Inv}
use posix_intro.Critical.Thinning.{
  Thins, outside-Thins, after_locks, after_unlocks, after_writes, after_counts,
}
use posix_intro.Critical.Ending.{lines, lines-append}

module _ (a b : Lock) {Line : Type 0} where
  -- The threads stand at the same places, but for the locks around single lines.
  pub record IsThinned (t : System a Line) (s : System b Line) : Type 0 where
    pub same_counter : s.counter ≡ t.counter
    pub thins : (i : ℕ) → Thins (t.rest i) (s.rest i)

  -- One thread moves, or one does and its image.
  one_thinned :
      (r r' : ℕ → List (Statement Line)) (i : ℕ) {p : List (Statement Line)}
      → ((j : ℕ) → Thins (r j) (r' j))
      → Thins p (r' i)
      → (j : ℕ) → Thins (move r i p j) (r' j)
  one_thinned r r' i h d j = elim (Bool-cases (j == i)) [
    | inl e ↦ let same : j ≡ i = ground arith in rw (e, same) d
    | inr e ↦ rw e (h j)
  ]

  -- The lock of the image is free where the lock is.
  stays_free :
      {n : ℕ} {t : System a Line} {s : System b Line}
      → Inv a n t
      → Inv b n s
      → IsThinned t s
      → 0 < a.units t.state
      → 0 < b.units s.state
  stays_free {n} {t} {s} inv inv' m free =
      omega (arith, inv'.token, tally_of_light holder n s.rest (λ i lt. light i lt))
    where
      light : (i : ℕ) → i < n → holder (s.rest i) ≡ 0
      light i lt =
          let out : inside (t.rest i) ≡ false =
            ground (arith, inv.token, weight-le-tally holder n t.rest i lt) in
          rw (outside-Thins (m.thins i) (rw out at (inv.guarded i))) refl

  -- A step of the threads is one of their images that writes the same, or none, and nothing is
  -- written.
  abbrev Answers : ℕ → System b Line → Event Line → System a Line → Type 0
  Answers n s e t' =
      (IsThinned t' s × (lines (e ∷ []) ≡ []))
      ⊎ ((d : Event Line) × (s' : System b Line) × Step b Line n s d s'
          × IsThinned t' s'
          × (lines (e ∷ []) ≡ lines (d ∷ [])))

  Step-Answers :
      {n : ℕ} {t : System a Line} {e : Event Line} {t' : System a Line} (s : System b Line)
      → Step a Line n t e t'
      → Inv a n t
      → Inv b n s
      → IsThinned t s
      → Answers n s e t'
  Step-Answers {t} s (enters i {p} lt at w) inv inv' m = elim (after_locks (m.thins i) at) [
    | inl d ↦ inl (
      record { same_counter = m.same_counter; thins = one_thinned t.rest s.rest i m.thins d },
      refl,
    )
    | inr follow ↦
        let (q, here, d) = follow in
        let (u, w') =
          b.Takes-of_pos s.state (stays_free inv inv' m (omega (arith, a.Takes-units w))) in
        inr (
          _,
          _,
          enters i {p = q} {t = u} lt here w',
          record {
            same_counter = m.same_counter;
            thins = move_related Thins t.rest s.rest i m.thins d;
          },
          refl,
        )
  ]
  Step-Answers {t} s (leaves i {p} lt at) inv inv' m = elim (after_unlocks (m.thins i) at) [
    | inl d ↦ inl (
      record { same_counter = m.same_counter; thins = one_thinned t.rest s.rest i m.thins d },
      refl,
    )
    | inr follow ↦
        let (q, here, d) = follow in
        inr (
          _,
          _,
          leaves i {p = q} lt here,
          record {
            same_counter = m.same_counter;
            thins = move_related Thins t.rest s.rest i m.thins d;
          },
          refl,
        )
  ]
  Step-Answers {t} s (says i {p} {l} lt at) inv inv' m =
      let (q, here, d) = after_writes (m.thins i) at in
      inr (
        _,
        _,
        says i {p = q} {l = l} lt here,
        record {
          same_counter = m.same_counter;
          thins = move_related Thins t.rest s.rest i m.thins d;
        },
        refl,
      )
  Step-Answers {t} s (numbers i {p} {f} lt at) inv inv' m =
      let (q, here, d) = after_counts (m.thins i) at in
      inr (
        _,
        _,
        numbers i {p = q} {f = f} lt here,
        record {
          same_counter = ap (λ c. c + 1) m.same_counter;
          thins = move_related Thins t.rest s.rest i m.thins d;
        },
        ap (λ c. f c ∷ []) (sym m.same_counter),
      )

  -- Whatever the threads write, in whatever order, their images can write in this order.
  pub Runs-lines :
      {n : ℕ} {t : System a Line} {es : List (Event Line)} {t' : System a Line} (s : System b Line)
      → CanStart a t
      → CanStart b s
      → IsThinned t s
      → Runs a Line n t es t'
      → (ds : List (Event Line)) × (s' : System b Line) × Runs b Line n s ds s'
        × (lines es ≡ lines ds)
        × IsThinned t' s'
  Runs-lines s c c' m start = ([], s, start, refl, m)
  Runs-lines s c c' m (later {es} {e} r st) =
      let (ds, u, r', same, m') = Runs-lines s c c' m r in
      elim (Step-Answers u st (Runs-Inv a c r) (Runs-Inv b c' r') m') [
        | inl (m'', nothing) ↦
            (ds, u, r', rw (lines-append es (e ∷ []), nothing) (append-nil _ ∙ same), m'')
        | inr (d, u', st', m'', line) ↦ (
          ds ++ d ∷ [],
          u',
          later r' st',
          rw (lines-append es (e ∷ []), lines-append ds (d ∷ []), same, line) refl,
          m'',
        )
      ]
