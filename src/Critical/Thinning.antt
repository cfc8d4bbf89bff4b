-- ===== src/Critical/Thinning.antt =====
-- Threads that also take the lock for a single line: what they write, threads can write that write
-- this line without the lock.
use posix_intro.Common.{ℕ, ◌≡◌, refl, sym, false, inl, inr, ◌⊎◌, List, [], ◌∷◌}
use posix_intro.Critical.{Statement, writes, counts, locks, unlocks, inside, IsGuarded}

module _ {Line : Type 0} where
  -- The statements `q` are `p`, but for locks around single lines; a thread may be at such a line, or
  -- behind it.
  pub data Thins : (p q : List (Statement Line)) → Type 0 where
    ended : Thins [] []
    keeps :
        {x : Statement Line} {p q p' q' : List (Statement Line)}
        → p ≡ x ∷ p'
        → q ≡ x ∷ q'
        → Thins p' q'
        → Thins p q
    opens :
        {l : Line} {p q p' q' : List (Statement Line)}
        → p ≡ locks ∷ writes l ∷ unlocks ∷ p'
        → q ≡ writes l ∷ q'
        → Thins p' q'
        → Thins p q
    within :
        {l : Line} {p q p' q' : List (Statement Line)}
        → p ≡ writes l ∷ unlocks ∷ p'
        → q ≡ writes l ∷ q'
        → Thins p' q'
        → Thins p q
    closes : {p q p' : List (Statement Line)} → p ≡ unlocks ∷ p' → Thins p' q → Thins p q

  -- Where a thread is outside, so is its image.
  pub outside-Thins :
      {p q : List (Statement Line)} → Thins p q → IsGuarded false p → inside q ≡ false
  outside-Thins ended g = refl
  outside-Thins (keeps {x = writes l} e h d) g = rw h (outside-Thins d (rw e at g))
  outside-Thins (keeps {x = counts f} e h d) g = let none : ⊥ = rw e at g in absurd none
  outside-Thins (keeps {x = locks} e h d) g = rw h refl
  outside-Thins (keeps {x = unlocks} e h d) g = let none : ⊥ = rw e at g in absurd none
  outside-Thins (opens e h d) g = rw h (outside-Thins d (rw e at g))
  outside-Thins (within e h d) g = let none : ⊥ = rw e at g in absurd none
  outside-Thins (closes e d) g = let none : ⊥ = rw e at g in absurd none

  two_heads :
      {p r p' : List (Statement Line)} {x y : Statement Line}
      → p ≡ x ∷ r
      → p ≡ y ∷ p'
      → (x ≡ y) × (r ≡ p')
  two_heads e h = (cc, cc)

  -- The image's part of a statement: none, or the same statement.
  abbrev pub Follows : Statement Line → (p' q : List (Statement Line)) → Type 0
  Follows y p' q = (q' : List (Statement Line)) × (q ≡ y ∷ q') × Thins p' q'

  follows :
      {x y : Statement Line} {p r p' q q' : List (Statement Line)}
      → p ≡ x ∷ r
      → p ≡ y ∷ p'
      → q ≡ x ∷ q'
      → Thins r q'
      → Follows y p' q
  follows {q'} e h k d = let (first, rest) = two_heads e h in (q', rw (← first) k, rw (← rest) d)

  pub after_locks :
      {p q p' : List (Statement Line)}
      → Thins p q
      → p ≡ locks ∷ p'
      → Thins p' q ⊎ Follows locks p' q
  after_locks ended e = absurd cc
  after_locks (keeps e' h d) e = inr (follows e' e h d)
  after_locks (opens e' h d) e = inl (within (sym (two_heads e' e).1) h d)
  after_locks (within e' h d) e = absurd cc
  after_locks (closes e' d) e = absurd cc

  pub after_unlocks :
      {p q p' : List (Statement Line)}
      → Thins p q
      → p ≡ unlocks ∷ p'
      → Thins p' q ⊎ Follows unlocks p' q
  after_unlocks ended e = absurd cc
  after_unlocks (keeps e' h d) e = inr (follows e' e h d)
  after_unlocks (opens e' h d) e = absurd cc
  after_unlocks (within e' h d) e = absurd cc
  after_unlocks (closes e' d) e = inl (rw (← (two_heads e' e).1) d)

  pub after_writes :
      {l : Line} {p q p' : List (Statement Line)}
      → Thins p q
      → p ≡ writes l ∷ p'
      → Follows (writes l) p' q
  after_writes ended e = absurd cc
  after_writes (keeps e' h d) e = follows e' e h d
  after_writes (opens e' h d) e = absurd cc
  after_writes (within {q' = q'} e' h d) e =
      let (first, rest) = two_heads e' e in (q', rw (← first) h, closes (sym rest) d)
  after_writes (closes e' d) e = absurd cc

  pub after_counts :
      {f : ℕ → Line} {p q p' : List (Statement Line)}
      → Thins p q
      → p ≡ counts f ∷ p'
      → Follows (counts f) p' q
  after_counts ended e = absurd cc
  after_counts (keeps e' h d) e = follows e' e h d
  after_counts (opens e' h d) e = absurd cc
  after_counts (within e' h d) e = absurd cc
  after_counts (closes e' d) e = absurd cc
