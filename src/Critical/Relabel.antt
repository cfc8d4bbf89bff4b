-- ===== src/Critical/Relabel.antt =====
-- Threads that write other lines at the same places: their runs are the same but for the lines.
use mathlib.Core.List.{map-append}
use posix_intro.Common.{ℕ, ◌+◌, ◌≡◌, refl, ap, ◌∙◌, sym, List, [], ◌∷◌, ◌++◌, map}
use posix_intro.Common.Threads.{move, move_related}
use posix_intro.Locks.{Lock}
use posix_intro.Critical.{
  Statement, writes, counts, locks, unlocks, Event, entered, left, wrote, inside, System, Step,
  enters, leaves, says, numbers, Runs, start, later,
}

module _ {L K : Type 0} (f : L → K) where
  abbrev pub relabelled : Statement L → Statement K
  relabelled (writes l) = writes (f l)
  relabelled (counts g) = counts (λ c. f (g c))
  relabelled locks = locks
  relabelled unlocks = unlocks

  abbrev pub event : Event L → Event K
  event (entered i) = entered i
  event (left i) = left i
  event (wrote held i l) = wrote held i (f l)

  inside-map : (p : List (Statement L)) → inside (map relabelled p) ≡ inside p
  inside-map [] = refl
  inside-map (writes l ∷ p) = inside-map p
  inside-map (counts g ∷ p) = inside-map p
  inside-map (locks ∷ p) = refl
  inside-map (unlocks ∷ p) = refl

  -- The first statement behind the change of lines is the change of a first statement.
  map_inverse :
      (q : List (Statement L)) {x : Statement K} {p : List (Statement K)}
      → map relabelled q ≡ x ∷ p
      → (y : Statement L) × (q' : List (Statement L)) × (q ≡ y ∷ q')
        × (relabelled y ≡ x)
        × (map relabelled q' ≡ p)
  map_inverse [] e = absurd cc
  map_inverse (y ∷ q') e = (y, q', refl, cc, cc)

  of_locks : (y : Statement L) → relabelled y ≡ locks → y ≡ locks
  of_locks (writes l) e = absurd cc
  of_locks (counts g) e = absurd cc
  of_locks locks e = refl
  of_locks unlocks e = absurd cc

  of_unlocks : (y : Statement L) → relabelled y ≡ unlocks → y ≡ unlocks
  of_unlocks (writes l) e = absurd cc
  of_unlocks (counts g) e = absurd cc
  of_unlocks locks e = absurd cc
  of_unlocks unlocks e = refl

  of_writes :
      (y : Statement L) {k : K} → relabelled y ≡ writes k → (l : L) × (y ≡ writes l) × (k ≡ f l)
  of_writes (writes l) e = (l, refl, cc)
  of_writes (counts g) e = absurd cc
  of_writes locks e = absurd cc
  of_writes unlocks e = absurd cc

  of_counts :
      (y : Statement L) {h : ℕ → K}
      → relabelled y ≡ counts h
      → (g : ℕ → L) × (y ≡ counts g) × (h ≡ (λ c. f (g c)))
  of_counts (writes l) e = absurd cc
  of_counts (counts g) e = (g, refl, cc)
  of_counts locks e = absurd cc
  of_counts unlocks e = absurd cc

  module _ (lock : Lock) where
    -- The same threads at the same places, with the other lines.
    pub record IsImage (s : System lock L) (t : System lock K) : Type 0 where
      pub same_state : t.state ≡ s.state
      pub same_counter : t.counter ≡ s.counter
      pub same_rest : (i : ℕ) → t.rest i ≡ map relabelled (s.rest i)

    -- A thread moves on, and its image does.
    moved :
        (r : ℕ → List (Statement L)) (r' : ℕ → List (Statement K)) (i : ℕ) (p : List (Statement L))
        (q : List (Statement K))
        → ((j : ℕ) → r' j ≡ map relabelled (r j))
        → q ≡ map relabelled p
        → (j : ℕ) → move r' i q j ≡ map relabelled (move r i p j)
    moved r r' i p q h e = move_related (λ x y. y ≡ map relabelled x) r r' i {a = p} {b = q} h e

    Step-IsImage :
        {n : ℕ} {s : System lock L} {e : Event L} {s' : System lock L} (t : System lock K)
        → Step lock L n s e s'
        → IsImage s t
        → (t' : System lock K) × Step lock K n t (event e) t' × IsImage s' t'
    Step-IsImage {s = s} t (enters i {p} {t = u} lt at w) m = (
      _,
      enters i {p = map relabelled p} {t = u} lt (m.same_rest i ∙ ap (map relabelled) at)
          (rw m.same_state w),
      record {
        same_state = refl;
        same_counter = m.same_counter;
        same_rest = moved s.rest t.rest i p (map relabelled p) m.same_rest refl;
      },
    )
    Step-IsImage {s = s} t (leaves i {p} lt at) m = (
      _,
      leaves i {p = map relabelled p} lt (m.same_rest i ∙ ap (map relabelled) at),
      record {
        same_state = ap lock.gives m.same_state;
        same_counter = m.same_counter;
        same_rest = moved s.rest t.rest i p (map relabelled p) m.same_rest refl;
      },
    )
    Step-IsImage {s = s} t (says i {p} {l} lt at) m = (
      _,
      rw (← inside-map p)
          (says i {p = map relabelled p} {l = f l} lt (m.same_rest i ∙ ap (map relabelled) at)),
      record {
        same_state = m.same_state;
        same_counter = m.same_counter;
        same_rest = moved s.rest t.rest i p (map relabelled p) m.same_rest refl;
      },
    )
    Step-IsImage {s = s} t (numbers i {p} {f = g} lt at) m = (
      _,
      rw (← inside-map p, ← m.same_counter)
          (numbers i {p = map relabelled p} {f = λ c. f (g c)} lt
            (m.same_rest i ∙ ap (map relabelled) at)),
      record {
        same_state = m.same_state;
        same_counter = ap (λ c. c + 1) m.same_counter;
        same_rest = moved s.rest t.rest i p (map relabelled p) m.same_rest refl;
      },
    )

    IsImage-Step :
        {n : ℕ} (s : System lock L) {t : System lock K} {e : Event K} {t' : System lock K}
        → Step lock K n t e t'
        → IsImage s t
        → (d : Event L) × (s' : System lock L) × (e ≡ event d)
          × Step lock L n s d s'
          × IsImage s' t'
    IsImage-Step s {t} (enters i {p} {t = u} lt at w) m =
        let (y, q, here, first, rest) = map_inverse (s.rest i) (sym (m.same_rest i) ∙ at) in
        (
          entered i,
          _,
          refl,
          enters i {p = q} {t = u} lt (here ∙ ap (λ z. z ∷ q) (of_locks y first))
              (rw (← m.same_state) w),
          record {
            same_state = refl;
            same_counter = m.same_counter;
            same_rest = moved s.rest t.rest i q p m.same_rest (sym rest);
          },
        )
    IsImage-Step s {t} (leaves i {p} lt at) m =
        let (y, q, here, first, rest) = map_inverse (s.rest i) (sym (m.same_rest i) ∙ at) in
        (
          left i,
          _,
          refl,
          leaves i {p = q} lt (here ∙ ap (λ z. z ∷ q) (of_unlocks y first)),
          record {
            same_state = ap lock.gives m.same_state;
            same_counter = m.same_counter;
            same_rest = moved s.rest t.rest i q p m.same_rest (sym rest);
          },
        )
    IsImage-Step s {t} (says i {p} {l} lt at) m =
        let (y, q, here, first, rest) = map_inverse (s.rest i) (sym (m.same_rest i) ∙ at) in
        let (l', same, line) = of_writes y first in
        (
          wrote (inside q) i l',
          _,
          rw (← rest, line, inside-map q) refl,
          says i {p = q} {l = l'} lt (here ∙ ap (λ z. z ∷ q) same),
          record {
            same_state = m.same_state;
            same_counter = m.same_counter;
            same_rest = moved s.rest t.rest i q p m.same_rest (sym rest);
          },
        )
    IsImage-Step s {t} (numbers i {p} {f = h} lt at) m =
        let (y, q, here, first, rest) = map_inverse (s.rest i) (sym (m.same_rest i) ∙ at) in
        let (g, same, line) = of_counts y first in
        (
          wrote (inside q) i (g s.counter),
          _,
          rw (← rest, line, inside-map q, m.same_counter) refl,
          numbers i {p = q} {f = g} lt (here ∙ ap (λ z. z ∷ q) same),
          record {
            same_state = m.same_state;
            same_counter = ap (λ c. c + 1) m.same_counter;
            same_rest = moved s.rest t.rest i q p m.same_rest (sym rest);
          },
        )

    -- Every run with the first lines is one with the others.
    pub Runs-IsImage :
        {n : ℕ} {s : System lock L} {es : List (Event L)} {s' : System lock L} (t : System lock K)
        → IsImage s t
        → Runs lock L n s es s'
        → (t' : System lock K) × Runs lock K n t (map event es) t' × IsImage s' t'
    Runs-IsImage t m start = (t, start, m)
    Runs-IsImage t m (later {es} {e} r st) =
        let (u, r', m') = Runs-IsImage t m r in
        let (u', st', m'') = Step-IsImage u st m' in
        (u', rw (map-append event es (e ∷ [])) (later r' st'), m'')

    -- And every run with the others comes from one with the first lines.
    pub IsImage-Runs :
        {n : ℕ} (s : System lock L) {t : System lock K} {es : List (Event K)} {t' : System lock K}
        → IsImage s t
        → Runs lock K n t es t'
        → (ds : List (Event L)) × (s' : System lock L) × (es ≡ map event ds)
          × Runs lock L n s ds s'
          × IsImage s' t'
    IsImage-Runs s m start = ([], s, refl, start, m)
    IsImage-Runs s m (later {es} {e} r st) =
        let (ds, u, same, r', m') = IsImage-Runs s m r in
        let (d, u', one, st', m'') = IsImage-Step u st m' in
        (ds ++ d ∷ [], u', rw (map-append event ds (d ∷ []), same, one) refl, later r' st', m'')
