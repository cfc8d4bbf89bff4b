-- ===== src/SharedMemory/Transfer.antt =====
-- What the reader prints, against what the writer hands over and what is typed.
use posix_intro.Common.{
  ℕ, zero, suc, ◌+◌, ◌-◌, ◌≤◌, ◌≡◌, refl, sym, ap, ◌∙◌, Bool, true, false, List, [], ◌∷◌, ◌++◌,
  arith, ◌==◌, if◌then◌else◌, append-nil, append_assoc, Bool-cases, inl, inr, length, length-append,
}
use posix_intro.Semaphore.{SemaphoreApi}
use posix_intro.SharedMemory.{
  NamesFree, end_char, Writer, checks, posts, Event, typed, sent, printed, SemOpen, put, System,
  Step, meets, passes_on, takes, types, faults, checks_running, hands_over, tests_end, opens,
  receives, prints, allows, compares, handles, breaks_meeting, breaks_wait, Runs, start, later,
}
use posix_intro.SharedMemory.Invariant.{Inv, Runs-Inv, sent_count, printed_count}

-- The characters typed, handed over and printed in a run.
abbrev pub typed_text : List Event → List ℕ
typed_text [] = []
typed_text (typed c ∷ es) = c ∷ typed_text es
typed_text (_ ∷ es) = typed_text es

abbrev pub sent_text : List Event → List ℕ
sent_text [] = []
sent_text (sent c ∷ es) = c ∷ sent_text es
sent_text (_ ∷ es) = sent_text es

abbrev pub printed_text : List Event → List ℕ
printed_text [] = []
printed_text (printed c ∷ es) = c ∷ printed_text es
printed_text (_ ∷ es) = printed_text es

pub typed_text-append :
    (es fs : List Event) → typed_text (es ++ fs) ≡ typed_text es ++ typed_text fs
typed_text-append [] fs = refl
typed_text-append (typed c ∷ es) fs = rw (typed_text-append es fs)
typed_text-append (_ ∷ es) fs = typed_text-append es fs

pub sent_text-append : (es fs : List Event) → sent_text (es ++ fs) ≡ sent_text es ++ sent_text fs
sent_text-append [] fs = refl
sent_text-append (sent c ∷ es) fs = rw (sent_text-append es fs)
sent_text-append (_ ∷ es) fs = sent_text-append es fs

pub printed_text-append :
    (es fs : List Event) → printed_text (es ++ fs) ≡ printed_text es ++ printed_text fs
printed_text-append [] fs = refl
printed_text-append (printed c ∷ es) fs = rw (printed_text-append es fs)
printed_text-append (_ ∷ es) fs = printed_text-append es fs

-- The first `n` characters of the mapping.
unfoldable pub cells : (ℕ → ℕ) → ℕ → List ℕ
cells memory zero = []
cells memory (suc n) = cells memory n ++ memory n ∷ []

pub cells-next : (memory : ℕ → ℕ) (n : ℕ) → cells memory n ++ memory n ∷ [] ≡ cells memory (n + 1)
unfolding cells
cells-next memory n = let e : n + 1 ≡ suc n = omega arith in rw e refl

cells-put : (memory : ℕ → ℕ) (i v n : ℕ) → n ≤ i → cells (put memory i v) n ≡ cells memory n
unfolding cells
cells-put memory i v zero h = refl
cells-put memory i v (suc n) h =
    let other : (n == i) ≡ false = ground arith in
    rw (other, cells-put memory i v n (omega arith)) refl

-- What the test of `running` does to the cells before it.
cells-if :
    (running : Bool) (memory : ℕ → ℕ) (i n : ℕ)
    → n ≤ i
    → cells (if running then memory else put memory i end_char) n ≡ cells memory n
cells-if true memory i n h = refl
cells-if false memory i n h = cells-put memory i end_char n h

pub length-cells : (memory : ℕ → ℕ) (n : ℕ) → length (cells memory n) ≡ n
unfolding cells
length-cells memory zero = refl
length-cells memory (suc n) =
    omega (arith, length-append (cells memory n) (memory n ∷ []), length-cells memory n)

-- More cells are the first ones and some more.
cells-add :
    (memory : ℕ → ℕ) (n k : ℕ)
    → (rest : List ℕ) × (cells memory (n + k) ≡ cells memory n ++ rest) × (length rest ≡ k)
unfolding cells
cells-add memory n zero =
    ([], (let e : n + 0 ≡ n = omega arith in rw e (sym (append-nil (cells memory n)))), refl)
cells-add memory n (suc k) =
    let (rest, same, size) = cells-add memory n k in
    let e : n + suc k ≡ suc (n + k) = omega arith in
    (
      rest ++ memory (n + k) ∷ [],
      rw (e, same) (append_assoc (cells memory n) rest (memory (n + k) ∷ [])),
      omega (arith, length-append rest (memory (n + k) ∷ []), size),
    )

cells_split :
    (memory : ℕ → ℕ) (n m : ℕ)
    → n ≤ m
    → (rest : List ℕ) × (cells memory m ≡ cells memory n ++ rest) × (length rest ≡ m - n)
cells_split memory n m h =
    let e : n + (m - n) ≡ m = omega arith in
    let (rest, same, size) = cells-add memory n (m - n) in
    (rest, sym (ap (cells memory) e) ∙ same, size)

-- How many characters are typed.
abbrev typed_count : Writer → ℕ
typed_count (checks i) = i + 1
typed_count (posts i) = i + 1
typed_count w = sent_count w

typed_cell : (memory : ℕ → ℕ) (i c : ℕ) → cells memory i ++ c ∷ [] ≡ cells (put memory i c) (i + 1)
typed_cell memory i c =
    let here : put memory i c i ≡ c = ground arith in
    ap (λ v. cells memory i ++ v ∷ []) (sym here)
    ∙ ap (λ ls. ls ++ put memory i c i ∷ []) (sym (cells-put memory i c i (omega arith)))
    ∙ cells-next (put memory i c) i

module _ (api : SemaphoreApi) (named : SemOpen api) where
  Step-sent :
      {e : Event} {s t : System api named}
      → Step api named s e t
      → cells s.memory (sent_count s.writer) ++ sent_text (e ∷ [])
        ≡ cells t.memory (sent_count t.writer)
  Step-sent {s = s} (meets at h) = rw at (append-nil _)
  Step-sent {s = s} (passes_on at) = rw at (append-nil _)
  Step-sent {s = s} (takes at h) = rw at (append-nil _)
  Step-sent {s = s} (faults at ge) = rw at (append-nil _)
  Step-sent {s = s} (types {i} c at lt) =
      rw at (append-nil _ ∙ sym (cells-put s.memory i c i (omega arith)))
  Step-sent {s = s} (checks_running {i} at) =
      rw at (append-nil _ ∙ sym (cells-if s.running s.memory i i (omega arith)))
  Step-sent {s = s} (hands_over {i} at) = rw at (cells-next s.memory i)
  Step-sent {s = s} (tests_end {i} at) = elim (Bool-cases (s.memory i == end_char)) [
    | inl e ↦ rw (at, e) (append-nil _)
    | inr e ↦ rw (at, e) (append-nil _)
  ]
  Step-sent (opens at) = append-nil _
  Step-sent (receives at h) = append-nil _
  Step-sent (prints at) = append-nil _
  Step-sent (allows at) = append-nil _
  Step-sent (compares at) = append-nil _
  Step-sent handles = append-nil _
  Step-sent (breaks_meeting at) = rw at (append-nil _)
  Step-sent (breaks_wait at) = rw at (append-nil _)

  printed-le-sent :
      {s : System api named} → Inv api named s → printed_count s.reader ≤ sent_count s.writer
  printed-le-sent inv = ground arith

  Step-printed :
      {e : Event} {s t : System api named}
      → Step api named s e t
      → Inv api named s
      → cells s.memory (printed_count s.reader) ++ printed_text (e ∷ [])
        ≡ cells t.memory (printed_count t.reader)
  Step-printed {s = s} (types {i} c at lt) inv =
      let below : printed_count s.reader ≤ i = rw at at (printed-le-sent inv) in
      append-nil _ ∙ sym (cells-put s.memory i c (printed_count s.reader) below)
  Step-printed {s = s} (checks_running {i} at) inv =
      let below : printed_count s.reader ≤ i = rw at at (printed-le-sent inv) in
      append-nil _ ∙ sym (cells-if s.running s.memory i (printed_count s.reader) below)
  Step-printed {s = s} (compares {i} at) inv = elim (Bool-cases (s.memory i == end_char)) [
    | inl e ↦ rw (at, e) (append-nil _)
    | inr e ↦ rw (at, e) (append-nil _)
  ]
  Step-printed {s = s} (prints {i} at) inv = rw at (cells-next s.memory i)
  Step-printed {s = s} (opens at) inv = rw at (append-nil _)
  Step-printed {s = s} (receives at h) inv = rw at (append-nil _)
  Step-printed {s = s} (allows at) inv = rw at (append-nil _)
  Step-printed (meets at h) inv = append-nil _
  Step-printed (passes_on at) inv = append-nil _
  Step-printed (takes at h) inv = append-nil _
  Step-printed (faults at ge) inv = append-nil _
  Step-printed (hands_over at) inv = append-nil _
  Step-printed (tests_end at) inv = append-nil _
  Step-printed handles inv = append-nil _
  Step-printed (breaks_meeting at) inv = append-nil _
  Step-printed (breaks_wait at) inv = append-nil _

  -- `running` never becomes true again.
  Step-running :
      {e : Event} {s t : System api named}
      → Step api named s e t
      → t.running ≡ true
      → s.running ≡ true
  Step-running handles h = absurd (cc)
  Step-running (breaks_meeting at) h = absurd (cc)
  Step-running (breaks_wait at) h = absurd (cc)
  Step-running (meets at w) h = h
  Step-running (passes_on at) h = h
  Step-running (takes at w) h = h
  Step-running (types c at lt) h = h
  Step-running (faults at ge) h = h
  Step-running (checks_running at) h = h
  Step-running (hands_over at) h = h
  Step-running (tests_end at) h = h
  Step-running (opens at) h = h
  Step-running (receives at w) h = h
  Step-running (prints at) h = h
  Step-running (allows at) h = h
  Step-running (compares at) h = h

  Step-typed :
      {e : Event} {s t : System api named}
      → Step api named s e t
      → t.running ≡ true
      → cells s.memory (typed_count s.writer) ++ typed_text (e ∷ [])
        ≡ cells t.memory (typed_count t.writer)
  Step-typed {s = s} (meets at h) on = rw at (append-nil _)
  Step-typed {s = s} (passes_on at) on = rw at (append-nil _)
  Step-typed {s = s} (takes at h) on = rw at (append-nil _)
  Step-typed {s = s} (types {i} c at lt) on = rw at (typed_cell s.memory i c)
  Step-typed {s = s} (faults at ge) on = rw at (append-nil _)
  Step-typed {s = s} (checks_running at) on = rw (at, on) (append-nil _)
  Step-typed {s = s} (hands_over at) on = rw at (append-nil _)
  Step-typed {s = s} (tests_end {i} at) on = elim (Bool-cases (s.memory i == end_char)) [
    | inl e ↦ rw (at, e) (append-nil _)
    | inr e ↦ rw (at, e) (append-nil _)
  ]
  Step-typed (opens at) on = append-nil _
  Step-typed (receives at h) on = append-nil _
  Step-typed (prints at) on = append-nil _
  Step-typed (allows at) on = append-nil _
  Step-typed (compares at) on = append-nil _
  Step-typed handles on = absurd (cc)
  Step-typed (breaks_meeting at) on = absurd (cc)
  Step-typed (breaks_wait at) on = absurd (cc)

  pub Runs-sent :
      {es : List Event} {s : System api named}
      → Runs api named es s
      → sent_text es ≡ cells s.memory (sent_count s.writer)
  unfolding cells
  Runs-sent (start memory le e) = refl
  Runs-sent (later {es} {e} r st) = rw (sent_text-append es (e ∷ []), Runs-sent r) (Step-sent st)

  pub Runs-printed :
      {es : List Event} {s : System api named}
      → NamesFree api named
      → Runs api named es s
      → printed_text es ≡ cells s.memory (printed_count s.reader)
  unfolding cells
  Runs-printed free (start memory le e) = refl
  Runs-printed free (later {es} {e} r st) =
      rw (printed_text-append es (e ∷ []), Runs-printed free r)
        (Step-printed st (Runs-Inv api named free r))

  Runs-typed :
      {es : List Event} {s : System api named}
      → Runs api named es s
      → s.running ≡ true
      → typed_text es ≡ cells s.memory (typed_count s.writer)
  unfolding cells
  Runs-typed (start memory le e) on = refl
  Runs-typed (later {es} {e} r st) on =
      rw (typed_text-append es (e ∷ []), Runs-typed r (Step-running st on)) (Step-typed st on)

  typed-le :
      (s : System api named)
      → Inv api named s
      → s.running ≡ true
      → (printed_count s.reader ≤ typed_count s.writer)
        × (typed_count s.writer ≤ printed_count s.reader + 1)
  typed-le s inv on = ground arith

  -- Where no semaphore has either name before the writer starts, and without a SIGINT: the reader
  -- prints what is typed and stored, in order, and is at most one character behind.
  pub Runs-faithful :
      {es : List Event} {s : System api named}
      → NamesFree api named
      → Runs api named es s
      → s.running ≡ true
      → (rest : List ℕ) × (typed_text es ≡ printed_text es ++ rest) × (length rest ≤ 1)
  Runs-faithful {es} {s} free r on =
      let (low, high) = typed-le s (Runs-Inv api named free r) on in
      let (rest, same, size) =
        cells_split s.memory (printed_count s.reader) (typed_count s.writer) low in
      (rest, rw (Runs-typed r on, Runs-printed free r) same, omega (arith, size, high))
