-- ===== src/Pipe/Ending.antt =====
-- How the processes of twowaypipe.c come to their ends.
use posix_intro.Common.{
  ℕ, ◌+◌, ◌≤◌, ◌≡◌, refl, ◌⊎◌, inl, inr, true, false, Bool-cases, All, arith, length, List, [], ◌∷◌,
  ap,
}
use posix_intro.Common.Channel.{Channel}
use posix_intro.Pipe.{
  Role, parent, child, other, Pc, prompting, writing, reading, last_writing, closing, half_closed,
  finished, killed, Process, holds_write, holds_read, Event, Program, Move, fills, gives_up, writes,
  reads, writes_last, closes, closes_other, reads_nothing, breaks, breaks_last, System, Step,
  parent_moves, child_moves, Runs,
}
use posix_intro.Pipe.Phases.{
  Stage, speaks, listens, ends, left, gone, stage, Phase, Phase-swap, Messages, OneZero, NoMessage,
}
use posix_intro.Pipe.Turns.{is_signal, NoSignal, HasWriter, PhaseOf, Runs-Phase}

List-cases {ℓ} :
    {A : Type ℓ} (xs : List A) → (xs ≡ []) ⊎ ((x : A) × (rest : List A) × (xs ≡ x ∷ rest))
List-cases [] = inl refl
List-cases (x ∷ xs) = inr (x, xs, refl)

-- A process that writes finds its pipe empty.
speaks_empty : (b : Stage) (pm qm : List ℕ) (i o : Messages) → Phase speaks b pm qm i o → o ≡ []
speaks_empty listens pm qm i o h = h.1
speaks_empty speaks pm qm i o h = absurd h
speaks_empty ends pm qm i o h = absurd h
speaks_empty left pm qm i o h = absurd h
speaks_empty gone pm qm i o h = absurd h

ends_empty : (b : Stage) (pm qm : List ℕ) (i o : Messages) → Phase ends b pm qm i o → o ≡ []
ends_empty listens pm qm i o h = h.1.1
ends_empty left pm qm i o h = h.1.1
ends_empty speaks pm qm i o h = absurd h
ends_empty ends pm qm i o h = absurd h
ends_empty gone pm qm i o h = absurd h

-- The two processes do not wait for each other.
not_both_wait :
    (pm qm : List ℕ) (i o : Messages) → Phase listens listens pm qm i o → i ≡ [] → o ≡ [] → ⊥
not_both_wait pm qm i o (inl h) none none' = cc
not_both_wait pm qm i o (inr h) none none' = cc

none_counts : (i o : Messages) → NoMessage i o → length o + length i ≤ 1
none_counts i o h = rw (h.0, h.1) (omega arith)

-- At most one text is on its way.
at_most_one :
    (a b : Stage) (pm qm : List ℕ) (i o : Messages) → Phase a b pm qm i o → length o + length i ≤ 1
at_most_one speaks listens pm qm i o h = none_counts i o h
at_most_one listens speaks pm qm i o h = none_counts i o h
at_most_one listens listens pm qm i o (inl h) = rw (h.0, h.1) (omega arith)
at_most_one listens listens pm qm i o (inr h) = rw (h.0, h.1) (omega arith)
at_most_one listens ends pm qm i o h = none_counts i o h.1
at_most_one ends listens pm qm i o h = none_counts i o h.1
at_most_one listens left pm qm i o h = rw (h.1, h.2) (omega arith)
at_most_one left listens pm qm i o h = rw (h.1, h.2) (omega arith)
at_most_one ends left pm qm i o h = none_counts i o h.1
at_most_one left ends pm qm i o h = none_counts i o h.1
at_most_one left left pm qm i o (inl h) = rw (h.2, h.3) (omega arith)
at_most_one left left pm qm i o (inr h) = rw (h.2, h.3) (omega arith)
at_most_one left gone pm qm i o h = none_counts i o h
at_most_one gone left pm qm i o h = none_counts i o h
at_most_one speaks _ pm qm i o h = absurd h
at_most_one listens gone pm qm i o h = absurd h
at_most_one ends _ pm qm i o h = absurd h
at_most_one left speaks pm qm i o h = absurd h
at_most_one gone _ pm qm i o h = absurd h

abbrev pub HasEnded : Pc → Type 0
HasEnded a = (a ≡ finished) ⊎ (a ≡ killed)

module _ (prog : Program) (ch : Channel) where
  -- A step that is no signal.
  abbrev pub HasStep : System prog ch → Type 0
  HasStep s = (e : Event) × (t : System prog ch) × Step prog ch s e t × (is_signal e ≡ false)

  record CanMove (role : Role) (p q : Process) (i o : ch.Queue) : Type 0 where
    event : Event
    process : Process
    input : ch.Queue
    output : ch.Queue
    move : Move prog ch role p q i o event process input output
    unsignalled : is_signal event ≡ false

  -- Why a process cannot go on.
  abbrev Stands : Role → Process → Process → ch.Queue → Type 0
  Stands role p q i =
      ((p.pc ≡ reading) × (ch.contents i ≡ []) × (holds_write (other role) q.pc ≡ true))
      ⊎ HasEnded p.pc

  abbrev by :
      {role : Role} {p q : Process} {i o : ch.Queue} {e : Event} {p' : Process} {i' o' : ch.Queue}
      → Move prog ch role p q i o e p' i' o'
      → is_signal e ≡ false
      → CanMove role p q i o
  by mv u = record { event = _; process = _; input = _; output = _; move = mv; unsignalled = u }

  fills_some :
      {role : Role} {p q : Process} {i o : ch.Queue} → p.pc ≡ prompting → CanMove role p q i o
  fills_some {p = p} at = elim (Bool-cases p.running) [
    | inl run ↦ by (fills at run (prog.Fills_total p.msg).1) refl
    | inr not_run ↦ by (gives_up at not_run) refl
  ]

  move_of :
      (role : Role) (p q : Process) (i o : ch.Queue) (a : Pc)
      → p.pc ≡ a
      → PhaseOf prog ch p q i o
      → CanMove role p q i o ⊎ Stands role p q i
  move_of role p q i o prompting at h = inl (fills_some at)
  move_of role p q i o writing at h =
      let can =
        ch.CanSend_of_empty o
          (speaks_empty (stage q.pc) p.msg q.msg (ch.contents i) (ch.contents o) (rw at at h)) in
      elim (Bool-cases (holds_read (other role) q.pc)) [
        | inl has_reader ↦ inl (by (writes at has_reader can) refl)
        | inr shut ↦ inl (by (breaks at shut) refl)
      ]
  move_of role p q i o reading at h = elim (List-cases (ch.contents i)) [
    | inr (m, ms, more) ↦ inl (by (reads at more) refl)
    | inl none ↦ elim (Bool-cases (holds_write (other role) q.pc)) [
      | inl has_writer ↦ inr (inl (at, none, has_writer))
      | inr shut ↦ inl (by (reads_nothing at none shut) refl)
    ]
  ]
  move_of role p q i o last_writing at h =
      let can =
        ch.CanSend_of_empty o
          (ends_empty (stage q.pc) p.msg q.msg (ch.contents i) (ch.contents o) (rw at at h)) in
      elim (Bool-cases (holds_read (other role) q.pc)) [
        | inl has_reader ↦ inl (by (writes_last at has_reader can) refl)
        | inr shut ↦ inl (by (breaks_last at shut) refl)
      ]
  move_of role p q i o closing at h = inl (by (closes at) refl)
  move_of role p q i o half_closed at h = inl (by (closes_other at) refl)
  move_of role p q i o finished at h = inr (inr (inl at))
  move_of role p q i o killed at h = inr (inr (inr at))

  -- Both processes are at their ends: either both came there by themselves, and one text that
  -- begins with 0 is left in a pipe, or SIGPIPE has ended one of them, and nothing is left.
  abbrev pub Finished : System prog ch → Type 0
  Finished s =
      ((s.parent_process.pc ≡ finished)
        × (s.child_process.pc ≡ finished)
        × (OneZero (ch.contents s.pipe_2) (ch.contents s.pipe_1)
            ⊎ OneZero (ch.contents s.pipe_1) (ch.contents s.pipe_2)))
      ⊎ ((((s.parent_process.pc ≡ killed) × (s.child_process.pc ≡ finished))
            ⊎ ((s.parent_process.pc ≡ finished) × (s.child_process.pc ≡ killed)))
          × NoMessage (ch.contents s.pipe_1) (ch.contents s.pipe_2))

  ended_has_no_write : (role : Role) (a : Pc) → HasEnded a → holds_write role a ≡ true → ⊥
  ended_has_no_write parent a (inl e) h = cc (ap (holds_write parent) e)
  ended_has_no_write parent a (inr e) h = cc (ap (holds_write parent) e)
  ended_has_no_write child a (inl e) h = cc (ap (holds_write child) e)
  ended_has_no_write child a (inr e) h = cc (ap (holds_write child) e)

  finish :
      (s : System prog ch)
      → PhaseOf prog ch s.parent_process s.child_process s.pipe_2 s.pipe_1
      → HasEnded s.parent_process.pc
      → HasEnded s.child_process.pc
      → Finished s
  finish s h (inl p) (inl c) = inl (p, c, rw (p, c) at h)
  finish s h (inl p) (inr c) =
      let none : NoMessage (ch.contents s.pipe_2) (ch.contents s.pipe_1) = rw (p, c) at h in
      inr (inr (p, c), (none.1, none.0))
  finish s h (inr p) (inl c) =
      let none : NoMessage (ch.contents s.pipe_2) (ch.contents s.pipe_1) = rw (p, c) at h in
      inr (inl (p, c), (none.1, none.0))
  finish s h (inr p) (inr c) = absurd (rw (p, c) at h)

  from_parent :
      {s : System prog ch}
      → CanMove parent s.parent_process s.child_process s.pipe_2 s.pipe_1
      → HasStep s
  from_parent m = (_, _, parent_moves m.move, m.unsignalled)

  from_child :
      {s : System prog ch}
      → CanMove child s.child_process s.parent_process s.pipe_1 s.pipe_2
      → HasStep s
  from_child m = (_, _, child_moves m.move, m.unsignalled)

  both_stand :
      (s : System prog ch)
      → PhaseOf prog ch s.parent_process s.child_process s.pipe_2 s.pipe_1
      → Stands parent s.parent_process s.child_process s.pipe_2
      → Stands child s.child_process s.parent_process s.pipe_1
      → Finished s
  both_stand s h (inl (at, none, w)) (inl (at', none', w')) = absurd (
      not_both_wait s.parent_process.msg s.child_process.msg (ch.contents s.pipe_2)
        (ch.contents s.pipe_1) (rw (at, at') at h) none none')
  both_stand s h (inl (at, none, w)) (inr ended) =
      absurd (ended_has_no_write child s.child_process.pc ended w)
  both_stand s h (inr ended) (inl (at, none, w)) =
      absurd (ended_has_no_write parent s.parent_process.pc ended w)
  both_stand s h (inr p) (inr c) = finish s h p c

  progress :
      (s : System prog ch)
      → PhaseOf prog ch s.parent_process s.child_process s.pipe_2 s.pipe_1
      → HasStep s ⊎ Finished s
  progress s h =
      let p = s.parent_process in
      let q = s.child_process in
      let turned : PhaseOf prog ch q p s.pipe_1 s.pipe_2 =
        Phase-swap p.msg q.msg (ch.contents s.pipe_2) (ch.contents s.pipe_1) (stage p.pc)
          (stage q.pc) h in
      elim (move_of parent p q s.pipe_2 s.pipe_1 p.pc refl h) [
        | inl m ↦ inl (from_parent m)
        | inr stands ↦ elim (move_of child q p s.pipe_1 s.pipe_2 q.pc refl turned) [
          | inl m ↦ inl (from_child m)
          | inr stands' ↦ inr (both_stand s h stands stands')
        ]
      ]

  module _ {pm cm : List ℕ} {es : List Event} {s : System prog ch} where
    -- While no signal comes, some process can always go on without one, or both are at their ends:
    -- either both finished, and one text that begins with 0 is left in a pipe, or exactly one was
    -- ended by SIGPIPE, and both pipes are empty.
    pub Runs-settled : Runs prog ch pm cm es s → NoSignal es → HasStep s ⊎ Finished s
    Runs-settled r ns = progress s (Runs-Phase prog ch r ns).0

    -- While no signal comes, the pipes together never hold more than one text, and no read ever
    -- finds a pipe that is empty and has no writer.
    pub Runs-in_turn :
        Runs prog ch pm cm es s
        → NoSignal es
        → (length (ch.contents s.pipe_1) + length (ch.contents s.pipe_2) ≤ 1) × All HasWriter es
    Runs-in_turn r ns =
        let (phase, all) = Runs-Phase prog ch r ns in
        (
          at_most_one (stage s.parent_process.pc) (stage s.child_process.pc) s.parent_process.msg
              s.child_process.msg (ch.contents s.pipe_2) (ch.contents s.pipe_1) phase,
          all,
        )
