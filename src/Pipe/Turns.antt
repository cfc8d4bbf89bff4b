-- ===== src/Pipe/Turns.antt =====
-- The processes of twowaypipe.c keep to their turns while no signal comes.
use posix_intro.Common.{
  ℕ, ◌≡◌, refl, Bool, true, false, All, All-append, All-of_append, List, [], ◌∷◌,
}
use posix_intro.Common.Channel.{Channel}
use posix_intro.Pipe.{
  Role, parent, child, other, Pc, prompting, writing, reading, last_writing, closing, half_closed,
  finished, killed, Process, holds_write, holds_read, Event, no_writer, signalled, Program, Move,
  fills, gives_up, writes, reads, writes_last, closes, closes_other, reads_nothing, breaks,
  breaks_last, signals, interrupts_prompt, interrupts_read, interrupts_write, interrupts_last,
  System, parent_moves, child_moves, Runs, start, later,
}
use posix_intro.Pipe.Phases.{
  speaks, listens, ends, gone, stage, Messages, Phase, Phase-swap, fills_Phase, writes_Phase,
  last_Phase, reads_Phase,
}

abbrev pub is_signal : Event → Bool
is_signal (signalled role) = true
is_signal _ = false

-- No signal comes.
abbrev pub NoSignal : List Event → Type 0
NoSignal = All (λ e. is_signal e ≡ false)

-- A read never finds a pipe that nobody can write any more.
abbrev pub HasWriter : Event → Type 0
HasWriter (no_writer role) = ⊥
HasWriter _ = Unit

-- A write in the loop finds its reader.
listener_reads :
    (role : Role) (a : Pc) (pm qm : List ℕ) (i o : Messages)
    → Phase speaks (stage a) pm qm i o
    → holds_read role a ≡ true
listener_reads parent reading pm qm i o h = refl
listener_reads child reading pm qm i o h = refl
listener_reads role prompting pm qm i o h = absurd h
listener_reads role writing pm qm i o h = absurd h
listener_reads role last_writing pm qm i o h = absurd h
listener_reads role closing pm qm i o h = absurd h
listener_reads role half_closed pm qm i o h = absurd h
listener_reads role finished pm qm i o h = absurd h
listener_reads role killed pm qm i o h = absurd h

-- Where a last write finds no reader, the other process has left.
no_reader :
    (role : Role) (a : Pc) (pm qm : List ℕ) (i o : Messages)
    → Phase ends (stage a) pm qm i o
    → holds_read role a ≡ false
    → Phase gone (stage a) pm qm i o
no_reader parent reading pm qm i o h e = cc
no_reader child reading pm qm i o h e = cc
no_reader role closing pm qm i o h e = h.1
no_reader role half_closed pm qm i o h e = h.1
no_reader role finished pm qm i o h e = h.1
no_reader role prompting pm qm i o h e = absurd h
no_reader role writing pm qm i o h e = absurd h
no_reader role last_writing pm qm i o h e = absurd h
no_reader role killed pm qm i o h e = absurd h

-- A process that waits for a text gets one before its pipe is given up.
no_text_no_end :
    (role : Role) (a : Pc) (pm qm : List ℕ) (i o : Messages)
    → Phase listens (stage a) pm qm i o
    → i ≡ []
    → holds_write role a ≡ false
    → ⊥
no_text_no_end parent prompting pm qm i o h n e = cc
no_text_no_end child prompting pm qm i o h n e = cc
no_text_no_end parent writing pm qm i o h n e = cc
no_text_no_end child writing pm qm i o h n e = cc
no_text_no_end parent reading pm qm i o h n e = cc
no_text_no_end child reading pm qm i o h n e = cc
no_text_no_end parent last_writing pm qm i o h n e = cc
no_text_no_end child last_writing pm qm i o h n e = cc
no_text_no_end role closing pm qm i o h n e = cc (n, h.1)
no_text_no_end role half_closed pm qm i o h n e = cc (n, h.1)
no_text_no_end role finished pm qm i o h n e = cc (n, h.1)
no_text_no_end role killed pm qm i o h n e = absurd h

module _ (prog : Program) (ch : Channel) where
  abbrev pub PhaseOf : Process → Process → ch.Queue → ch.Queue → Type 0
  PhaseOf p q i o = Phase (stage p.pc) (stage q.pc) p.msg q.msg (ch.contents i) (ch.contents o)

  Move-Phase :
      {role : Role} {p q : Process} {i o : ch.Queue} {e : Event} {p' : Process} {i' o' : ch.Queue}
      → Move prog ch role p q i o e p' i' o'
      → is_signal e ≡ false
      → PhaseOf p q i o
      → PhaseOf p' q i' o' × HasWriter e
  Move-Phase {p = p} {q} {i} {o} (fills {m} at run new) ns h =
      (fills_Phase p.msg q.msg (ch.contents i) (ch.contents o) m (stage q.pc) (rw at at h), tt)
  Move-Phase {p = p} {q} {i} {o} (gives_up at run) ns h =
      (fills_Phase p.msg q.msg (ch.contents i) (ch.contents o) _ (stage q.pc) (rw at at h), tt)
  Move-Phase {p = p} {q} {i} {o} (writes at has_reader can) ns h = (
    rw (ch.contents-send o p.msg can)
        (writes_Phase p.msg q.msg (ch.contents i) (ch.contents o) (stage q.pc) (rw at at h)),
    tt,
  )
  Move-Phase {p = p} {q} {i} {o} (reads {m} {ms} at some_left) ns h = (
    rw (ch.contents-receive i m ms some_left)
        (reads_Phase p.msg q.msg m ms (ch.contents o) (stage q.pc) (rw (at, some_left) at h)),
    tt,
  )
  Move-Phase {p = p} {q} {i} {o} (writes_last at has_reader can) ns h = (
    rw (ch.contents-send o p.msg can)
        (last_Phase p.msg q.msg (ch.contents i) (ch.contents o) (stage q.pc) (rw at at h)),
    tt,
  )
  Move-Phase (closes at) ns h = (rw at at h, tt)
  Move-Phase (closes_other at) ns h = (rw at at h, tt)
  Move-Phase {role = role} {p} {q} {i} {o} (reads_nothing at none shut) ns h = absurd (
      no_text_no_end (other role) q.pc p.msg q.msg (ch.contents i) (ch.contents o) (rw at at h) none
        shut)
  Move-Phase {role = role} {p} {q} {i} {o} (breaks at shut) ns h = absurd (
      cc (
        shut,
        listener_reads (other role) q.pc p.msg q.msg (ch.contents i) (ch.contents o) (rw at at h),
      ))
  Move-Phase {role = role} {p} {q} {i} {o} (breaks_last at shut) ns h = (
    no_reader (other role) q.pc p.msg q.msg (ch.contents i) (ch.contents o) (rw at at h) shut,
    tt,
  )
  Move-Phase (signals on) ns h = cc
  Move-Phase (interrupts_prompt on at) ns h = cc
  Move-Phase (interrupts_read on at none) ns h = cc
  Move-Phase (interrupts_write on at full) ns h = cc
  Move-Phase (interrupts_last on at full) ns h = cc

  -- The phase of the whole system, and that no read found an end, in a run with no signal.
  pub Runs-Phase :
      {pm cm : List ℕ} {es : List Event} {s : System prog ch}
      → Runs prog ch pm cm es s
      → NoSignal es
      → PhaseOf s.parent_process s.child_process s.pipe_2 s.pipe_1 × All HasWriter es
  Runs-Phase start ns = ((ch.contents-empty, ch.contents-empty), tt)
  Runs-Phase (later {es} {e} {s} r (parent_moves mv)) ns =
      let (before, now) = All-of_append (λ e. is_signal e ≡ false) es (e ∷ []) ns in
      let (phase, fine) = Runs-Phase r before in
      let (phase', fine') = Move-Phase mv now.0 phase in
      (phase', All-append HasWriter es (e ∷ []) fine (fine', tt))
  Runs-Phase (later {es} {e} {s} r (child_moves {p = c} {i} {o} mv)) ns =
      let (before, now) = All-of_append (λ e. is_signal e ≡ false) es (e ∷ []) ns in
      let (phase, fine) = Runs-Phase r before in
      let p = s.parent_process in
      let q = s.child_process in
      let turned : PhaseOf q p s.pipe_1 s.pipe_2 =
        Phase-swap p.msg q.msg (ch.contents s.pipe_2) (ch.contents s.pipe_1) (stage p.pc)
          (stage q.pc) phase in
      let (phase', fine') = Move-Phase mv now.0 turned in
      (
        Phase-swap c.msg p.msg (ch.contents i) (ch.contents o) (stage c.pc) (stage p.pc) phase',
        All-append HasWriter es (e ∷ []) fine (fine', tt),
      )
