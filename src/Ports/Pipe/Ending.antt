-- ===== src/Ports/Pipe/Ending.antt =====
-- The two-way pipe in C++ needs no condition on signals.
use posix_intro.Common.{ℕ, ◌≡◌, refl, ◌⊎◌, false, All-append, List, [], ◌∷◌}
use posix_intro.Common.Channel.{Channel}
use posix_intro.Pipe.{
  Role, Process, Event, Program, Move, fills, gives_up, writes, reads, writes_last, closes,
  closes_other, reads_nothing, breaks, breaks_last, signals, interrupts_prompt, interrupts_read,
  interrupts_write, interrupts_last, System, parent_moves, child_moves, Runs, start, later,
}
use posix_intro.Pipe.Turns.{is_signal, NoSignal}
use posix_intro.Pipe.Ending.{HasStep, Finished, Runs-settled}
use posix_intro.Ports.Pipe.{cpp_program, PipeRuns}

module _ (prog : Program) (ch : Channel) (no_handler : prog.has_handler ≡ false) where
  Move-unsignalled :
      {role : Role} {p q : Process} {i o : ch.Queue} {e : Event} {p' : Process} {i' o' : ch.Queue}
      → Move prog ch role p q i o e p' i' o'
      → is_signal e ≡ false
  Move-unsignalled (fills at run new) = refl
  Move-unsignalled (gives_up at run) = refl
  Move-unsignalled (writes at has_reader can) = refl
  Move-unsignalled (reads at some_left) = refl
  Move-unsignalled (writes_last at has_reader can) = refl
  Move-unsignalled (closes at) = refl
  Move-unsignalled (closes_other at) = refl
  Move-unsignalled (reads_nothing at none shut) = refl
  Move-unsignalled (breaks at shut) = refl
  Move-unsignalled (breaks_last at shut) = refl
  Move-unsignalled (signals on) = cc
  Move-unsignalled (interrupts_prompt on at) = cc
  Move-unsignalled (interrupts_read on at none) = cc
  Move-unsignalled (interrupts_write on at full) = cc
  Move-unsignalled (interrupts_last on at full) = cc

  Runs-unsignalled :
      {pm cm : List ℕ} {es : List Event} {s : System prog ch}
      → Runs prog ch pm cm es s
      → NoSignal es
  Runs-unsignalled start = tt
  Runs-unsignalled (later {es} {e} r (parent_moves mv)) =
      All-append (λ e. is_signal e ≡ false) es (e ∷ []) (Runs-unsignalled r)
        (Move-unsignalled mv, tt)
  Runs-unsignalled (later {es} {e} r (child_moves mv)) =
      All-append (λ e. is_signal e ≡ false) es (e ∷ []) (Runs-unsignalled r)
        (Move-unsignalled mv, tt)

-- In every run of the C++ program some process can go on, or both are at their ends: either both
-- finished, and one text that begins with 0 is left in a pipe, or exactly one was ended by SIGPIPE,
-- and both pipes are empty.
pub PipeRuns-settled :
    (ch : Channel) {es : List Event} {s : System cpp_program ch}
    → PipeRuns ch es s
    → HasStep cpp_program ch s ⊎ Finished cpp_program ch s
PipeRuns-settled ch r = Runs-settled cpp_program ch r (Runs-unsignalled cpp_program ch refl r)
