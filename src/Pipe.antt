-- ===== src/Pipe.antt =====
-- c/ipc/message_passing/pipe/twowaypipe.c: two processes that talk to each other through two pipes,
-- in turns, until one of them sends a text that begins with 0.
--
-- `parent_process` and `child_process` are one cycle of statements, entered at two places: prompt,
-- write, read, and, if the text read begins with 0, a last write. They differ in the order in which
-- they close their ends. A Move is one statement of either process. The ends that a process does
-- not want are closed before its loop, so that of each pipe one process holds the end for writing
-- and the other the end for reading. Every message is the whole array, which is not above PIPE_BUF,
-- so that the pipe is a Channel of messages.
pub mod Phases
pub mod Turns
pub mod Delivery
pub mod Ending
pub mod Broken
mod Tests
use Prim.Native.String.{String, ◌++◌ as ◌++ˢ◌}
use posix_intro.Common.{
  ℕ, ◌-◌, ◌≡◌, refl, ℤ, pos, negsuc, eq_ℤ, Bool, true, false, List, [], ◌∷◌, ◌++◌, if◌then◌else◌,
}
use posix_intro.Common.Channel.{Channel}
use posix_intro.Common.Outcome.{Outcome, ok, exits, ◌>>=◌}
use posix_intro.Common.Stdio.{is_zero, fgets_array, strtok_array}

-- STR_BUF
abbrev pub str_buf : ℕ
str_buf = 256

pub data Role : Type 0 where
  parent child : Role

abbrev pub other : Role → Role
other parent = child
other child = parent

-- Before which statement a process stands; `killed` is what SIGPIPE makes of it.
pub data Pc : Type 0 where
  prompting writing reading last_writing closing half_closed finished killed : Pc

-- A process: its place, its array `msg`, and its `running`.
pub record Process : Type 0 where
  pub pc : Pc
  pub msg : List ℕ
  pub running : Bool

-- Whether the process still has its end for writing, and its end for reading. The parent closes the
-- first first, and the child the other.
abbrev pub holds_write : Role → Pc → Bool
holds_write role finished = false
holds_write role killed = false
holds_write parent half_closed = false
holds_write child half_closed = true
holds_write role _ = true

abbrev pub holds_read : Role → Pc → Bool
holds_read role finished = false
holds_read role killed = false
holds_read parent half_closed = true
holds_read child half_closed = false
holds_read role _ = true

-- Where a process goes on with the text `m` behind its read.
abbrev pub after_read : List ℕ → Pc
after_read m = if is_zero m then last_writing else prompting

-- `strncpy(msg, "0", 1)`
abbrev pub put_zero : List ℕ → List ℕ
put_zero [] = []
put_zero (c ∷ cs) = b'0' ∷ cs

-- `close_write`, the handler of SIGINT.
abbrev pub close_write : Process → Process
close_write p = record p { running = false }

-- What one step does.
pub data Event : Type 0 where
  quiet : Event
  sent received : (role : Role) → (text : List ℕ) → Event
  no_writer broken signalled : (role : Role) → Event

-- How a program fills `msg` at its prompt, and whether it has a handler of SIGINT.
pub record Program : Type 1 where
  pub Fills : List ℕ → List ℕ → Type 0
  pub Fills_total : (old : List ℕ) → (new : List ℕ) × Fills old new
  pub has_handler : Bool

-- `fgets(msg, STR_BUF, stdin); strtok(msg, "\n");` where `stdin` holds any bytes: both processes read
-- the same terminal.
abbrev pub c_program : Program
c_program = record {
  Fills = λ old new. (stdin : List ℕ) × (new ≡ strtok_array (fgets_array (str_buf - 1) old stdin));
  Fills_total = λ old. (_, ([], refl));
  has_handler = true;
}

module _ (prog : Program) (ch : Channel) where
  -- One statement of the process `p`, with `i` the pipe that it reads and `o` the one it writes.
  pub data Move (role : Role) (p peer : Process) (i o : ch.Queue)
      : Event → Process → ch.Queue → ch.Queue → Type 0 where
    fills :
        {m : List ℕ}
        → p.pc ≡ prompting
        → p.running ≡ true
        → prog.Fills p.msg m
        → Move role p peer i o quiet (record p { msg = m; pc = writing }) i o
    gives_up :
        p.pc ≡ prompting
        → p.running ≡ false
        → Move role p peer i o quiet (record p { msg = put_zero p.msg; pc = writing }) i o
    writes :
        p.pc ≡ writing
        → holds_read (other role) peer.pc ≡ true
        → ch.CanSend o
        → Move role p peer i o (sent role p.msg) (record p { pc = reading }) i (ch.send o p.msg)
    reads :
        {m : List ℕ} {ms : List (List ℕ)}
        → p.pc ≡ reading
        → ch.contents i ≡ m ∷ ms
        → Move role p peer i o
            (received role m)
            (record p { msg = m; pc = after_read m })
            (ch.receive i)
            o
    writes_last :
        p.pc ≡ last_writing
        → holds_read (other role) peer.pc ≡ true
        → ch.CanSend o
        → Move role p peer i o (sent role p.msg) (record p { pc = closing }) i (ch.send o p.msg)
    closes : p.pc ≡ closing → Move role p peer i o quiet (record p { pc = half_closed }) i o
    closes_other : p.pc ≡ half_closed → Move role p peer i o quiet (record p { pc = finished }) i o
    -- A read where nothing is left and nobody can write returns 0 and leaves `msg` alone.
    reads_nothing :
        p.pc ≡ reading
        → ch.contents i ≡ []
        → holds_write (other role) peer.pc ≡ false
        → Move role p peer i o (no_writer role) (record p { pc = after_read p.msg }) i o
    -- A write where nobody can read raises SIGPIPE.
    breaks :
        p.pc ≡ writing
        → holds_read (other role) peer.pc ≡ false
        → Move role p peer i o (broken role) (record p { pc = killed }) i o
    breaks_last :
        p.pc ≡ last_writing
        → holds_read (other role) peer.pc ≡ false
        → Move role p peer i o (broken role) (record p { pc = killed }) i o
    -- The handler of SIGINT runs between two statements, or ends a call that waits: a `fgets` with
    -- anything in `msg`, and a `read` or `write` that then has done nothing.
    signals : prog.has_handler ≡ true → Move role p peer i o (signalled role) (close_write p) i o
    interrupts_prompt :
        {m : List ℕ}
        → prog.has_handler ≡ true
        → p.pc ≡ prompting
        → Move role p peer i o
            (signalled role)
            (record (close_write p) { msg = m; pc = writing })
            i
            o
    interrupts_read :
        prog.has_handler ≡ true
        → p.pc ≡ reading
        → ch.contents i ≡ []
        → Move role p peer i o
            (signalled role)
            (record (close_write p) { pc = after_read p.msg })
            i
            o
    interrupts_write :
        prog.has_handler ≡ true
        → p.pc ≡ writing
        → ¬ ch.CanSend o
        → Move role p peer i o (signalled role) (record (close_write p) { pc = reading }) i o
    interrupts_last :
        prog.has_handler ≡ true
        → p.pc ≡ last_writing
        → ¬ ch.CanSend o
        → Move role p peer i o (signalled role) (record (close_write p) { pc = closing }) i o

  -- Both processes, and the pipes, `pipe_fds_1` from the parent to the child.
  pub record System : Type 0 where
    pub parent_process : Process
    pub child_process : Process
    pub pipe_1 : ch.Queue
    pub pipe_2 : ch.Queue

  pub data Step (s : System) : Event → System → Type 0 where
    parent_moves :
        {e : Event} {p : Process} {i o : ch.Queue}
        → Move parent s.parent_process s.child_process s.pipe_2 s.pipe_1 e p i o
        → Step s e (record s { parent_process = p; pipe_2 = i; pipe_1 = o })
    child_moves :
        {e : Event} {p : Process} {i o : ch.Queue}
        → Move child s.child_process s.parent_process s.pipe_1 s.pipe_2 e p i o
        → Step s e (record s { child_process = p; pipe_1 = i; pipe_2 = o })

  -- Both processes before their loops; what stands in their arrays is not set in C.
  abbrev pub start_system : (parent_msg child_msg : List ℕ) → System
  start_system parent_msg child_msg = record {
    parent_process = record { pc = prompting; msg = parent_msg; running = true };
    child_process = record { pc = reading; msg = child_msg; running = true };
    pipe_1 = ch.empty;
    pipe_2 = ch.empty;
  }

  pub data Runs (parent_msg child_msg : List ℕ) : List Event → System → Type 0 where
    start : Runs parent_msg child_msg [] (start_system parent_msg child_msg)
    later :
        {es : List Event} {e : Event} {s t : System}
        → Runs parent_msg child_msg es s
        → Step s e t
        → Runs parent_msg child_msg (es ++ e ∷ []) t

-- The call of `catch_signal` in `main`, where `sigaction` returns `result`.
pub map_handler : (result : ℤ) → Outcome (Unit {0})
map_handler result = if eq_ℤ result (negsuc 0) then exits "Can't map the handler" else ok tt

-- `create_pipe`, where `pipe` returns `return_status`; `pipe_id` is the number as it is printed.
pub create_pipe : (return_status : ℤ) → (pipe_id : String) → Outcome (Unit {0})
create_pipe return_status pipe_id =
    if eq_ℤ return_status (negsuc 0) then exits ("unable to create pipe " ++ˢ pipe_id) else ok tt

-- What `main` does before its processes part: whether it gets there, given what `sigaction` and both
-- calls of `pipe` return, and which function it goes on with, where `fork` returns `pid`.
pub prepare : (handler pipe_1 pipe_2 pid : ℤ) → Outcome Role
unfolding map_handler create_pipe
prepare handler pipe_1 pipe_2 pid = do
  mapped ← map_handler handler
  one ← create_pipe pipe_1 "1"
  two ← create_pipe pipe_2 "2"
  ok (if eq_ℤ pid (pos 0) then parent else child)
