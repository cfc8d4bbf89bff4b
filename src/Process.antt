-- ===== src/Process.antt =====
-- c/c_lab01.c: a parent that starts an editor in a child process and waits for it. What the system
-- calls return is an argument; what the processes write, and how they end, is the result.
pub mod Endings
mod Tests
use Prim.Native.String.{String}
use posix_intro.Common.{
  ℕ, Option, none, some, ℤ, pos, negsuc, eq_ℤ, Bool, true, false, List, [], ◌∷◌, ◌++◌,
  if◌then◌else◌,
}

-- What a process writes: the lines of `main` and `execute_child`, that of `wait_child` with the
-- number that it prints, and the message that `error_msg` is given.
pub data Line : Type 0 where
  parent_waits child_starts : Line
  child_exited : (pid_status : ℕ) → Line
  error : (message : String) → Line

-- How a process goes on: it ends with EXIT_SUCCESS or EXIT_FAILURE, or `execl` has made another
-- program of it.
pub data Ending : Type 0 where
  success failure replaced : Ending

-- What a function has written, and how it has ended the process, if it has.
pub record Result : Type 0 where
  pub lines : List Line
  pub ending : Option Ending

abbrev pub returns : List Line → Result
returns ls = record { lines = ls; ending = none }

-- `error_msg`
pub error_msg : String → Result
error_msg m = record { lines = error m ∷ []; ending = some failure }

-- One statement after another: the second runs if the first returns.
pub and_then : Result → Result → Result
and_then r s = elim r.ending [
  | none ↦ record { lines = r.lines ++ s.lines; ending = s.ending }
  | some e ↦ r
]

-- The last statement of `execute_child`; `exec` is what `execl` returns, and `none` if it succeeds
-- and so does not return.
pub execute : Option ℤ → Result
unfolding error_msg
execute none = record { lines = []; ending = some replaced }
execute (some r) = if eq_ℤ r (negsuc 0) then returns [] else error_msg "Can't open gedit"

-- `execute_child`
pub execute_child : ℤ → Option ℤ → Result
unfolding error_msg and_then execute
execute_child ppid exec =
    and_then (if eq_ℤ ppid (pos 0) then returns [] else error_msg "Not a child process!")
      (and_then (returns (child_starts ∷ [])) (execute exec))

-- `wait_child`; `wait` is what `waitpid` returns, and the status that it stores.
pub wait_child : ℤ → ℤ → ℕ → Result
unfolding error_msg and_then
wait_child pid wait pid_status =
    and_then (if eq_ℤ pid (pos 0) then error_msg "Not a parent process!" else returns []) (
      and_then
        (if eq_ℤ wait (negsuc 0) then error_msg "Error waiting child process" else returns [])
        (returns (child_exited pid_status ∷ [])))

-- `main` in the process in which `fork` returns `pid`.
pub main : ℤ → Option ℤ → ℤ → ℕ → Result
unfolding execute_child wait_child
main pid exec wait pid_status =
    and_then (if eq_ℤ pid (negsuc 0) then error_msg "Can't fork process" else returns []) (
      and_then
        (if eq_ℤ pid (pos 0)
          then execute_child pid exec
          else and_then (returns (parent_waits ∷ [])) (wait_child pid wait pid_status))
        (record { lines = []; ending = some success }))
