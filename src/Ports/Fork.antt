-- ===== src/Ports/Fork.antt =====
-- cpp/cc_lab01.cc and cpp/include/custom_exception.hh: the parent and the child of task 1, with
-- exceptions. What the system calls return is an argument; what a process writes is the result.
pub mod Messages
mod Tests
use Prim.Native.String.{String}
use posix_intro.Common.{
  ℕ, ℤ, pos, negsuc, eq_ℤ, Bool, true, false, List, [], ◌∷◌, ◌++◌, if◌then◌else◌,
}

-- The classes of exceptions, with the text that their objects hold.
pub data Exc : Type 0 where
  pid_exception open_exception : (msg : String) → Exc

-- `throw e` throws an object, and `throw new e` a pointer to one.
pub data Thrown : Type 0 where
  object pointer : Exc → Thrown

-- `what`, as its parts in order, where `error` is the text of `errno`.
pub what : (error : String) → Exc → List String
what error (pid_exception msg) = "PID: " ∷ msg ∷ ":" ∷ error ∷ []
what error (open_exception msg) = "Open: " ∷ msg ∷ ":" ∷ error ∷ []

-- The lines that `main` writes.
pub data Line : Type 0 where
  child_waits parent_waits other_error : Line
  child_exited : (pid_status : ℕ) → Line
  shows : (parts : List String) → Line

-- What a piece of code has written when it returns, or when it throws.
pub data Result : Type 0 where
  returns : List Line → Result
  throws : List Line → Thrown → Result

-- One statement after another: the second runs if the first returns.
pub and_then : Result → Result → Result
and_then (throws ls e) r = throws ls e
and_then (returns ls) (returns ms) = returns (ls ++ ms)
and_then (returns ls) (throws ms e) = throws (ls ++ ms) e

-- The test of `create_fork`, for what `fork` returns.
pub create_fork : ℤ → Result
create_fork pid =
    if eq_ℤ pid (negsuc 0)
    then throws [] (pointer (pid_exception "Can't fork process"))
    else returns []

-- `execute_child`, where `system` returns `exec`.
pub execute_child : ℤ → ℤ → Result
unfolding and_then
execute_child ppid exec =
    and_then
      (if eq_ℤ ppid (pos 0)
        then returns []
        else throws [] (object (pid_exception "Not a child process!")))
      (and_then (returns (child_waits ∷ [])) (
        if eq_ℤ exec (pos 0)
        then returns []
        else throws [] (pointer (open_exception "Can't open gedit"))))

-- `wait_child`, where `waitpid` returns `wait` and stores the status.
pub wait_child : ℤ → ℤ → ℕ → Result
unfolding and_then
wait_child pid wait pid_status =
    and_then
      (if eq_ℤ pid (pos 0)
        then throws [] (pointer (pid_exception "Not a parent process!"))
        else returns [])
      (and_then
        (if eq_ℤ wait (negsuc 0)
          then throws [] (pointer (pid_exception "Error waiting child process"))
          else returns [])
        (returns (child_exited pid_status ∷ [])))

-- The handlers of `main`: one for objects of the classes, and one for all else.
pub handle : (error : String) → Result → List Line
unfolding what
handle error (returns ls) = ls
handle error (throws ls (object e)) = ls ++ shows (what error e) ∷ []
handle error (throws ls (pointer e)) = ls ++ other_error ∷ []

-- `main` in the process in which `fork` returns `pid`.
pub main : (error : String) → (pid exec wait : ℤ) → (pid_status : ℕ) → List Line
unfolding handle create_fork execute_child wait_child and_then
main error pid exec wait pid_status = handle error (
    and_then (create_fork pid) (
      if eq_ℤ pid (pos 0)
      then execute_child pid exec
      else and_then (returns (parent_waits ∷ [])) (wait_child pid wait pid_status)))
