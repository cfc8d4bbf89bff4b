-- ===== src/Ports/Fork/Messages.antt =====
-- What cpp/cc_lab01.cc writes.
use Prim.Native.String.{String}
use posix_intro.Common.{
  ℕ, ℤ, pos, negsuc, eq_ℤ, ◌≡◌, refl, Bool, true, false, Bool-cases, inl, inr, List, [], ◌∷◌,
  if◌then◌else◌, All, arith,
}
use posix_intro.Ports.Fork.{Line, child_waits, parent_waits, other_error, child_exited, shows, main}

-- What each process writes: the child its line, and the parent its own and the child's status; and
-- whichever call fails, the last line is "other error".
pub main_lines : ℤ → ℤ → ℤ → ℕ → List Line
main_lines pid exec wait pid_status =
    if eq_ℤ pid (negsuc 0)
    then other_error ∷ []
    else if eq_ℤ pid (pos 0)
    then child_waits ∷ (if eq_ℤ exec (pos 0) then [] else other_error ∷ [])
    else parent_waits ∷ (if eq_ℤ wait (negsuc 0) then other_error else child_exited pid_status) ∷ []

-- All that `main` writes, for every result of its system calls.
pub main-main_lines :
    (error : String) (pid exec wait : ℤ) (pid_status : ℕ)
    → main error pid exec wait pid_status ≡ main_lines pid exec wait pid_status
unfolding main main_lines
main-main_lines error pid exec wait pid_status = ground arith

-- A line with the text of an exception.
abbrev pub is_shown : Line → Bool
is_shown (shows parts) = true
is_shown _ = false

-- Whatever the system calls return, the text of no exception is ever written.
pub main-shows_nothing :
    (error : String) (pid exec wait : ℤ) (pid_status : ℕ)
    → All (λ l. is_shown l ≡ false) (main error pid exec wait pid_status)
unfolding main_lines
main-shows_nothing error pid exec wait pid_status =
    rw main-main_lines (elim (Bool-cases (eq_ℤ pid (negsuc 0))) [
      | inl e ↦ rw e (refl, tt)
      | inr e ↦ elim (Bool-cases (eq_ℤ pid (pos 0))) [
        | inl f ↦ elim (Bool-cases (eq_ℤ exec (pos 0))) [
          | inl g ↦ rw (e, f, g) (refl, tt)
          | inr g ↦ rw (e, f, g) (refl, (refl, tt))
        ]
        | inr f ↦ elim (Bool-cases (eq_ℤ wait (negsuc 0))) [
          | inl g ↦ rw (e, f, g) (refl, (refl, tt))
          | inr g ↦ rw (e, f, g) (refl, (refl, tt))
        ]
      ]
    ])
