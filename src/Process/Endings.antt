-- ===== src/Process/Endings.antt =====
-- How the processes of c/c_lab01.c end.
use posix_intro.Common.{
  ℕ, ◌≡◌, ◌≢◌, refl, Option, none, some, ℤ, pos, negsuc, [], ◌∷◌, ap, ◌∙◌, eq_ℤ_ne,
}
use posix_intro.Process.{
  parent_waits, child_starts, child_exited, error, success, failure, replaced, main,
}

-- The parent, where `fork` gave it a child: if `waitpid` succeeds it writes the status as it stands
-- and succeeds, and otherwise it writes the message and fails. What `execl` does is not its concern.
pub main-parent :
    (pid : ℤ) (exec : Option ℤ) (wait : ℤ) (status : ℕ)
    → pid ≢ negsuc 0
    → pid ≢ pos 0
    → (wait ≢ negsuc 0
        → main pid exec wait status
          ≡ record { lines = parent_waits ∷ child_exited status ∷ []; ending = some success })
      × (wait ≡ negsuc 0
          → main pid exec wait status ≡ record {
            lines = parent_waits ∷ error "Error waiting child process" ∷ [];
            ending = some failure;
          })
unfolding main
main-parent pid exec wait status forked parent = (
  λ ok.
      rw (eq_ℤ_ne pid (negsuc 0) forked, eq_ℤ_ne pid (pos 0) parent, eq_ℤ_ne wait (negsuc 0) ok)
        refl,
  λ lost. rw (eq_ℤ_ne pid (negsuc 0) forked, eq_ℤ_ne pid (pos 0) parent, lost) refl,
)

main-other_result :
    (r wait : ℤ) (status : ℕ)
    → r ≢ negsuc 0
    → main (pos 0) (some r) wait status
      ≡ record { lines = child_starts ∷ error "Can't open gedit" ∷ []; ending = some failure }
unfolding main
main-other_result r wait status other = rw (eq_ℤ_ne r (negsuc 0) other) refl

-- The child: it becomes the editor if `execl` succeeds. If `execl` fails, which it reports by -1,
-- the child writes no message and ends with EXIT_SUCCESS. Only another result, which `execl` never
-- has, would bring the message "Can't open gedit".
pub main-child :
    (exec : Option ℤ) (wait : ℤ) (status : ℕ)
    → (exec ≡ none
        → main (pos 0) exec wait status
          ≡ record { lines = child_starts ∷ []; ending = some replaced })
      × (exec ≡ some (negsuc 0)
          → main (pos 0) exec wait status
            ≡ record { lines = child_starts ∷ []; ending = some success })
      × ((r : ℤ)
          → exec ≡ some r
          → r ≢ negsuc 0
          → main (pos 0) exec wait status ≡ record {
            lines = child_starts ∷ error "Can't open gedit" ∷ [];
            ending = some failure;
          })
unfolding main
main-child exec wait status = (
  λ done. ap (λ x. main (pos 0) x wait status) done,
  λ failed. ap (λ x. main (pos 0) x wait status) failed,
  λ r returned other.
      ap (λ x. main (pos 0) x wait status) returned ∙ main-other_result r wait status other,
)

-- Where `fork` fails there is no child, and the process says so and fails.
pub main-no_fork :
    (exec : Option ℤ) (wait : ℤ) (status : ℕ)
    → main (negsuc 0) exec wait status
      ≡ record { lines = error "Can't fork process" ∷ []; ending = some failure }
unfolding main
main-no_fork exec wait status = refl
