-- ===== src/Process/Tests.antt =====
-- The theorems on c/c_lab01.c at concrete answers of the system.
use posix_intro.Common.{◌≡◌, ◌≢◌, Option, none, some, ℤ, pos, negsuc, [], ◌∷◌}
use posix_intro.Process.{
  parent_waits, child_starts, child_exited, error, success, failure, replaced, main,
}
use posix_intro.Process.Endings.{main-parent, main-child}

main-parent_test :
    (◌≢◌ {A = ℤ} (pos 7) (negsuc 0)
      → main (pos 7) none (pos 7) 256
        ≡ record { lines = parent_waits ∷ child_exited 256 ∷ []; ending = some success })
    × (◌≡◌ {A = ℤ} (pos 7) (negsuc 0)
        → main (pos 7) none (pos 7) 256 ≡ record {
          lines = parent_waits ∷ error "Error waiting child process" ∷ [];
          ending = some failure;
        })
main-parent_test = main-parent (pos 7) none (pos 7) 256 (λ e. cc) (λ e. cc)

main-child_test :
    (◌≡◌ {A = Option ℤ} (some (negsuc 0)) none
      → main (pos 0) (some (negsuc 0)) (pos 0) 0
        ≡ record { lines = child_starts ∷ []; ending = some replaced })
    × (◌≡◌ {A = Option ℤ} (some (negsuc 0)) (some (negsuc 0))
        → main (pos 0) (some (negsuc 0)) (pos 0) 0
          ≡ record { lines = child_starts ∷ []; ending = some success })
    × ((r : ℤ)
        → ◌≡◌ {A = Option ℤ} (some (negsuc 0)) (some r)
        → r ≢ negsuc 0
        → main (pos 0) (some (negsuc 0)) (pos 0) 0
          ≡ record { lines = child_starts ∷ error "Can't open gedit" ∷ []; ending = some failure })
main-child_test = main-child (some (negsuc 0)) (pos 0) 0
