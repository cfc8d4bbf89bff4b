-- ===== src/Ports/Fork/Tests.antt =====
-- The processes of cpp/cc_lab01.cc at some results of the system calls.
use posix_intro.Common.{pos, negsuc, ◌≡◌, refl, false, [], ◌∷◌, All}
use posix_intro.Ports.Fork.{
  parent_waits, child_exited, shows, what, pid_exception, object, throws, handle, main,
}
use posix_intro.Ports.Fork.Messages.{main_lines, main-main_lines, is_shown, main-shows_nothing}

-- The editor cannot be opened.
main-main_lines_example :
    main "No such file" (pos 0) (pos 32512) (pos 0) 0 ≡ main_lines (pos 0) (pos 32512) (pos 0) 0
main-main_lines_example = main-main_lines "No such file" (pos 0) (pos 32512) (pos 0) 0

main-shows_nothing_test :
    All (λ l. is_shown l ≡ false) (main "Cannot allocate memory" (negsuc 0) (pos 0) (pos 0) 0)
main-shows_nothing_test = main-shows_nothing "Cannot allocate memory" (negsuc 0) (pos 0) (pos 0) 0

parent_lines : main "" (pos 7) (pos 0) (pos 7) 256 ≡ parent_waits ∷ child_exited 256 ∷ []
unfolding main
parent_lines = refl

-- An object that is thrown would be shown with its text.
shown_object :
    handle "Interrupted" (throws [] (object (pid_exception "Not a child process!")))
    ≡ shows (what "Interrupted" (pid_exception "Not a child process!")) ∷ []
unfolding handle
shown_object = refl
