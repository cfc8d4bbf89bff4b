-- ===== src/Ports/MessageQueue/Tests.antt =====
-- What the C++ writer reads at its prompt.
use posix_intro.Common.{◌≡◌, refl, [], ◌∷◌, replicate, ◌++◌}
use posix_intro.Common.Stdio.{newline}
use posix_intro.Ports.MessageQueue.{cpp_fill}

a_line : cpp_fill [] (b'h' ∷ b'i' ∷ newline ∷ b'0' ∷ []) ≡ (b'h' ∷ b'i' ∷ [], b'0' ∷ [])
unfolding cpp_fill
a_line = refl

-- A line of 20 characters is too long, and what follows is not read.
too_long : cpp_fill [] (replicate 20 b'a' ++ newline ∷ b'0' ∷ []) ≡ (replicate 19 b'a', [])
unfolding cpp_fill
too_long = refl

-- One of 19 is not.
just_fits : cpp_fill [] (replicate 19 b'a' ++ newline ∷ b'0' ∷ []) ≡ (replicate 19 b'a', b'0' ∷ [])
unfolding cpp_fill
just_fits = refl
