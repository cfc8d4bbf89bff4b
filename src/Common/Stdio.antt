-- ===== src/Common/Stdio.antt =====
-- What the programs use of <stdio.h> and <string.h>: bytes typed, none of them NUL, and C strings,
-- both as lists of bytes.
use Prim.Native.Nat.{ℕ, zero, suc, ◌≤◌}
use mathlib.Core.Path.{◌≡◌, refl, ap}
use mathlib.Core.Logic.{◌≢◌, inl, inr}
use mathlib.Core.Bool.{Bool, false}
use mathlib.Core.List.{List, [], ◌∷◌, ◌++◌}
use native.Mathlib.Omega.{arith}
use posix_intro.Common.Tests.{Bool-cases, ◌==◌, if◌then◌else◌}
use posix_intro.Common.Lists.{length, All}

abbrev pub newline : ℕ
newline = 10

-- `fgets` where some byte is left: the line read, of at most `room` bytes and up to its newline, and
-- what is left.
pub fgets : (room : ℕ) → List ℕ → List ℕ × List ℕ
fgets zero stdin = ([], stdin)
fgets (suc room) [] = ([], [])
fgets (suc room) (c ∷ cs) =
    let (line, rest) = fgets room cs in if c == newline then (c ∷ [], cs) else (c ∷ line, rest)

-- The bytes before the first newline.
pub token : List ℕ → List ℕ
token [] = []
token (c ∷ cs) = if c == newline then [] else c ∷ token cs

-- The buffer after `strtok(buffer, "\n")`: newlines in front are skipped and stay, and the token
-- behind them is ended.
pub strtok : List ℕ → List ℕ
unfolding token
strtok [] = []
strtok (c ∷ cs) = if c == newline then c ∷ strtok cs else c ∷ token cs

-- The buffer after `fgets(buffer, room + 1, stdin); strtok(buffer, "\n");`, and what is left to
-- read. At the end of the input `fgets` leaves the buffer alone.
unfoldable pub next_line : (room : ℕ) → (buffer stdin : List ℕ) → List ℕ × List ℕ
unfolding fgets strtok
next_line room buffer [] = (strtok buffer, [])
next_line room buffer (c ∷ cs) = let (line, rest) = fgets room (c ∷ cs) in (strtok line, rest)

-- The same calls on a whole array, with what stands behind the end of the string. `fgets` puts the
-- line and a NUL over the front of the array, or does nothing at the end of the input.
pub overlay : List ℕ → List ℕ → List ℕ
overlay xs [] = []
overlay [] (b ∷ bs) = b ∷ bs
overlay (x ∷ xs) (b ∷ bs) = x ∷ overlay xs bs

unfoldable pub fgets_array : (room : ℕ) → (array stdin : List ℕ) → List ℕ
unfolding fgets overlay
fgets_array room array [] = array
fgets_array room array (c ∷ cs) = overlay ((fgets room (c ∷ cs)).0 ++ 0 ∷ []) array

-- `strtok` on an array: the first newline behind a token is made a NUL.
pub end_token : List ℕ → List ℕ
end_token [] = []
end_token (c ∷ cs) = if c == 0 then c ∷ cs else if c == newline then 0 ∷ cs else c ∷ end_token cs

unfoldable pub strtok_array : List ℕ → List ℕ
unfolding end_token
strtok_array [] = []
strtok_array (c ∷ cs) =
    if c == 0 then c ∷ cs else if c == newline then c ∷ strtok_array cs else c ∷ end_token cs

-- `strncmp(text, "0", 1) == 0`
abbrev pub is_zero : List ℕ → Bool
is_zero [] = false
is_zero (c ∷ cs) = c == b'0'

-- `fgets` reads no more than there is room for, and takes exactly what it reads.
pub fgets_lem :
    (room : ℕ) (stdin : List ℕ)
    → ((fgets room stdin).0 ++ (fgets room stdin).1 ≡ stdin) × (length (fgets room stdin).0 ≤ room)
unfolding fgets
fgets_lem zero stdin = (refl, omega arith)
fgets_lem (suc room) [] = (refl, omega arith)
fgets_lem (suc room) (c ∷ cs) = ground (arith, fgets_lem room cs)

-- No byte is the digit 0.
abbrev pub NoZero : List ℕ → Type 0
NoZero = All (λ c. c ≢ b'0')

NoZero-fgets :
    (room : ℕ) (stdin : List ℕ)
    → NoZero stdin
    → NoZero (fgets room stdin).0 × NoZero (fgets room stdin).1
unfolding fgets
NoZero-fgets zero stdin h = (tt, h)
NoZero-fgets (suc room) [] h = (tt, tt)
NoZero-fgets (suc room) (c ∷ cs) h = elim (Bool-cases (c == newline)) [
  | inl e ↦ rw e ((h.0, tt), h.1)
  | inr e ↦ let (line, rest) = NoZero-fgets room cs h.1 in rw e ((h.0, line), rest)
]

NoZero-token : (s : List ℕ) → NoZero s → NoZero (token s)
unfolding token
NoZero-token [] h = tt
NoZero-token (c ∷ cs) h = elim (Bool-cases (c == newline)) [
  | inl e ↦ rw e tt
  | inr e ↦ rw e (h.0, NoZero-token cs h.1)
]

NoZero-strtok : (s : List ℕ) → NoZero s → NoZero (strtok s)
unfolding strtok
NoZero-strtok [] h = tt
NoZero-strtok (c ∷ cs) h = elim (Bool-cases (c == newline)) [
  | inl e ↦ rw e (h.0, NoZero-strtok cs h.1)
  | inr e ↦ rw e (h.0, NoZero-token cs h.1)
]

-- A line holds no 0 if neither the old buffer nor the input does.
pub next_line-NoZero :
    (room : ℕ) (buffer stdin : List ℕ)
    → NoZero buffer
    → NoZero stdin
    → NoZero (next_line room buffer stdin).0 × NoZero (next_line room buffer stdin).1
unfolding next_line
next_line-NoZero room buffer [] h k = (NoZero-strtok buffer h, tt)
next_line-NoZero room buffer (c ∷ cs) h k =
    let (line, rest) = NoZero-fgets room (c ∷ cs) k in
    (NoZero-strtok (fgets room (c ∷ cs)).0 line, rest)

-- The bytes that `std::cin.getline(array, room + 1)` reads: up to `room`, and before a newline.
pub line : (room : ℕ) → List ℕ → List ℕ
line zero stdin = []
line (suc room) [] = []
line (suc room) (c ∷ cs) = if c == newline then [] else c ∷ line room cs

-- The array after `std::cin.getline(array, room + 1)`, where `good` says whether the stream has not
-- failed before. In either case a NUL ends what is stored.
unfoldable pub getline_array : (room : ℕ) → (array : List ℕ) → (good : Bool) → List ℕ → List ℕ
unfolding line overlay
getline_array room array good stdin =
    overlay ((if good then line room stdin else []) ++ 0 ∷ []) array

-- None of these calls leaves the array.
pub length-overlay : (xs array : List ℕ) → length (overlay xs array) ≡ length array
unfolding overlay
length-overlay xs [] = refl
length-overlay [] (b ∷ bs) = refl
length-overlay (x ∷ xs) (b ∷ bs) = ap suc (length-overlay xs bs)

-- Bytes as many as the array has replace it.
pub overlay_whole : (xs array : List ℕ) → length xs ≡ length array → overlay xs array ≡ xs
unfolding overlay
overlay_whole [] [] h = refl
overlay_whole [] (b ∷ bs) h = absurd (omega arith)
overlay_whole (x ∷ xs) [] h = absurd (omega arith)
overlay_whole (x ∷ xs) (b ∷ bs) h = ap (λ ys. x ∷ ys) (overlay_whole xs bs (omega arith))

pub length-fgets_array :
    (room : ℕ) (array stdin : List ℕ) → length (fgets_array room array stdin) ≡ length array
unfolding fgets_array
length-fgets_array room array [] = refl
length-fgets_array room array (c ∷ cs) = length-overlay _ array

length-end_token : (array : List ℕ) → length (end_token array) ≡ length array
unfolding end_token
length-end_token [] = refl
length-end_token (c ∷ cs) = ground (arith, length-end_token cs)

pub length-strtok_array : (array : List ℕ) → length (strtok_array array) ≡ length array
unfolding strtok_array
length-strtok_array [] = refl
length-strtok_array (c ∷ cs) = ground (arith, length-strtok_array cs, length-end_token cs)

pub length-getline_array :
    (room : ℕ) (array : List ℕ) (good : Bool) (stdin : List ℕ)
    → length (getline_array room array good stdin) ≡ length array
unfolding getline_array
length-getline_array room array good stdin = length-overlay _ array
