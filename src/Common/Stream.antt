-- ===== src/Common/Stream.antt =====
-- One direction of a connection of <sys/socket.h> with SOCK_STREAM, as an interface: the bytes put
-- into it come out in order, and a read takes any number of those that have come. A write blocks
-- while there is no room.
use mathlib.Core.Path.{◌≡◌, refl}
use mathlib.Core.List.{List, [], ◌∷◌, ◌++◌}
use Prim.Native.Nat.{ℕ, zero, suc}
use posix_intro.Common.Lists.{length}

pub record Stream : Type 1 where
  pub Flow : Type 0
  pub bytes : Flow → List ℕ
  pub empty : Flow
  pub CanPut : Flow → Type 0
  pub put : Flow → List ℕ → Flow
  pub take : Flow → ℕ → Flow
  pub bytes-empty : bytes empty ≡ []
  pub CanPut_of_empty : (f : Flow) → bytes f ≡ [] → CanPut f
  pub bytes-put : (f : Flow) (xs : List ℕ) → CanPut f → bytes (put f xs) ≡ bytes f ++ xs
  pub bytes-take :
      (f : Flow) (xs ys : List ℕ) → bytes f ≡ xs ++ ys → bytes (take f (length xs)) ≡ ys

abbrev pub drop : ℕ → List ℕ → List ℕ
drop zero xs = xs
drop (suc n) [] = []
drop (suc n) (x ∷ xs) = drop n xs

drop-append : (xs ys : List ℕ) → drop (length xs) (xs ++ ys) ≡ ys
drop-append [] ys = refl
drop-append (x ∷ xs) ys = drop-append xs ys

pub drop_of_append : (f xs ys : List ℕ) → f ≡ xs ++ ys → drop (length xs) f ≡ ys
drop_of_append f xs ys e = rw e (drop-append xs ys)

-- A stream that is its bytes, with room for any number, for the tests.
abbrev pub list_stream : Stream
list_stream = record {
  Flow = List ℕ;
  bytes = λ f. f;
  empty = [];
  CanPut = λ f. Unit {0};
  put = λ f xs. f ++ xs;
  take = λ f n. drop n f;
  bytes-empty = refl;
  CanPut_of_empty = λ f e. tt;
  bytes-put = λ f xs h. refl;
  bytes-take = drop_of_append;
}
