-- ===== src/Common/Channel.antt =====
-- A first-in first-out channel of messages that the system keeps between two processes, as an
-- interface: a message queue of <sys/msg.h> with messages of one type, or a pipe that is written and
-- read in blocks of one size, none above PIPE_BUF. A send blocks while there is no room.
use mathlib.Core.Path.{◌≡◌, refl}
use mathlib.Core.List.{List, [], ◌∷◌, ◌++◌}
use Prim.Native.Nat.{ℕ}

pub record Channel : Type 1 where
  pub Queue : Type 0
  pub contents : Queue → List (List ℕ)
  pub empty : Queue
  pub CanSend : Queue → Type 0
  pub send : Queue → List ℕ → Queue
  pub receive : Queue → Queue
  pub contents-empty : contents empty ≡ []
  pub CanSend_of_empty : (q : Queue) → contents q ≡ [] → CanSend q
  pub contents-send :
      (q : Queue) (m : List ℕ) → CanSend q → contents (send q m) ≡ contents q ++ m ∷ []
  pub contents-receive :
      (q : Queue) (m : List ℕ) (ms : List (List ℕ))
      → contents q ≡ m ∷ ms
      → contents (receive q) ≡ ms

abbrev pub drop_first : List (List ℕ) → List (List ℕ)
drop_first [] = []
drop_first (m ∷ ms) = ms

pub drop_first_lem :
    (q : List (List ℕ)) (m : List ℕ) (ms : List (List ℕ)) → q ≡ m ∷ ms → drop_first q ≡ ms
drop_first_lem q m ms e = rw e refl

-- A channel that is its contents, with room for any number of messages, for the tests.
abbrev pub list_channel : Channel
list_channel = record {
  Queue = List (List ℕ);
  contents = λ q. q;
  empty = [];
  CanSend = λ q. Unit {0};
  send = λ q m. q ++ m ∷ [];
  receive = drop_first;
  contents-empty = refl;
  CanSend_of_empty = λ q e. tt;
  contents-send = λ q m h. refl;
  contents-receive = drop_first_lem;
}
