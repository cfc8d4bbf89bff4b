-- ===== src/Common.antt =====
-- Names that every part of the development shares: those of the libraries, and those of the
-- children for Boolean tests, C arrays as lists, C signed integers and memory pages. The other children are
-- named where they are used: Outcome (exits with a message), Channel and Stream (what message
-- queues, pipes and sockets promise), Stdio (lines read) and Threads (indexed families of threads).
mod Tests
mod Lists
mod Int
mod Pages
pub mod Outcome
pub mod Channel
pub mod Stream
pub mod Stdio
pub mod Threads
pub use Tests.*
pub use Lists.*
pub use Int.*
pub use Pages.*
pub use Prim.Native.Nat.{ℕ, zero, suc, ◌+◌, ◌-◌, ◌*◌, ◌/◌, ◌%◌, ◌^◌, ◌≤◌, ◌<◌}
pub use mathlib.Core.Path.{◌≡◌, refl, sym, ap, ◌∙◌, subst}
pub use mathlib.Core.Logic.{◌≢◌, ◌↔◌, ◌⊎◌, inl, inr}
pub use mathlib.Core.Bool.{Bool, true, false, not, ◌&&◌, ◌||◌}
pub use mathlib.Core.Option.{Option, none, some}
pub use mathlib.Core.List.{List, [], ◌∷◌, ◌++◌, map, append-nil, append_assoc}
pub use native.Mathlib.Omega.{arith}
unfoldable pub use native.Mathlib.Decide.{dec_lt, ℕ_discrete}
