-- ===== src/Warehouse/Queue.antt =====
-- What the warehouse of c/c_lab05_b.c is for: a bounded queue between trucks and workers. This is
-- the specification; the program is in Warehouse and Warehouse.System.
use posix_intro.Common.{
  ℕ, ℤ, Option, none, some, List, [], ◌∷◌, ◌++◌, ltb, ◌≡◌, ◌<◌, arith, if◌then◌else◌, length, eq_ℤ,
  eq_ℤ_refl, Option-cases, inl, inr,
}
use posix_intro.Warehouse.{buffer_len}
use Prim.Native.String.{String}

-- What an observer sees of one step of the program.
pub data Event : Type 0 where
  -- A step that neither touches the buffer nor writes.
  quiet : Event
  -- `add_to_buffer(item)`, and a `remove_from_buffer()` that returns `item`.
  added taken : (item : ℤ) → Event
  -- The characters that `print_buffer` writes.
  shown : List ℕ → Event
  -- The line of `producer`, of `consumer` and of `consume`: who, and the item's name.
  truck_line worker_line sending_line : ℕ → String → Event

-- One event against the queue of the items that wait, oldest first: `none` if the queue does not
-- allow it. An item enters only below the bound, and only the oldest leaves.
unfoldable pub accept : Event → List ℤ → Option (List ℤ)
accept (added item) q = if ltb (length q) buffer_len then some (q ++ item ∷ []) else none
accept (taken item) [] = none
accept (taken item) (oldest ∷ q) = if eq_ℤ oldest item then some q else none
accept _ q = some q

-- The events of a run, in order, from this queue on.
unfoldable pub replay : List Event → List ℤ → Option (List ℤ)
replay [] q = some q
replay (e ∷ es) q = elim (accept e q) [ none ↦ none | some q' ↦ replay es q' ]

-- The items of a run's `added` events, and of its `taken` events, in order.
unfoldable pub added_items : List Event → List ℤ
added_items [] = []
added_items (added item ∷ es) = item ∷ added_items es
added_items (_ ∷ es) = added_items es

unfoldable pub taken_items : List Event → List ℤ
taken_items [] = []
taken_items (taken item ∷ es) = item ∷ taken_items es
taken_items (_ ∷ es) = taken_items es

-- The oldest item leaves.
pub accept-taken :
    (item oldest : ℤ) (q : List ℤ) → oldest ≡ item → accept (taken item) (oldest ∷ q) ≡ some q
unfolding accept
accept-taken item oldest q e = rw (e, eq_ℤ_refl item)

pub accept-added :
    (item : ℤ) (q : List ℤ) → length q < buffer_len → accept (added item) q ≡ some (q ++ item ∷ [])
unfolding accept
accept-added item q h = ground arith

-- A run that is allowed goes on with an event that is.
pub replay-snoc :
    (es : List Event) (e : Event) (p q r : List ℤ)
    → replay es p ≡ some q
    → accept e q ≡ some r
    → replay (es ++ e ∷ []) p ≡ some r
unfolding replay
replay-snoc [] e p q r h k = ground arith
replay-snoc (f ∷ es) e p q r h k = elim (Option-cases (accept f p)) [
  | inl stuck ↦ absurd (cc (rw (stuck, replay) at h))
  | inr (p', more) ↦ rw (more, replay) (replay-snoc es e p' q r (rw (more, replay) at h) k)
]
