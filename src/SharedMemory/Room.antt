-- ===== src/SharedMemory/Room.antt =====
-- The writer stays inside the bytes of the mapping that can be accessed, or is ended at their end.
use posix_intro.Common.{
  whole_pages, ℕ, ◌≤◌, ◌<◌, ◌≡◌, refl, arith, List, Bool-cases, inl, inr, ◌==◌,
}
use posix_intro.Semaphore.{SemaphoreApi}
use posix_intro.SharedMemory.{
  file_len, end_char, Writer, greeted, greets, waits, reads, checks, posts, tests, ended, faulted,
  Event, SemOpen, System, Step, meets, passes_on, takes, types, faults, checks_running, hands_over,
  tests_end, opens, receives, prints, allows, compares, handles, breaks_meeting, breaks_wait, Runs,
  start, later,
}

abbrev pub RoomAt : ℕ → Writer → Type 0
RoomAt room greeted = Unit
RoomAt room greets = Unit
RoomAt room (waits i) = i ≤ room
RoomAt room (reads i) = i ≤ room
RoomAt room (checks i) = i < room
RoomAt room (posts i) = i < room
RoomAt room (tests i) = i < room
RoomAt room (ended i) = i < room
RoomAt room (faulted i) = i ≡ room

module _ (api : SemaphoreApi) (named : SemOpen api) where
  Step-RoomAt :
      {e : Event} {s t : System api named}
      → Step api named s e t
      → RoomAt s.room s.writer
      → RoomAt t.room t.writer
  Step-RoomAt (meets at h) in_room = tt
  Step-RoomAt (passes_on at) in_room = omega arith
  Step-RoomAt (takes at h) in_room = rw at at in_room
  Step-RoomAt (types c at lt) in_room = lt
  Step-RoomAt {s = s} (faults {i} at ge) in_room =
      let most : i ≤ s.room = rw at at in_room in omega arith
  Step-RoomAt (checks_running at) in_room = rw at at in_room
  Step-RoomAt (hands_over at) in_room = rw at at in_room
  Step-RoomAt {s = s} (tests_end {i} at) in_room =
      let inside : i < s.room = rw at at in_room in
      elim (Bool-cases (s.memory i == end_char)) [
        | inl e ↦ rw e inside
        | inr e ↦ rw e (omega arith)
      ]
  Step-RoomAt (opens at) in_room = in_room
  Step-RoomAt (receives at h) in_room = in_room
  Step-RoomAt (prints at) in_room = in_room
  Step-RoomAt (allows at) in_room = in_room
  Step-RoomAt (compares at) in_room = in_room
  Step-RoomAt handles in_room = in_room
  Step-RoomAt (breaks_meeting at) in_room = tt
  Step-RoomAt (breaks_wait at) in_room = rw at at in_room

  pub Runs-RoomAt :
      {es : List Event} {s : System api named} → Runs api named es s → RoomAt s.room s.writer
  Runs-RoomAt (start memory le e) = tt
  Runs-RoomAt (later r st) = Step-RoomAt st (Runs-RoomAt r)

  -- The pages of FILE_LEN bytes bound them.
  Step-room : {e : Event} {s t : System api named} → Step api named s e t → t.room ≡ s.room
  Step-room (meets at h) = refl
  Step-room (passes_on at) = refl
  Step-room (takes at h) = refl
  Step-room (types c at lt) = refl
  Step-room (faults at ge) = refl
  Step-room (checks_running at) = refl
  Step-room (hands_over at) = refl
  Step-room (tests_end at) = refl
  Step-room (opens at) = refl
  Step-room (receives at h) = refl
  Step-room (prints at) = refl
  Step-room (allows at) = refl
  Step-room (compares at) = refl
  Step-room handles = refl
  Step-room (breaks_meeting at) = refl
  Step-room (breaks_wait at) = refl

  pub Runs-room :
      {es : List Event} {s : System api named} → Runs api named es s → s.room ≤ whole_pages file_len
  Runs-room (start memory le e) = le
  Runs-room (later r st) = omega (arith, Runs-room r, Step-room st)
