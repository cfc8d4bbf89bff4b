-- ===== src/Warehouse/Invariant/Contents.antt =====
-- What the buffer of c/c_lab05_b.c holds, and what each thread carries.
use posix_intro.Common.{
  ℕ, ◌+◌, ◌≤◌, ◌<◌, ◌≡◌, refl, Bool, true, false, ltb, ◌==◌, some, ℤ, inl, inr, List, [], ◌∷◌, ◌++◌,
  arith, length, length-append, Bool-cases, sym,
}
use posix_intro.Common.Threads.{move}
use posix_intro.Semaphore.{SemaphoreApi}
use posix_intro.Warehouse.{buffer_len, remove_from_buffer}
use posix_intro.Warehouse.Queue.{Event, added, taken, accept, accept-taken, accept-added}
use posix_intro.Warehouse.Ring.{
  IsItem, Holds, produce-IsItem, add_to_buffer-Holds, remove_from_buffer-Holds, print_buffer-Holds,
}
use posix_intro.Warehouse.System.{
  Pc, producing, waits_empty, truck_waits_lock, adding, truck_printing, truck_reporting,
  truck_posts_lock, posts_full, waits_full, worker_waits_lock, removing, worker_printing,
  worker_reporting, worker_posts_lock, posts_empty, consuming, Shared, Move, produces, adds,
  truck_prints, removes, worker_prints,
}
use posix_intro.Warehouse.Invariant.Sums.{
  Counts, count_bounds, Move-Counts, len_after, claimed, promised,
}

-- A thread's local `item` is an item.
abbrev pub Carries : Pc → Type 0
Carries producing = Unit
Carries posts_full = Unit
Carries waits_full = Unit
Carries worker_waits_lock = Unit
Carries removing = Unit
Carries (waits_empty item) = IsItem item
Carries (truck_waits_lock item) = IsItem item
Carries (adding item) = IsItem item
Carries (truck_printing item) = IsItem item
Carries (truck_reporting item) = IsItem item
Carries (truck_posts_lock item) = IsItem item
Carries (worker_printing item) = IsItem item
Carries (worker_reporting item) = IsItem item
Carries (worker_posts_lock item) = IsItem item
Carries (posts_empty item) = IsItem item
Carries (consuming item) = IsItem item

-- Whether a thread runs `producer`.
abbrev pub is_truck : Pc → Bool
is_truck producing = true
is_truck (waits_empty _) = true
is_truck (truck_waits_lock _) = true
is_truck (adding _) = true
is_truck (truck_printing _) = true
is_truck (truck_reporting _) = true
is_truck (truck_posts_lock _) = true
is_truck posts_full = true
is_truck _ = false

-- The queue after an event that it allows.
abbrev pub queue_after : Event → List ℤ → List ℤ
queue_after (added item) q = q ++ item ∷ []
queue_after (taken item) [] = []
queue_after (taken item) (oldest ∷ q) = q
queue_after _ q = q

length-queue_after : (e : Event) (q : List ℤ) → length (queue_after e q) ≡ len_after e (length q)
length-queue_after (added item) q = length-append q (item ∷ [])
length-queue_after (taken item) [] = omega arith
length-queue_after (taken item) (oldest ∷ q) = omega arith
length-queue_after _ q = refl

module _ (api : SemaphoreApi) where
  pub record Inv (n trucks : ℕ) (m : Shared api) (pcs : ℕ → Pc) (q : List ℤ) : Type 0 where
    pub counts : Counts api n m pcs (length q)
    pub holds : Holds m.store q
    pub carries : (i : ℕ) → Carries (pcs i)
    pub roles : (i : ℕ) → is_truck (pcs i) ≡ ltb i trucks

  -- What a move does to the buffer, to the mover's item and to its role.
  record Done (q : List ℤ) (e : Event) (m' : Shared api) (p p' : Pc) : Type 0 where
    allowed : accept e q ≡ some (queue_after e q)
    holds : Holds m'.store (queue_after e q)
    carries : Carries p'
    role : is_truck p' ≡ is_truck p

  removed :
      {m : Shared api} (q : List ℤ)
      → Holds m.store q
      → 1 ≤ length q
      → Done q
          (taken (remove_from_buffer m.store).0)
          (record m { store = (remove_from_buffer m.store).1 })
          removing
          (worker_printing (remove_from_buffer m.store).0)
  removed {m} [] h pos = elim pos [ ]
  removed {m} (oldest ∷ q) h pos =
      let (same, left) = remove_from_buffer-Holds m.store oldest q h in
      let same' : oldest ≡ (remove_from_buffer m.store).0 = sym same in
      record {
        allowed = accept-taken _ oldest q same';
        holds = left;
        carries = rw same h.items.0;
        role = refl;
      }

  Move-Done :
      {m m' : Shared api} {id : ℕ} {e : Event} {p p' : Pc} (q : List ℤ)
      → Move api m id p e m' p'
      → Holds m.store q
      → Carries p
      → length q + claimed p ≤ buffer_len
      → promised p ≤ length q
      → Done q e m' p p'
  unfolding accept
  Move-Done q (produces r) h c room there = record {
    allowed = refl;
    holds = h;
    carries = produce-IsItem r;
    role = refl;
  }
  Move-Done {m} q (adds {item}) h c room there = record {
    allowed = accept-added item q (omega arith);
    holds = add_to_buffer-Holds m.store q item h (omega arith) c;
    carries = c;
    role = refl;
  }
  Move-Done {m} q truck_prints h c room there = record {
    allowed = refl;
    holds = print_buffer-Holds m.store q h;
    carries = c;
    role = refl;
  }
  Move-Done {m} q worker_prints h c room there = record {
    allowed = refl;
    holds = print_buffer-Holds m.store q h;
    carries = c;
    role = refl;
  }
  Move-Done q removes h c room there = removed q h there
  Move-Done q mv h c room there = record {
    allowed = refl;
    holds = h;
    carries = assumption c;
    role = refl;
  }

  -- Every move of a thread is one that the queue allows, and keeps the invariant.
  pub Move-Inv :
      {n trucks id : ℕ} {m m' : Shared api} {pcs : ℕ → Pc} {e : Event} {p' : Pc} {q : List ℤ}
      (i : ℕ)
      → i < n
      → Inv n trucks m pcs q
      → Move api m id (pcs i) e m' p'
      → (accept e q ≡ some (queue_after e q)) × Inv n trucks m' (move pcs i p') (queue_after e q)
  Move-Inv {m' = m'} {pcs = pcs} {e = e} {p' = p'} {q = q} i lt inv mv = (
    done.allowed,
    record {
      counts = rw (length-queue_after e q) (Move-Counts api inv.counts i lt mv);
      holds = done.holds;
      carries = λ j. elim (Bool-cases (j == i)) [
        | inl e ↦ rw e done.carries
        | inr e ↦ rw e (inv.carries j)
      ];
      roles = λ j. elim (Bool-cases (j == i)) [
        | inl e ↦ ground (arith, inv.roles i, done.role)
        | inr e ↦ rw e (inv.roles j)
      ];
    },
  )
    where
      done : Done q e m' (pcs i) p'
      done =
          let b = count_bounds api inv.counts i lt in
          Move-Done q mv inv.holds (inv.carries i) b.room_left b.item_there
