-- ===== src/Monitor/Knocks.antt =====
-- When c/include/simple_monitor.h signals.
use posix_intro.Common.{
  ℕ, zero, suc, ◌+◌, ◌*◌, ◌/◌, ◌%◌, ◌<◌, ◌≡◌, refl, ap, ◌∙◌, ◌==◌, Bool, true, false, List, [], ◌∷◌,
  replicate, arith,
}
use posix_intro.Monitor.{
  max_num, Monitor, begin_wait, end_wait, monitor_knock, Section, waits, returns, knocks, one_if,
  run,
}

-- The knocks of a sequence behind which some thread has begun to wait and none has returned since;
-- the first argument says whether that holds at its start.
pub counted : Bool → List Section → ℕ
counted waited [] = 0
counted waited (waits ∷ rest) = counted true rest
counted waited (returns ∷ rest) = counted false rest
counted waited (knocks ∷ rest) = one_if waited + counted waited rest

knock_counts :
    (m : Monitor)
    → m.cnt < max_num
    → ((monitor_knock m).0.cnt < max_num)
      × ((monitor_knock m).0.somebody_waits ≡ m.somebody_waits)
      × ((monitor_knock m).0.cnt + max_num * one_if (monitor_knock m).1
          ≡ m.cnt + one_if (m.somebody_waits == 1))
unfolding monitor_knock
knock_counts m h = ground arith

knock_sum :
    (c n c' d f i r : ℕ)
    → c' + max_num * d ≡ f + i
    → c + max_num * n ≡ c' + r
    → c + max_num * (d + n) ≡ f + (i + r)
knock_sum c n c' d f i r e e' = omega arith

-- What a knock at the front of a sequence does.
run_knock :
    (rest : List Section) (m : Monitor)
    → run (knocks ∷ rest) m ≡ (
      (run rest (monitor_knock m).0).0,
      one_if (monitor_knock m).1 + (run rest (monitor_knock m).0).1,
    )
unfolding run
run_knock rest m = refl

run_waits : (rest : List Section) (m : Monitor) → run (waits ∷ rest) m ≡ run rest (begin_wait m)
unfolding run
run_waits rest m = refl

run-returns : (rest : List Section) (m : Monitor) → run (returns ∷ rest) m ≡ run rest (end_wait m)
unfolding run
run-returns rest m = refl

run_none : (m : Monitor) → run [] m ≡ (m, 0)
unfolding run
run_none m = refl

-- What `m` and the number of signals `n` come to, against the knocks of `ops`.
Counts : (ops : List Section) (m m' : Monitor) (n : ℕ) → Type 0
Counts ops m m' n =
    (m'.cnt < max_num) × (m'.cnt + max_num * n ≡ m.cnt + counted (m.somebody_waits == 1) ops)

run-Counts :
    (ops : List Section) (m : Monitor) → m.cnt < max_num → Counts ops m (run ops m).0 (run ops m).1
unfolding counted Counts begin_wait end_wait
run-Counts [] m h = rw (run_none m) (h, omega arith)
run-Counts (waits ∷ rest) m h = rw (run_waits rest m) (run-Counts rest (begin_wait m) h)
run-Counts (returns ∷ rest) m h = rw (run-returns rest m) (run-Counts rest (end_wait m) h)
run-Counts (knocks ∷ rest) m h =
    let (low, same, sum) = knock_counts m h in
    let (low', sum') = run-Counts rest (monitor_knock m).0 low in
    rw (run_knock rest m) (
      low',
      knock_sum (run rest (monitor_knock m).0).0.cnt (run rest (monitor_knock m).0).1 _ _ _ _ _ sum
          (sum' ∙ ap (λ w. (monitor_knock m).0.cnt + counted (w == 1) rest) same),
    )

-- From any state with fewer than MAX_NUM knocks, whatever the sections that follow: a signal is sent
-- at every MAX_NUM-th counted knock and at no other, a knock counting if a thread has begun to wait
-- since the last one returned; and `cnt` holds the counted knocks since the last signal.
pub run-signals :
    (ops : List Section) (m : Monitor)
    → m.cnt < max_num
    → let total = m.cnt + counted (m.somebody_waits == 1) ops in
      ((run ops m).1 ≡ total / max_num) × ((run ops m).0.cnt ≡ total % max_num)
unfolding Counts
run-signals ops m h = let (low, sum) = run-Counts ops m h in (omega arith, omega arith)

knock_idle : (m : Monitor) → m.somebody_waits ≡ 0 → monitor_knock m ≡ (m, false)
unfolding monitor_knock
knock_idle m h = ground arith

unheard : (k : ℕ) (m : Monitor) → m.somebody_waits ≡ 0 → run (replicate k knocks) m ≡ (m, 0)
unheard zero m h = run_none m
unheard (suc k) m h =
    run_knock (replicate k knocks) m ∙ rw (knock_idle m h) (rw (unheard k m h) refl)

-- Where two threads or more wait and one returns, no number of knocks that follow sends a signal, and
-- a thread still waits.
pub returns-forgets :
    (m : Monitor) (k : ℕ)
    → 1 < m.sleeping
    → ((run (returns ∷ replicate k knocks) m).1 ≡ 0)
      × (0 < (run (returns ∷ replicate k knocks) m).0.sleeping)
unfolding end_wait
returns-forgets m k h =
    rw (run-returns (replicate k knocks) m, unheard k (end_wait m) refl) (refl, omega arith)
