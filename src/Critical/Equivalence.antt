-- ===== src/Critical/Equivalence.antt =====
-- Which lock the threads meet at makes no difference to what they can do.
use posix_intro.Common.{ℕ, ◌+◌, ◌≡◌, ap, sym, ◌∙◌, List, arith}
use posix_intro.Common.Threads.{move, weight-le-tally}
use posix_intro.Locks.{Lock}
use posix_intro.Critical.{Event, System, Step, enters, leaves, says, numbers, Runs, start, later}
use posix_intro.Critical.Exclusion.{holder, Inv, CanStart, Runs-Inv}

module _ (a b : Lock) {Line : Type 0} where
  -- The same threads at the same places, with the lock as free.
  pub record Same (s : System a Line) (t : System b Line) : Type 0 where
    pub same_units : a.units s.state ≡ b.units t.state
    pub same_counter : s.counter ≡ t.counter
    pub same_rest : s.rest ≡ t.rest

  Step-Same :
      {n : ℕ} {s : System a Line} {e : Event Line} {s' : System a Line} (t : System b Line)
      → Step a Line n s e s'
      → Inv a n s
      → Same s t
      → (t' : System b Line) × Step b Line n t e t' × Same s' t'
  Step-Same {s = s} t (enters i {p} lt at w) inv same =
      let (t', w') = b.Takes-of_pos t.state (omega (arith, a.Takes-units w)) in
      (
        _,
        enters i lt (rw (← same.same_rest) at) w',
        record {
          same_units = omega (arith, same.same_units, a.Takes-units w, b.Takes-units w');
          same_counter = same.same_counter;
          same_rest = ap (λ r. move r i p) same.same_rest;
        },
      )
  Step-Same {n} {s = s} t (leaves i {p} lt at) inv same =
      let held : a.units s.state ≡ 0 =
        ground (arith, inv.token, weight-le-tally holder n s.rest i lt) in
      (
        _,
        leaves i lt (rw (← same.same_rest) at),
        record {
          same_units = a.units-gives s.state held ∙ sym (b.units-gives t.state (omega arith));
          same_counter = same.same_counter;
          same_rest = ap (λ r. move r i p) same.same_rest;
        },
      )
  Step-Same {s = s} t (says i {p} {l} lt at) inv same = (
    _,
    says i lt (rw (← same.same_rest) at),
    record {
      same_units = same.same_units;
      same_counter = same.same_counter;
      same_rest = ap (λ r. move r i p) same.same_rest;
    },
  )
  Step-Same {n} {s = s} t (numbers i {p} {f} lt at) inv same = (
    _,
    rw same.same_counter (numbers i {p = p} {f = f} lt (rw (← same.same_rest) at)),
    record {
      same_units = same.same_units;
      same_counter = ap (λ c. c + 1) same.same_counter;
      same_rest = ap (λ r. move r i p) same.same_rest;
    },
  )

  -- Every run with the first lock is, event for event, a run with the second one.
  pub Runs-Same :
      {n : ℕ} {s : System a Line} {es : List (Event Line)} {s' : System a Line} (t : System b Line)
      → CanStart a s
      → Same s t
      → Runs a Line n s es s'
      → (t' : System b Line) × Runs b Line n t es t' × Same s' t'
  Runs-Same t c same start = (t, start, same)
  Runs-Same t c same (later r st) =
      let (u, r', same') = Runs-Same t c same r in
      let (u', st', same'') = Step-Same u st (Runs-Inv a c r) same' in (u', later r' st', same'')
