-- ===== src/Pipe/Phases.antt =====
-- Where the two processes of twowaypipe.c stand to each other while no signal comes: who has the
-- turn, and what the pipes hold.
use posix_intro.Common.{
  ℕ, ◌≡◌, refl, ◌⊎◌, inl, inr, true, false, Bool-cases, arith, List, [], ◌∷◌, ◌++◌,
}
use posix_intro.Common.Stdio.{is_zero}
use posix_intro.Pipe.{
  Pc, prompting, writing, reading, last_writing, closing, half_closed, finished, killed, after_read,
}

-- What a process is about to do for the other one.
pub data Stage : Type 0 where
  speaks listens ends left gone : Stage

abbrev pub stage : Pc → Stage
stage prompting = speaks
stage writing = speaks
stage reading = listens
stage last_writing = ends
stage closing = left
stage half_closed = left
stage finished = left
stage killed = gone

abbrev pub Messages : Type 0
Messages = List (List ℕ)

abbrev pub NoMessage : (i o : Messages) → Type 0
NoMessage i o = (i ≡ []) × (o ≡ [])

-- A last text that nobody will read.
abbrev pub OneZero : (i o : Messages) → Type 0
OneZero i o = (m : List ℕ) × (is_zero m ≡ true) × (i ≡ m ∷ []) × (o ≡ [])

-- What two processes at these stages hold in their arrays `pm` and `qm`, where the first reads the
-- pipe `i` and writes the pipe `o`.
abbrev pub Phase : Stage → Stage → (pm qm : List ℕ) → (i o : Messages) → Type 0
Phase speaks listens pm qm i o = NoMessage i o
Phase listens speaks pm qm i o = NoMessage i o
Phase listens listens pm qm i o = ((i ≡ []) × (o ≡ pm ∷ [])) ⊎ ((i ≡ qm ∷ []) × (o ≡ []))
Phase listens ends pm qm i o = (is_zero qm ≡ true) × NoMessage i o
Phase ends listens pm qm i o = (is_zero pm ≡ true) × NoMessage i o
Phase listens left pm qm i o = (is_zero qm ≡ true) × (i ≡ qm ∷ []) × (o ≡ [])
Phase left listens pm qm i o = (is_zero pm ≡ true) × (i ≡ []) × (o ≡ pm ∷ [])
Phase ends left pm qm i o = (is_zero pm ≡ true) × NoMessage i o
Phase left ends pm qm i o = (is_zero qm ≡ true) × NoMessage i o
Phase left left pm qm i o = OneZero i o ⊎ OneZero o i
Phase left gone pm qm i o = NoMessage i o
Phase gone left pm qm i o = NoMessage i o
Phase _ _ pm qm i o = ⊥

module _ (pm qm : List ℕ) (i o : Messages) where
  pub Phase-swap : (a b : Stage) → Phase a b pm qm i o → Phase b a qm pm o i
  Phase-swap speaks listens h = (h.1, h.0)
  Phase-swap listens speaks h = (h.1, h.0)
  Phase-swap listens listens (inl h) = inr (h.1, h.0)
  Phase-swap listens listens (inr h) = inl (h.1, h.0)
  Phase-swap listens ends h = (h.0, (h.1.1, h.1.0))
  Phase-swap ends listens h = (h.0, (h.1.1, h.1.0))
  Phase-swap listens left h = (h.0, h.2, h.1)
  Phase-swap left listens h = (h.0, h.2, h.1)
  Phase-swap ends left h = (h.0, (h.1.1, h.1.0))
  Phase-swap left ends h = (h.0, (h.1.1, h.1.0))
  Phase-swap left left (inl h) = inr h
  Phase-swap left left (inr h) = inl h
  Phase-swap left gone h = (h.1, h.0)
  Phase-swap gone left h = (h.1, h.0)
  Phase-swap speaks _ h = absurd h
  Phase-swap listens gone h = absurd h
  Phase-swap ends _ h = absurd h
  Phase-swap left speaks h = absurd h
  Phase-swap gone _ h = absurd h

  pub fills_Phase : (m : List ℕ) (b : Stage) → Phase speaks b pm qm i o → Phase speaks b m qm i o
  fills_Phase m listens h = h
  fills_Phase m _ h = absurd h

  pub writes_Phase : (b : Stage) → Phase speaks b pm qm i o → Phase listens b pm qm i (o ++ pm ∷ [])
  writes_Phase listens h = inl (h.0, rw (h.1) refl)
  writes_Phase _ h = absurd h

  pub last_Phase : (b : Stage) → Phase ends b pm qm i o → Phase left b pm qm i (o ++ pm ∷ [])
  last_Phase listens h = (h.0, h.1.0, rw (h.1.1) refl)
  last_Phase left h = inr (pm, h.0, rw (h.1.1) refl, h.1.0)
  last_Phase _ h = absurd h

-- The text `m` is taken from the pipe `m ∷ ms`.
module _ (pm qm m : List ℕ) (ms o : Messages) where
  reads_zero :
      (b : Stage) → Phase listens b pm qm (m ∷ ms) o → is_zero m ≡ true → Phase ends b m qm ms o
  reads_zero speaks h z = cc
  reads_zero listens (inl h) z = cc
  reads_zero listens (inr h) z = (z, (ground arith, h.1))
  reads_zero ends h z = cc
  reads_zero left h z = (z, (ground arith, h.2))
  reads_zero gone h z = absurd h

  reads_other :
      (b : Stage) → Phase listens b pm qm (m ∷ ms) o → is_zero m ≡ false → Phase speaks b m qm ms o
  reads_other speaks h z = cc
  reads_other listens (inl h) z = cc
  reads_other listens (inr h) z = (ground arith, h.1)
  reads_other ends h z = cc
  reads_other left h z = absurd (ground arith)
  reads_other gone h z = absurd h

  pub reads_Phase :
      (b : Stage) → Phase listens b pm qm (m ∷ ms) o → Phase (stage (after_read m)) b m qm ms o
  reads_Phase b h = elim (Bool-cases (is_zero m)) [
    | inl z ↦ rw z (reads_zero b h z)
    | inr z ↦ rw z (reads_other b h z)
  ]
