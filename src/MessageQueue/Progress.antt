-- ===== src/MessageQueue/Progress.antt =====
-- The writer and the reader come to their ends together, and the queue is removed when nobody needs
-- it.
use mathlib.Core.List.{head-eq_of_cons-eq, tail-eq_of_cons-eq}
use posix_intro.Common.{
  ℕ, ◌≡◌, ◌≢◌, refl, sym, ◌∙◌, true, ◌⊎◌, inl, inr, List, [], ◌∷◌, ◌++◌, append-nil, append_assoc,
}
use posix_intro.Common.Channel.{Channel}
use posix_intro.Common.Stdio.{is_zero}
use posix_intro.MessageQueue.{
  Writer, inserting, sending, testing, Reader, receiving, displaying, removing, Event, Fill, System,
  Step, inserts, sends, tests, receives, displays, removes, Runs,
}
use posix_intro.MessageQueue.Delivery.{
  sent_texts, shown_texts, taken, AllOpen, EndsWith, Inv, Runs-Inv,
}

append_cons_ne : (before after : List (List ℕ)) (m : List ℕ) → before ++ (m ∷ after) ≢ []
append_cons_ne [] after m e = cc
append_cons_ne (b ∷ before) after m e = cc

-- A text that stops a process is the last of a list with only one such text, at its end.
last_of_open :
    (before after front : List (List ℕ)) (m n : List ℕ)
    → before ++ (m ∷ after) ≡ front ++ n ∷ []
    → AllOpen front
    → is_zero m ≡ true
    → (after ≡ []) × (m ≡ n)
last_of_open [] after [] m n e open_front stop = (tail-eq_of_cons-eq e, head-eq_of_cons-eq e)
last_of_open [] after (f ∷ front) m n e open_front stop =
    let same : m ≡ f = head-eq_of_cons-eq e in absurd (cc (rw same at stop, open_front.0))
last_of_open (b ∷ before) after [] m n e open_front stop =
    absurd (append_cons_ne before after m (tail-eq_of_cons-eq e))
last_of_open (b ∷ before) after (f ∷ front) m n e open_front stop =
    last_of_open before after front m n (tail-eq_of_cons-eq e) open_front.1 stop

not_open :
    (before after : List (List ℕ)) (m : List ℕ)
    → is_zero m ≡ true
    → ¬ AllOpen (before ++ (m ∷ after))
not_open [] after m stop o = absurd (cc (stop, o.0))
not_open (b ∷ before) after m stop o = not_open before after m stop o.1

module _ (ch : Channel) {es : List Event} {s : System ch} (inv : Inv ch es s) where
  -- What is sent, where the reader has shown its last text.
  reader_ended :
      is_zero s.reader_text ≡ true
      → taken s.reader s.reader_text ≡ []
      → (ends : EndsWith s.reader_text (shown_texts es))
      → sent_texts es ≡ ends.before ++ (s.reader_text ∷ ch.contents s.queue)
  reader_ended stop none ends =
      inv.delivered
      ∙ rw (none, ends.splits) (append_assoc ends.before (s.reader_text ∷ []) (ch.contents s.queue))

  -- Then the writer has no more to send, and the queue is empty.
  writer_ended :
      (before : List (List ℕ)) (w : Writer)
      → s.writer ≡ w
      → is_zero s.reader_text ≡ true
      → sent_texts es ≡ before ++ (s.reader_text ∷ ch.contents s.queue)
      → (ch.contents s.queue ≡ [])
        × (s.reader_text ≡ s.writer_text)
        × ((w ≡ testing) ⊎ (w ≡ Writer.stopped))
  writer_ended before inserting at stop e =
      let all : AllOpen (sent_texts es) = rw at at inv.writer_at in
      absurd (not_open before (ch.contents s.queue) s.reader_text stop (rw e at all))
  writer_ended before sending at stop e =
      let all : AllOpen (sent_texts es) = rw at at inv.writer_at in
      absurd (not_open before (ch.contents s.queue) s.reader_text stop (rw e at all))
  writer_ended before testing at stop e =
      let ends : EndsWith s.writer_text (sent_texts es) = rw at at inv.writer_at in
      let (none, same) =
        last_of_open before (ch.contents s.queue) ends.before s.reader_text s.writer_text
          (sym e ∙ ends.splits) ends.is_open stop in
      (none, same, inl refl)
  writer_ended before Writer.stopped at stop e =
      let both : (is_zero s.writer_text ≡ true) × EndsWith s.writer_text (sent_texts es) =
        rw at at inv.writer_at in
      let ends = both.1 in
      let (none, same) =
        last_of_open before (ch.contents s.queue) ends.before s.reader_text s.writer_text
          (sym e ∙ ends.splits) ends.is_open stop in
      (none, same, inr refl)

abbrev pub HasStep : Fill → (ch : Channel) → System ch → Type 0
HasStep fill ch s = (e : Event) × (t : System ch) × Step fill ch s e t

List-cases {ℓ} :
    {A : Type ℓ} (xs : List A) → (xs ≡ []) ⊎ ((x : A) × (rest : List A) × (xs ≡ x ∷ rest))
List-cases [] = inl refl
List-cases (x ∷ xs) = inr (x, xs, refl)

-- Both processes are at their end: the reader has shown all that was sent, of which only the last
-- text stops a process, the queue is empty and removed.
pub record Finished (ch : Channel) (es : List Event) (s : System ch) : Type 0 where
  pub writer_stopped : s.writer ≡ Writer.stopped
  pub reader_stopped : s.reader ≡ Reader.stopped
  pub all_shown : shown_texts es ≡ sent_texts es
  pub last_stops : is_zero s.writer_text ≡ true
  pub ends : EndsWith s.writer_text (sent_texts es)
  pub none_left : ch.contents s.queue ≡ []

module _ (fill : Fill) (ch : Channel) {es : List Event} {s : System ch} (inv : Inv ch es s) where
  reader_step :
      (r : Reader)
      → s.reader ≡ r
      → HasStep fill ch s ⊎ ((r ≡ receiving) × (ch.contents s.queue ≡ [])) ⊎ (r ≡ Reader.stopped)
  reader_step receiving at = elim (List-cases (ch.contents s.queue)) [
    | inl none ↦ inr (inl (refl, none))
    | inr (m, ms, more) ↦ inl (_, _, receives at more)
  ]
  reader_step displaying at = inl (_, _, displays at)
  reader_step removing at = inl (_, _, removes at)
  reader_step Reader.stopped at = inr (inr refl)

  stopped_split :
      s.reader ≡ Reader.stopped
      → (before : List (List ℕ)) × (is_zero s.reader_text ≡ true)
        × (shown_texts es ≡ before ++ s.reader_text ∷ [])
        × (sent_texts es ≡ before ++ (s.reader_text ∷ ch.contents s.queue))
  stopped_split at =
      let both : (is_zero s.reader_text ≡ true) × EndsWith s.reader_text (shown_texts es) =
        rw at at inv.reader_at in
      (both.1.before, both.0, both.1.splits, reader_ended ch inv both.0 (rw at refl) both.1)

  sending_step : s.writer ≡ sending → HasStep fill ch s
  sending_step at = elim (reader_step s.reader refl) [
    | inl step ↦ step
    | inr (inl (waits, none)) ↦ (_, _, sends at (ch.CanSend_of_empty s.queue none))
    | inr (inr done) ↦
        let (before, stop, split, all) = stopped_split done in
        let (none, same, cases) = writer_ended ch inv before sending at stop all in
        (_, _, sends at (ch.CanSend_of_empty s.queue none))
  ]

  all_stopped : s.writer ≡ Writer.stopped → s.reader ≡ Reader.stopped → Finished ch es s
  all_stopped at_w at_r =
      let (before, stop, split, all) = stopped_split at_r in
      let (none, same, cases) = writer_ended ch inv before Writer.stopped at_w stop all in
      let both : (is_zero s.writer_text ≡ true) × EndsWith s.writer_text (sent_texts es) =
        rw at_w at inv.writer_at in
      record {
        writer_stopped = at_w;
        reader_stopped = at_r;
        all_shown = split ∙ sym (all ∙ rw none refl);
        last_stops = both.0;
        ends = both.1;
        none_left = none;
      }

  -- The reader does not wait in vain for a writer that has stopped.
  no_lost_stop : s.writer ≡ Writer.stopped → s.reader ≡ receiving → ch.contents s.queue ≡ [] → ⊥
  no_lost_stop at_w at_r none =
      let both : (is_zero s.writer_text ≡ true) × EndsWith s.writer_text (sent_texts es) =
        rw at_w at inv.writer_at in
      let shown_open : AllOpen (shown_texts es) = rw at_r at inv.reader_at in
      let all : sent_texts es ≡ shown_texts es =
        inv.delivered ∙ rw (at_r, none) (append-nil (shown_texts es)) in
      not_open both.1.before [] s.writer_text both.0 (rw (sym all ∙ both.1.splits) at shown_open)

  next_step : (w : Writer) → s.writer ≡ w → HasStep fill ch s ⊎ Finished ch es s
  next_step inserting at = inl (_, _, inserts at)
  next_step sending at = inl (sending_step at)
  next_step testing at = inl (_, _, tests at)
  next_step Writer.stopped at = elim (reader_step s.reader refl) [
    | inl step ↦ inl step
    | inr (inl (waits, none)) ↦ absurd (no_lost_stop at waits none)
    | inr (inr done) ↦ inr (all_stopped at done)
  ]

module _ (fill : Fill) (ch : Channel) {stdin : List ℕ} {es : List Event} {s : System ch} where
  -- At any time the texts sent are, in order, those shown, then at most one that the reader holds,
  -- then those in the queue.
  pub Runs-delivered :
      Runs fill ch stdin es s
      → sent_texts es ≡ shown_texts es ++ (taken s.reader s.reader_text ++ ch.contents s.queue)
  Runs-delivered r = (Runs-Inv ch r).delivered

  -- The two processes never block each other for good: some process can go on, or both have stopped
  -- and the reader has shown all texts sent, of which only the last begins with 0.
  pub Runs-Finished : Runs fill ch stdin es s → HasStep fill ch s ⊎ Finished ch es s
  Runs-Finished r = next_step fill ch (Runs-Inv ch r) s.writer refl

  -- When the reader removes the queue, it is empty, and the writer has sent its last text.
  pub removing-IsEmpty :
      Runs fill ch stdin es s
      → s.reader ≡ removing
      → (ch.contents s.queue ≡ [])
        × (is_zero s.writer_text ≡ true)
        × ((s.writer ≡ testing) ⊎ (s.writer ≡ Writer.stopped))
  removing-IsEmpty r at =
      let inv = Runs-Inv ch r in
      let both : (is_zero s.reader_text ≡ true) × EndsWith s.reader_text (shown_texts es) =
        rw at at inv.reader_at in
      let (none, same, cases) =
        writer_ended ch inv both.1.before s.writer refl both.0
          (reader_ended ch inv both.0 (rw at refl) both.1) in
      (none, rw same at both.0, cases)
