-- ===== src/MessageQueue/Delivery.antt =====
-- The messages that the reader shows against those that the writer sends.
use posix_intro.Common.{
  ℕ, ◌≡◌, refl, sym, ap, ◌∙◌, true, false, List, [], ◌∷◌, ◌++◌, append-nil, append_assoc,
  Bool-cases, inl, inr, All, All-append,
}
use posix_intro.Common.Channel.{Channel}
use posix_intro.Common.Stdio.{is_zero}
use posix_intro.MessageQueue.{
  Writer, inserting, sending, testing, Reader, receiving, displaying, removing, Event, quiet, sent,
  shown, Fill, System, Step, inserts, sends, tests, receives, displays, removes, Runs, start, later,
}

-- The texts sent and shown in a run.
abbrev pub sent_texts : List Event → List (List ℕ)
sent_texts [] = []
sent_texts (sent m ∷ es) = m ∷ sent_texts es
sent_texts (_ ∷ es) = sent_texts es

abbrev pub shown_texts : List Event → List (List ℕ)
shown_texts [] = []
shown_texts (shown m ∷ es) = m ∷ shown_texts es
shown_texts (_ ∷ es) = shown_texts es

sent_texts-append : (es fs : List Event) → sent_texts (es ++ fs) ≡ sent_texts es ++ sent_texts fs
sent_texts-append [] fs = refl
sent_texts-append (sent m ∷ es) fs = rw (sent_texts-append es fs)
sent_texts-append (_ ∷ es) fs = sent_texts-append es fs

shown_texts-append :
    (es fs : List Event) → shown_texts (es ++ fs) ≡ shown_texts es ++ shown_texts fs
shown_texts-append [] fs = refl
shown_texts-append (shown m ∷ es) fs = rw (shown_texts-append es fs)
shown_texts-append (_ ∷ es) fs = shown_texts-append es fs

-- The text that the reader has taken and not yet shown.
abbrev pub taken : Reader → List ℕ → List (List ℕ)
taken displaying m = m ∷ []
taken _ m = []

-- Texts that do not stop a process.
abbrev pub AllOpen : List (List ℕ) → Type 0
AllOpen = All (λ m. is_zero m ≡ false)

-- What a process at this place has sent, or shown: only open texts, or also a last one that stops
-- it.
pub record EndsWith (m : List ℕ) (ms : List (List ℕ)) : Type 0 where
  pub before : List (List ℕ)
  pub splits : ms ≡ before ++ m ∷ []
  pub is_open : AllOpen before

abbrev pub WriterAt : Writer → List ℕ → List (List ℕ) → Type 0
WriterAt inserting m ms = AllOpen ms
WriterAt sending m ms = AllOpen ms
WriterAt testing m ms = EndsWith m ms
WriterAt Writer.stopped m ms = (is_zero m ≡ true) × EndsWith m ms

abbrev pub ReaderAt : Reader → List ℕ → List (List ℕ) → Type 0
ReaderAt receiving m ms = AllOpen ms
ReaderAt displaying m ms = AllOpen ms
ReaderAt removing m ms = (is_zero m ≡ true) × EndsWith m ms
ReaderAt Reader.stopped m ms = (is_zero m ≡ true) × EndsWith m ms

ends_open : (m : List ℕ) (ms : List (List ℕ)) → EndsWith m ms → is_zero m ≡ false → AllOpen ms
ends_open m ms e open_m =
    rw (e.splits) (All-append (λ n. is_zero n ≡ false) e.before (m ∷ []) e.is_open (open_m, tt))

module _ (ch : Channel) where
  pub record Inv (es : List Event) (s : System ch) : Type 0 where
    pub delivered :
        sent_texts es ≡ shown_texts es ++ (taken s.reader s.reader_text ++ ch.contents s.queue)
    pub writer_at : WriterAt s.writer s.writer_text (sent_texts es)
    pub reader_at : ReaderAt s.reader s.reader_text (shown_texts es)

  -- A step that shows and sends nothing.
  quiet_sent : (es : List Event) → sent_texts (es ++ quiet ∷ []) ≡ sent_texts es
  quiet_sent es = sent_texts-append es (quiet ∷ []) ∙ append-nil _

  quiet_shown : (es : List Event) → shown_texts (es ++ quiet ∷ []) ≡ shown_texts es
  quiet_shown es = shown_texts-append es (quiet ∷ []) ∙ append-nil _

  quiet_Inv :
      (es : List Event) {t : System ch}
      → sent_texts es ≡ shown_texts es ++ (taken t.reader t.reader_text ++ ch.contents t.queue)
      → WriterAt t.writer t.writer_text (sent_texts es)
      → ReaderAt t.reader t.reader_text (shown_texts es)
      → Inv (es ++ quiet ∷ []) t
  quiet_Inv es d w r = record {
    delivered = rw (quiet_sent es, quiet_shown es) d;
    writer_at = rw (quiet_sent es) w;
    reader_at = rw (quiet_shown es) r;
  }

  Step-Inv :
      {fill : Fill} {es : List Event} {e : Event} {s t : System ch}
      → Step fill ch s e t
      → Inv es s
      → Inv (es ++ e ∷ []) t
  Step-Inv {es} (inserts at) inv = quiet_Inv es inv.delivered (rw at at inv.writer_at) inv.reader_at
  Step-Inv {es} {s = s} (sends at can) inv =
      let m = s.writer_text in
      record {
        delivered =
            rw
              (
                sent_texts-append es (sent m ∷ []),
                shown_texts-append es (sent m ∷ []),
                append-nil (shown_texts es),
                ch.contents-send s.queue m can,
                inv.delivered,
              )
              (append_assoc (shown_texts es) (taken s.reader s.reader_text ++ ch.contents s.queue)
                  (m ∷ [])
                ∙ ap (λ ms. shown_texts es ++ ms)
                    (append_assoc (taken s.reader s.reader_text) (ch.contents s.queue) (m ∷ [])));
        writer_at = record {
          before = sent_texts es;
          splits = sent_texts-append es (sent m ∷ []);
          is_open = rw at at inv.writer_at;
        };
        reader_at =
            rw (shown_texts-append es (sent m ∷ []), append-nil (shown_texts es)) inv.reader_at;
      }
  Step-Inv {es} {s = s} (tests at) inv =
      let ends : EndsWith s.writer_text (sent_texts es) = rw at at inv.writer_at in
      elim (Bool-cases (is_zero s.writer_text)) [
        | inl e ↦ rw e (quiet_Inv es inv.delivered (e, ends) inv.reader_at)
        | inr e ↦ rw e (
            quiet_Inv es inv.delivered (ends_open s.writer_text (sent_texts es) ends e)
              inv.reader_at)
      ]
  Step-Inv {es} {s = s} (receives {m} {ms} at some_left) inv =
      quiet_Inv es
        (inv.delivered ∙ rw (at, some_left, ch.contents-receive s.queue m ms some_left) refl)
        inv.writer_at (rw at at inv.reader_at)
  Step-Inv {es} {s = s} (displays at) inv =
      let m = s.reader_text in
      let all : sent_texts (es ++ shown m ∷ [])
          ≡ (shown_texts es ++ m ∷ []) ++ ch.contents s.queue =
        sent_texts-append es (shown m ∷ [])
        ∙ append-nil (sent_texts es)
        ∙ inv.delivered
        ∙ rw at (sym (append_assoc (shown_texts es) (m ∷ []) (ch.contents s.queue))) in
      let before_open : AllOpen (shown_texts es) = rw at at inv.reader_at in
      let ends : EndsWith m (shown_texts es ++ m ∷ []) = record {
        before = shown_texts es;
        splits = refl;
        is_open = before_open;
      } in
      let same : WriterAt s.writer s.writer_text (sent_texts (es ++ shown m ∷ [])) =
        rw (sent_texts-append es (shown m ∷ []), append-nil (sent_texts es)) inv.writer_at in
      elim (Bool-cases (is_zero m)) [
        | inl e ↦ rw e (record {
          delivered = rw (shown_texts-append es (shown m ∷ [])) all;
          writer_at = same;
          reader_at = (e, rw (shown_texts-append es (shown m ∷ [])) ends);
        })
        | inr e ↦ rw e (record {
          delivered = rw (shown_texts-append es (shown m ∷ [])) all;
          writer_at = same;
          reader_at =
              rw (shown_texts-append es (shown m ∷ []))
                (ends_open m (shown_texts es ++ m ∷ []) ends e);
        })
      ]
  Step-Inv {es} (removes at) inv =
      quiet_Inv es (inv.delivered ∙ rw at refl) inv.writer_at (rw at at inv.reader_at)

  pub Runs-Inv :
      {fill : Fill} {stdin : List ℕ} {es : List Event} {s : System ch}
      → Runs fill ch stdin es s
      → Inv es s
  Runs-Inv start = record { delivered = sym ch.contents-empty; writer_at = tt; reader_at = tt }
  Runs-Inv (later r st) = Step-Inv st (Runs-Inv r)
