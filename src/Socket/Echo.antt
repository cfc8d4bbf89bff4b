-- ===== src/Socket/Echo.antt =====
-- What the client shows is what it has sent, and both processes end together.
use posix_intro.Common.{
  if◌then◌else◌, ℕ, ◌≡◌, refl, sym, ap, ◌∙◌, inl, inr, Bool, true, false, Bool-cases, All, collect,
  collect-append_last, All-of_append, arith, length, List, [], ◌∷◌, ◌++◌, append-nil,
}
use posix_intro.Common.Stream.{Stream}
use posix_intro.Common.Stdio.{overlay, length-overlay, overlay_whole}
use posix_intro.Socket.{
  buffer_size, is_done, Client, prompting, Server, Event, quiet, sent, shown, served, lost_client,
  Program, System, Step, prompts, sends, send_breaks, reads, reads_end, read_fails, tests, loses,
  serves, serves_nothing, echoes, echo_breaks, server_tests, Runs, start, later,
}
use posix_intro.Socket.Phases.{
  Phase, prompts_Phase, sends_Phase, echoes_Phase, tests_done, tests_open, testing_same,
  server_done, server_open, writing_there, reading_there, serving_there, echoing_there, reads_Phase,
  serves_Phase,
}

-- Every read brings a whole array, and the client is not lost.
abbrev pub IsWhole : Event → Type 0
IsWhole (shown n m) = n ≡ buffer_size
IsWhole (served n) = n ≡ buffer_size
IsWhole lost_client = ⊥
IsWhole _ = Unit

-- The texts sent and shown by the client.
abbrev pub sent_text : Event → List (List ℕ)
sent_text (sent m) = m ∷ []
sent_text _ = []

abbrev pub shown_text : Event → List (List ℕ)
shown_text (shown n m) = m ∷ []
shown_text _ = []

-- The text that has been sent and not yet shown.
abbrev pub awaited : Client → List ℕ → List (List ℕ)
awaited Client.reading b = b ∷ []
awaited _ b = []

awaited_of_tested :
    (b : Bool) (m : List ℕ) → awaited (if b then Client.closed else prompting) m ≡ []
awaited_of_tested true m = refl
awaited_of_tested false m = refl

module _ (prog : Program) (st : Stream) where
  pub record Inv (es : List Event) (s : System prog st) : Type 0 where
    pub phase :
        Phase s.client s.server s.buffer s.received s.server_buffer
          (st.bytes s.up)
          (st.bytes s.down)
    pub sizes :
        (length s.buffer ≡ buffer_size)
        × (length s.received ≡ buffer_size)
        × (length s.server_buffer ≡ buffer_size)
    pub all_back : collect sent_text es ≡ collect shown_text es ++ awaited s.client s.buffer

  -- The equation on the texts behind a step that sends and shows nothing.
  silent :
      (es : List Event) (e : Event) {rest rest' : List (List ℕ)}
      → sent_text e ≡ []
      → shown_text e ≡ []
      → rest ≡ rest'
      → collect sent_text es ≡ collect shown_text es ++ rest
      → collect sent_text (es ++ e ∷ []) ≡ collect shown_text (es ++ e ∷ []) ++ rest'
  silent es e no_sent no_shown same all =
      rw
        (
          collect-append_last sent_text es e,
          collect-append_last shown_text es e,
          no_sent,
          no_shown,
          append-nil (collect sent_text es),
          append-nil (collect shown_text es),
          ← same,
        )
        all

  -- The parts of an invariant that a step leaves alone are given by the invariant itself.
  Step-Inv :
      {es : List Event} {s : System prog st} {e : Event} {t : System prog st}
      → Step prog st s e t
      → IsWhole e
      → Inv es s
      → Inv (es ++ e ∷ []) t
  Step-Inv {es} {s = s} (prompts {m} at new) w inv = record {
    phase =
        prompts_Phase s.buffer s.received s.server_buffer (st.bytes s.up) (st.bytes s.down) m
          s.server (rw at at inv.phase);
    sizes = (prog.Fills-length s.buffer m new inv.sizes.0, inv.sizes.1, inv.sizes.2);
    all_back = silent es quiet refl refl (rw at refl) inv.all_back;
  }
  Step-Inv {es} {s = s} (sends at can) w inv = record {
    phase = rw (st.bytes-put s.up s.buffer can) (
        sends_Phase s.buffer s.received s.server_buffer (st.bytes s.up) (st.bytes s.down) s.server
          (rw at at inv.phase));
    sizes = inv.sizes;
    all_back =
        rw
          (
            collect-append_last sent_text es (sent s.buffer),
            collect-append_last shown_text es (sent s.buffer),
            append-nil (collect shown_text es),
            inv.all_back,
            at,
            append-nil (collect shown_text es),
          )
          refl;
  }
  Step-Inv {es} {s = s} (reads xs ys at some_bytes pos_size most) w inv =
      let size : length xs ≡ length s.buffer = omega (arith, inv.sizes.0) in
      let phase' =
        reads_Phase s.buffer s.received s.server_buffer xs ys (st.bytes s.up) size pos_size s.server
          (st.bytes s.down) (rw at at inv.phase) some_bytes in
      let whole : overlay xs s.received ≡ xs =
        overlay_whole xs s.received (omega (arith, inv.sizes.1)) in
      let same : xs ≡ s.buffer =
        testing_same s.buffer xs s.server_buffer (st.bytes s.up) ys s.server phase' in
      record {
        phase = rw (st.bytes-take s.down xs ys some_bytes, whole) phase';
        sizes = (inv.sizes.0, length-overlay xs s.received ∙ inv.sizes.1, inv.sizes.2);
        all_back =
            rw
              (
                collect-append_last sent_text es (shown (length xs) (overlay xs s.received)),
                collect-append_last shown_text es (shown (length xs) (overlay xs s.received)),
                append-nil (collect sent_text es),
                inv.all_back,
                at,
                whole,
                same,
                append-nil (collect shown_text es ++ s.buffer ∷ []),
              )
              refl;
      }
  Step-Inv {es} {s = s} (send_breaks at shut) w inv = absurd (
      writing_there s.buffer s.received s.server_buffer (st.bytes s.up) (st.bytes s.down) s.server
        (rw at at inv.phase) shut)
  Step-Inv {es} {s = s} (reads_end at none shut) w inv =
      let same =
        reading_there s.buffer s.received s.server_buffer (st.bytes s.up) (st.bytes s.down) s.server
          (rw at at inv.phase) shut in
      let size = ap length (sym same ∙ none) in absurd (omega (arith, size, inv.sizes.0))
  Step-Inv {es} {s = s} (read_fails at shut) w inv = absurd (omega arith)
  Step-Inv {es} {s = s} (tests at) w inv =
      let h : Phase Client.testing s.server s.buffer s.received s.server_buffer (st.bytes s.up)
          (st.bytes s.down) =
        rw at at inv.phase in
      let same : prog.tested s.buffer s.received ≡ s.buffer =
        rw
          (testing_same s.buffer s.received s.server_buffer (st.bytes s.up) (st.bytes s.down)
            s.server h)
          (prog.tested_same s.buffer) in
      rw same (record {
        phase = elim (Bool-cases (is_done s.buffer)) [
          | inl z ↦ rw z (
              tests_done s.buffer s.received s.server_buffer (st.bytes s.up) (st.bytes s.down)
                s.server h z)
          | inr z ↦ rw z (
              tests_open s.buffer s.received s.server_buffer (st.bytes s.up) (st.bytes s.down)
                s.server h z)
        ];
        sizes = inv.sizes;
        all_back =
            silent es quiet refl refl (rw at (sym (awaited_of_tested (is_done s.buffer) s.buffer)))
              inv.all_back;
      })
  Step-Inv {es} {s = s} (loses there) w inv = absurd w
  Step-Inv {es} {s = s} (serves xs ys at some_bytes pos_size most) w inv =
      let size : length xs ≡ length s.buffer = omega (arith, inv.sizes.0) in
      let whole : overlay xs s.server_buffer ≡ xs =
        overlay_whole xs s.server_buffer (omega (arith, inv.sizes.2)) in
      record {
        phase =
            rw (st.bytes-take s.up xs ys some_bytes, whole)
              (serves_Phase s.buffer s.received s.server_buffer xs ys (st.bytes s.down) size
                pos_size s.client (st.bytes s.up) (rw at at inv.phase) some_bytes);
        sizes = (inv.sizes.0, inv.sizes.1, length-overlay xs s.server_buffer ∙ inv.sizes.2);
        all_back = silent es (served (length xs)) refl refl refl inv.all_back;
      }
  Step-Inv {es} {s = s} (serves_nothing at gone) w inv = absurd (
      serving_there s.buffer s.received s.server_buffer (st.bytes s.up) (st.bytes s.down) s.client
        (rw at at inv.phase) gone)
  Step-Inv {es} {s = s} (echoes at can) w inv = record {
    phase = rw (st.bytes-put s.down s.server_buffer can) (
        echoes_Phase s.buffer s.received s.server_buffer (st.bytes s.up) (st.bytes s.down) s.client
          (rw at at inv.phase));
    sizes = inv.sizes;
    all_back = silent es quiet refl refl refl inv.all_back;
  }
  Step-Inv {es} {s = s} (echo_breaks at gone) w inv = absurd (
      echoing_there s.buffer s.received s.server_buffer (st.bytes s.up) (st.bytes s.down) s.client
        (rw at at inv.phase) gone)
  Step-Inv {es} {s = s} (server_tests at) w inv =
      let h : Phase s.client Server.testing s.buffer s.received s.server_buffer (st.bytes s.up)
          (st.bytes s.down) =
        rw at at inv.phase in
      record {
        phase = elim (Bool-cases (is_done s.server_buffer)) [
          | inl z ↦ rw z (
              server_done s.buffer s.received s.server_buffer (st.bytes s.up) (st.bytes s.down)
                s.client h z)
          | inr z ↦ rw z (
              server_open s.buffer s.received s.server_buffer (st.bytes s.up) (st.bytes s.down)
                s.client h z)
        ];
        sizes = inv.sizes;
        all_back = silent es quiet refl refl refl inv.all_back;
      }

  pub Runs-Inv :
      {w : List ℕ} {es : List Event} {s : System prog st}
      → length w ≡ buffer_size
      → Runs prog st w es s
      → All IsWhole es
      → Inv es s
  Runs-Inv size start whole = record {
    phase = (st.bytes-empty, st.bytes-empty);
    sizes = (refl, refl, size);
    all_back = refl;
  }
  Runs-Inv size (later {es} {e} r mv) whole =
      let (before, now) = All-of_append IsWhole es (e ∷ []) whole in
      Step-Inv mv now.0 (Runs-Inv size r before)

  -- While every read brings a whole array and the client is not lost: the texts that the client shows
  -- are, in order, those that it has sent, but for the last one while it waits for that.
  pub Runs-echoed :
      {w : List ℕ} {es : List Event} {s : System prog st}
      → length w ≡ buffer_size
      → Runs prog st w es s
      → All IsWhole es
      → collect sent_text es ≡ collect shown_text es ++ awaited s.client s.buffer
  Runs-echoed size r whole = (Runs-Inv size r whole).all_back
