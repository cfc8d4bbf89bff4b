-- ===== src/Socket/Ending.antt =====
-- How the client and the server come to their ends.
use posix_intro.Common.{
  ℕ, ◌≡◌, refl, sym, ◌∙◌, ◌⊎◌, inl, inr, true, All, collect, arith, length, List, [], append-nil,
}
use posix_intro.Common.Stream.{Stream}
use posix_intro.Socket.{
  buffer_size, is_done, Client, prompting, writing, lost, Server, echoing, Event, Program, System,
  Step, prompts, sends, reads, tests, serves, echoes, server_tests, Runs,
}
use posix_intro.Socket.Phases.{NoByte, Phase}
use posix_intro.Socket.Echo.{IsWhole, sent_text, shown_text, Inv, Runs-Inv}

module _ (prog : Program) (st : Stream) where
  -- A step that brings a whole array, if it reads.
  abbrev pub HasStep : System prog st → Type 0
  HasStep s = (e : Event) × (t : System prog st) × Step prog st s e t × IsWhole e

  -- Both have closed the connection, on which nothing is left; the client has shown all texts that
  -- it sent, and the last one begins with "done".
  pub record Finished (es : List Event) (s : System prog st) : Type 0 where
    pub client_closed : s.client ≡ Client.closed
    pub server_closed : s.server ≡ Server.closed
    pub none_left : NoByte (st.bytes s.up) (st.bytes s.down)
    pub all_shown : collect sent_text es ≡ collect shown_text es
    pub last_done : is_done s.buffer ≡ true

  module _ {es : List Event} {s : System prog st} (inv : Inv prog st es s) where
    abbrev At : Client → Server → Type 0
    At c v = Phase c v s.buffer s.received s.server_buffer (st.bytes s.up) (st.bytes s.down)

    has_size : length s.buffer ≡ buffer_size
    has_size = inv.sizes.0

    read_step : s.client ≡ Client.reading → st.bytes s.down ≡ s.buffer → HasStep s
    read_step at same = (
      _,
      _,
      reads s.buffer [] at (same ∙ sym (append-nil s.buffer)) (omega (arith, has_size))
          (omega (arith, has_size)),
      has_size,
    )

    serve_step : s.server ≡ Server.reading → st.bytes s.up ≡ s.buffer → HasStep s
    serve_step at same = (
      _,
      _,
      serves s.buffer [] at (same ∙ sym (append-nil s.buffer)) (omega (arith, has_size))
          (omega (arith, has_size)),
      has_size,
    )

    test_step : s.server ≡ Server.testing → HasStep s
    test_step at = (_, _, server_tests at, tt)

    -- The client waits for its text.
    waits_step :
        (v : Server) → s.server ≡ v → s.client ≡ Client.reading → At Client.reading v → HasStep s
    waits_step Server.reading at here (inl h) = serve_step at h.0
    waits_step Server.reading at here (inr h) = read_step here h.1
    waits_step echoing at here h = (_, _, echoes at (st.CanPut_of_empty s.down h.0.1), tt)
    waits_step Server.testing at here h = test_step at
    waits_step Server.closed at here h = read_step here h.1
    waits_step Server.broken at here h = absurd h

    may_write : (v : Server) → At writing v → st.CanPut s.up
    may_write Server.reading h = st.CanPut_of_empty s.up h.0
    may_write Server.testing h = st.CanPut_of_empty s.up h.0.0
    may_write echoing h = absurd h
    may_write Server.closed h = absurd h
    may_write Server.broken h = absurd h

    closes :
        (v : Server)
        → s.server ≡ v
        → s.client ≡ Client.closed
        → At Client.closed v
        → HasStep s ⊎ Finished es s
    closes Server.testing at here h = inl (test_step at)
    closes Server.closed at here h = inr (record {
      client_closed = here;
      server_closed = at;
      none_left = h.0;
      all_shown = inv.all_back ∙ rw here (append-nil (collect shown_text es));
      last_done = h.1;
    })
    closes Server.reading at here h = absurd h
    closes echoing at here h = absurd h
    closes Server.broken at here h = absurd h

    progress : (c : Client) → s.client ≡ c → HasStep s ⊎ Finished es s
    progress prompting at = inl (_, _, prompts at (prog.Fills_total s.buffer).1, tt)
    progress writing at = inl (_, _, sends at (may_write s.server (rw at at inv.phase)), tt)
    progress Client.reading at = inl (waits_step s.server refl at (rw at at inv.phase))
    progress Client.testing at = inl (_, _, tests at, tt)
    progress Client.closed at = closes s.server refl at (rw at at inv.phase)
    progress lost at = absurd (rw at at inv.phase)
    progress Client.broken at = absurd (rw at at inv.phase)

  -- While every read brings a whole array and the client is not lost: some process can go on in this
  -- way, or both have closed the connection, nothing is left on it, the client has shown all texts
  -- that it sent, and the last one begins with "done".
  pub Runs-closed :
      {w : List ℕ} {es : List Event} {s : System prog st}
      → length w ≡ buffer_size
      → Runs prog st w es s
      → All IsWhole es
      → HasStep s ⊎ Finished es s
  Runs-closed {s = s} size r whole = progress (Runs-Inv prog st size r whole) s.client refl
