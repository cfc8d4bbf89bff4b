-- ===== src/Socket/Lost.antt =====
-- The server when its client has gone.
use posix_intro.Common.{
  ℕ, ◌<◌, ◌≡◌, ◌≢◌, refl, ap, ◌∙◌, ◌⊎◌, inl, inr, false, arith, length, length-append, List, [],
  ◌++◌,
}
use posix_intro.Common.Stream.{Stream}
use posix_intro.Socket.{
  is_done, lost, Server, Event, client_there, Program, System, Step, prompts, sends, send_breaks,
  reads, reads_end, read_fails, tests, loses, serves, serves_nothing, echoes, echo_breaks,
  server_tests,
}

module _ (prog : Program) (st : Stream) where
  -- The client is lost, no byte of it is left, and the text in the server's array does not end the
  -- server, which has its end of the connection or was ended by SIGPIPE.
  pub record IsDeserted (s : System prog st) : Type 0 where
    pub client_lost : s.client ≡ lost
    pub none_left : st.bytes s.up ≡ []
    pub not_done : is_done s.server_buffer ≡ false
    pub not_closed : s.server ≢ Server.closed

  nothing_read : (f xs ys : List ℕ) → f ≡ [] → f ≡ xs ++ ys → 0 < length xs → ⊥
  nothing_read f xs ys none e more =
      let sizes = ap length e ∙ length-append xs ys in
      let nil = ap length none in omega (arith, sizes, nil)

  -- Such a state stays one where only the server moves, and not to its end.
  stays :
      {s : System prog st} (v : Server)
      → IsDeserted s
      → v ≢ Server.closed
      → (down : st.Flow) → IsDeserted (record s { server = v; down = down })
  stays v d open_still down = record {
    client_lost = d.client_lost;
    none_left = d.none_left;
    not_done = d.not_done;
    not_closed = open_still;
  }

  IsDeserted-Step :
      {s : System prog st} {e : Event} {t : System prog st}
      → Step prog st s e t
      → IsDeserted s
      → IsDeserted t
  IsDeserted-Step (prompts at new) d = absurd (cc (at, d.client_lost))
  IsDeserted-Step (sends at can) d = absurd (cc (at, d.client_lost))
  IsDeserted-Step (send_breaks at shut) d = absurd (cc (at, d.client_lost))
  IsDeserted-Step (reads xs ys at some_bytes more most) d = absurd (cc (at, d.client_lost))
  IsDeserted-Step (reads_end at none shut) d = absurd (cc (at, d.client_lost))
  IsDeserted-Step (read_fails at shut) d = absurd (cc (at, d.client_lost))
  IsDeserted-Step (tests at) d = absurd (cc (at, d.client_lost))
  IsDeserted-Step (loses there) d = absurd (cc (there, ap client_there (d.client_lost)))
  IsDeserted-Step {s = s} (serves xs ys at some_bytes more most) d =
      absurd (nothing_read (st.bytes s.up) xs ys d.none_left some_bytes more)
  IsDeserted-Step {s = s} (serves_nothing at gone) d = stays Server.testing d (λ e. cc) s.down
  IsDeserted-Step (echoes at can) d = stays Server.testing d (λ e. cc) _
  IsDeserted-Step {s = s} (echo_breaks at gone) d = stays Server.broken d (λ e. cc) s.down
  IsDeserted-Step {s = s} (server_tests at) d =
      rw (d.not_done) (stays Server.reading d (λ e. cc) s.down)

  -- Any number of steps.
  pub data Steps (s : System prog st) : System prog st → Type 0 where
    none_yet : Steps s s
    and_then : {e : Event} {t u : System prog st} → Steps s t → Step prog st t e u → Steps s u

  IsDeserted-Steps : {s t : System prog st} → Steps s t → IsDeserted s → IsDeserted t
  IsDeserted-Steps none_yet d = d
  IsDeserted-Steps (and_then r mv) d = IsDeserted-Step mv (IsDeserted-Steps r d)

  abbrev pub CanStep : System prog st → Type 0
  CanStep s = (e : Event) × (t : System prog st) × Step prog st s e t

  next :
      (s : System prog st) (v : Server)
      → s.server ≡ v
      → IsDeserted s
      → (s.server ≡ Server.broken) ⊎ CanStep s
  next s Server.reading at d = inr (_, _, serves_nothing at (ap client_there d.client_lost))
  next s Server.echoing at d = inr (_, _, echo_breaks at (ap client_there d.client_lost))
  next s Server.testing at d = inr (_, _, server_tests at)
  next s Server.closed at d = absurd (d.not_closed at)
  next s Server.broken at d = inl at

  -- Where the client is lost, no byte of it is left, and the server has not closed its connection and
  -- holds no "done": whatever steps follow, the server never closes its connection, and unless
  -- SIGPIPE has ended it, it can always make another step.
  pub IsDeserted-goes_on :
      {s t : System prog st}
      → IsDeserted s
      → Steps s t
      → (t.server ≢ Server.closed) × ((t.server ≡ Server.broken) ⊎ CanStep t)
  IsDeserted-goes_on {t = t} d r =
      let now = IsDeserted-Steps r d in (now.not_closed, next t t.server refl now)
