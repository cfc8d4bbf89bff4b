-- ===== src/Socket/Phases.antt =====
-- Where the client and the server stand to each other while every read brings a whole array and the
-- client is not lost.
use posix_intro.Common.{
  ℕ, ◌<◌, ◌≡◌, refl, sym, ◌∙◌, ◌⊎◌, inl, inr, true, false, arith, length, whole_part, length-append,
  ap, ◌+◌, List, [], ◌++◌,
}
use posix_intro.Socket.{
  is_done, Client, prompting, writing, lost, Server, echoing, client_there, server_there,
}

abbrev pub NoByte : (up down : List ℕ) → Type 0
NoByte up down = (up ≡ []) × (down ≡ [])

-- What the arrays of the client, `b` and `r`, that of the server, `w`, and the connection hold.
abbrev pub Phase : Client → Server → (b r w up down : List ℕ) → Type 0
Phase prompting Server.reading b r w up down = NoByte up down
Phase prompting Server.testing b r w up down = NoByte up down × (is_done w ≡ false)
Phase writing Server.reading b r w up down = NoByte up down
Phase writing Server.testing b r w up down = NoByte up down × (is_done w ≡ false)
Phase Client.reading Server.reading b r w up down =
    ((up ≡ b) × (down ≡ [])) ⊎ ((up ≡ []) × (down ≡ b) × (is_done b ≡ false))
Phase Client.reading echoing b r w up down = NoByte up down × (w ≡ b)
Phase Client.reading Server.testing b r w up down =
    ((up ≡ []) × (down ≡ b) × (w ≡ b)) ⊎ ((up ≡ b) × (down ≡ []) × (is_done w ≡ false))
Phase Client.reading Server.closed b r w up down = (up ≡ []) × (down ≡ b) × (is_done b ≡ true)
Phase Client.testing Server.reading b r w up down = NoByte up down × (r ≡ b) × (is_done b ≡ false)
Phase Client.testing Server.testing b r w up down = NoByte up down × (r ≡ b) × (w ≡ b)
Phase Client.testing Server.closed b r w up down = NoByte up down × (r ≡ b) × (is_done b ≡ true)
Phase Client.closed Server.testing b r w up down =
    NoByte up down × (is_done w ≡ true) × (is_done b ≡ true)
Phase Client.closed Server.closed b r w up down = NoByte up down × (is_done b ≡ true)
Phase _ _ b r w up down = ⊥

module _ (b r w up down : List ℕ) where
  pub prompts_Phase :
      (m : List ℕ) (s : Server) → Phase prompting s b r w up down → Phase writing s m r w up down
  prompts_Phase m Server.reading h = h
  prompts_Phase m Server.testing h = h
  prompts_Phase m _ h = absurd h

  pub sends_Phase :
      (s : Server) → Phase writing s b r w up down → Phase Client.reading s b r w (up ++ b) down
  sends_Phase Server.reading h = inl (rw (h.0) refl, h.1)
  sends_Phase Server.testing h = inr (rw (h.0.0) refl, h.0.1, h.1)
  sends_Phase _ h = absurd h

  -- The server's echo.
  pub echoes_Phase :
      (c : Client) → Phase c echoing b r w up down → Phase c Server.testing b r w up (down ++ w)
  echoes_Phase Client.reading h = inl (h.0.0, rw (h.0.1) h.1, h.1)
  echoes_Phase prompting h = absurd h
  echoes_Phase writing h = absurd h
  echoes_Phase Client.testing h = absurd h
  echoes_Phase Client.closed h = absurd h
  echoes_Phase lost h = absurd h
  echoes_Phase Client.broken h = absurd h

  pub tests_done :
      (s : Server)
      → Phase Client.testing s b r w up down
      → is_done b ≡ true
      → Phase Client.closed s b r w up down
  tests_done Server.reading h z = absurd (cc (h.2, z))
  tests_done Server.testing h z = (h.0, rw (h.2) z, z)
  tests_done Server.closed h z = (h.0, z)
  tests_done echoing h z = absurd h
  tests_done Server.broken h z = absurd h

  pub tests_open :
      (s : Server)
      → Phase Client.testing s b r w up down
      → is_done b ≡ false
      → Phase prompting s b r w up down
  tests_open Server.reading h z = h.0
  tests_open Server.testing h z = (h.0, rw (h.2) z)
  tests_open Server.closed h z = absurd (cc (h.2, z))
  tests_open echoing h z = absurd h
  tests_open Server.broken h z = absurd h

  -- The client's array is the one that it has received.
  pub testing_same : (s : Server) → Phase Client.testing s b r w up down → r ≡ b
  testing_same Server.reading h = h.1
  testing_same Server.testing h = h.1
  testing_same Server.closed h = h.1
  testing_same echoing h = absurd h
  testing_same Server.broken h = absurd h

  pub server_done :
      (c : Client)
      → Phase c Server.testing b r w up down
      → is_done w ≡ true
      → Phase c Server.closed b r w up down
  server_done Client.reading (inl h) z = (h.0, h.1, rw (sym h.2) z)
  server_done Client.reading (inr h) z = absurd (cc (h.2, z))
  server_done Client.testing h z = (h.0, h.1, rw (sym h.2) z)
  server_done Client.closed h z = (h.0, h.2)
  server_done prompting h z = absurd (cc (h.1, z))
  server_done writing h z = absurd (cc (h.1, z))
  server_done lost h z = absurd h
  server_done Client.broken h z = absurd h

  pub server_open :
      (c : Client)
      → Phase c Server.testing b r w up down
      → is_done w ≡ false
      → Phase c Server.reading b r w up down
  server_open Client.reading (inl h) z = inr (h.0, h.1, rw (sym h.2) z)
  server_open Client.reading (inr h) z = inl (h.0, h.1)
  server_open Client.testing h z = (h.0, h.1, rw (sym h.2) z)
  server_open Client.closed h z = absurd (cc (h.1, z))
  server_open prompting h z = h.0
  server_open writing h z = h.0
  server_open lost h z = absurd h
  server_open Client.broken h z = absurd h

  -- A process that uses the connection finds the other one there, or a last text.
  pub writing_there : (s : Server) → Phase writing s b r w up down → server_there s ≡ false → ⊥
  writing_there Server.reading h e = cc
  writing_there Server.testing h e = cc
  writing_there _ h e = absurd h

  pub reading_there :
      (s : Server) → Phase Client.reading s b r w up down → server_there s ≡ false → down ≡ b
  reading_there Server.reading h e = cc
  reading_there echoing h e = cc
  reading_there Server.testing h e = cc
  reading_there Server.closed h e = h.1
  reading_there Server.broken h e = absurd h

  pub serving_there :
      (c : Client) → Phase c Server.reading b r w up down → client_there c ≡ false → ⊥
  serving_there Client.reading h e = cc
  serving_there prompting h e = cc
  serving_there writing h e = cc
  serving_there Client.testing h e = cc
  serving_there _ h e = absurd h

  pub echoing_there : (c : Client) → Phase c echoing b r w up down → client_there c ≡ false → ⊥
  echoing_there Client.reading h e = cc
  echoing_there prompting h e = absurd h
  echoing_there _ h e = absurd h

-- The bytes `xs` of a whole array are taken.
module _ (b r w xs ys other : List ℕ) (size : length xs ≡ length b)
    (some_bytes : 0 < length xs) where
  no_bytes : (zs : List ℕ) → zs ≡ [] → zs ≡ xs ++ ys → ⊥
  no_bytes zs none e =
      let sizes : length zs ≡ length xs + length ys = ap length e ∙ length-append xs ys in
      let nil : length zs ≡ 0 = ap length none in omega (arith, sizes, nil)

  takes_all : (zs : List ℕ) → zs ≡ b → zs ≡ xs ++ ys → (xs ≡ b) × (ys ≡ [])
  takes_all zs same e = let (all, none) = whole_part xs ys zs e (rw same size) in (all ∙ same, none)

  pub reads_Phase :
      (s : Server) (down : List ℕ)
      → Phase Client.reading s b r w other down
      → down ≡ xs ++ ys
      → Phase Client.testing s b xs w other ys
  reads_Phase Server.reading down (inl h) e = absurd (no_bytes down h.1 e)
  reads_Phase Server.reading down (inr h) e =
      let (all, none) = takes_all down h.1 e in ((h.0, none), all, h.2)
  reads_Phase echoing down h e = absurd (no_bytes down h.0.1 e)
  reads_Phase Server.testing down (inl h) e =
      let (all, none) = takes_all down h.1 e in ((h.0, none), all, h.2)
  reads_Phase Server.testing down (inr h) e = absurd (no_bytes down h.1 e)
  reads_Phase Server.closed down h e =
      let (all, none) = takes_all down h.1 e in ((h.0, none), all, h.2)
  reads_Phase Server.broken down h e = absurd h

  pub serves_Phase :
      (c : Client) (up : List ℕ)
      → Phase c Server.reading b r w up other
      → up ≡ xs ++ ys
      → Phase c echoing b r xs ys other
  serves_Phase Client.reading up (inl h) e =
      let (all, none) = takes_all up h.0 e in ((none, h.1), all)
  serves_Phase Client.reading up (inr h) e = absurd (no_bytes up h.0 e)
  serves_Phase prompting up h e = absurd (no_bytes up h.0 e)
  serves_Phase writing up h e = absurd (no_bytes up h.0 e)
  serves_Phase Client.testing up h e = absurd (no_bytes up h.0.0 e)
  serves_Phase Client.closed up h e = absurd h
  serves_Phase lost up h e = absurd h
  serves_Phase Client.broken up h e = absurd h
