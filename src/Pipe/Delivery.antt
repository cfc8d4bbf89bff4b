-- ===== src/Pipe/Delivery.antt =====
-- What the processes of twowaypipe.c send to each other arrives, in order.
use posix_intro.Common.{
  collect, collect-append_last, ℕ, ◌≡◌, refl, sym, ◌∙◌, List, [], ◌∷◌, ◌++◌, append-nil,
  append_assoc,
}
use posix_intro.Common.Channel.{Channel}
use posix_intro.Pipe.{
  Role, parent, child, other, Process, Event, quiet, sent, received, no_writer, broken, signalled,
  Program, Move, fills, gives_up, writes, reads, writes_last, closes, closes_other, reads_nothing,
  breaks, breaks_last, signals, interrupts_prompt, interrupts_read, interrupts_write,
  interrupts_last, System, parent_moves, child_moves, Runs, start, later,
}
use posix_intro.Pipe.Phases.{Messages}

-- The text as a list, if both roles are the same.
abbrev pub by_role : Role → Role → List ℕ → Messages
by_role parent parent m = m ∷ []
by_role child child m = m ∷ []
by_role _ _ m = []

by_role_self : (role : Role) (m : List ℕ) → by_role role role m ≡ m ∷ []
by_role_self parent m = refl
by_role_self child m = refl

by_role-other : (role : Role) (m : List ℕ) → by_role (other role) role m ≡ []
by_role-other parent m = refl
by_role-other child m = refl

-- The texts that a process has sent, and those that it has read.
abbrev pub sent_text : Role → Event → Messages
sent_text role (sent r m) = by_role role r m
sent_text role _ = []

abbrev pub received_text : Role → Event → Messages
received_text role (received r m) = by_role role r m
received_text role _ = []

abbrev pub sent_texts : Role → List Event → Messages
sent_texts role = collect (sent_text role)

abbrev pub received_texts : Role → List Event → Messages
received_texts role = collect (received_text role)

module _ (prog : Program) (ch : Channel) where
  -- What a move does to the pipes, as its event tells.
  record Passes (role : Role) (i o i' o' : ch.Queue) (e : Event) : Type 0 where
    puts : ch.contents o' ≡ ch.contents o ++ sent_text role e
    takes : ch.contents i ≡ received_text role e ++ ch.contents i'
    other_sends : sent_text (other role) e ≡ []
    other_reads : received_text (other role) e ≡ []

  no_text :
      {role : Role} {i o : ch.Queue} (e : Event)
      → sent_text role e ≡ []
      → received_text role e ≡ []
      → sent_text (other role) e ≡ []
      → received_text (other role) e ≡ []
      → Passes role i o i o e
  no_text {i = i} {o} e s r s' r' = record {
    puts = rw s (sym (append-nil (ch.contents o)));
    takes = rw r refl;
    other_sends = s';
    other_reads = r';
  }

  sends_text :
      (role : Role) (i o : ch.Queue) (m : List ℕ)
      → ch.CanSend o
      → Passes role i o i (ch.send o m) (sent role m)
  sends_text role i o m can = record {
    puts = rw (by_role_self role m) (ch.contents-send o m can);
    takes = refl;
    other_sends = by_role-other role m;
    other_reads = refl;
  }

  Move-Passes :
      {role : Role} {p q : Process} {i o : ch.Queue} {e : Event} {p' : Process} {i' o' : ch.Queue}
      → Move prog ch role p q i o e p' i' o'
      → Passes role i o i' o' e
  Move-Passes {role} {p = p} {i = i} {o} (writes at has_reader can) = sends_text role i o p.msg can
  Move-Passes {role} {p = p} {i = i} {o} (writes_last at has_reader can) =
      sends_text role i o p.msg can
  Move-Passes {role} {i = i} {o} (reads {m} {ms} at some_left) = record {
    puts = sym (append-nil (ch.contents o));
    takes = rw (by_role_self role m, ch.contents-receive i m ms some_left) some_left;
    other_sends = refl;
    other_reads = by_role-other role m;
  }
  Move-Passes (fills at run new) = no_text quiet refl refl refl refl
  Move-Passes (gives_up at run) = no_text quiet refl refl refl refl
  Move-Passes (closes at) = no_text quiet refl refl refl refl
  Move-Passes (closes_other at) = no_text quiet refl refl refl refl
  Move-Passes {role} (reads_nothing at none shut) = no_text (no_writer role) refl refl refl refl
  Move-Passes {role} (breaks at shut) = no_text (broken role) refl refl refl refl
  Move-Passes {role} (breaks_last at shut) = no_text (broken role) refl refl refl refl
  Move-Passes {role} (signals on) = no_text (signalled role) refl refl refl refl
  Move-Passes {role} (interrupts_prompt on at) = no_text (signalled role) refl refl refl refl
  Move-Passes {role} (interrupts_read on at none) = no_text (signalled role) refl refl refl refl
  Move-Passes {role} (interrupts_write on at full) = no_text (signalled role) refl refl refl refl
  Move-Passes {role} (interrupts_last on at full) = no_text (signalled role) refl refl refl refl

  -- The texts in the pipe from `role` to the other process, behind those that it has read.
  abbrev pub Delivered : Role → List Event → ch.Queue → Type 0
  Delivered role es q = sent_texts role es ≡ received_texts (other role) es ++ ch.contents q

  -- The process that writes the pipe moves.
  puts_Delivered :
      {role : Role} {i o i' o' : ch.Queue} {e : Event} (es : List Event)
      → Passes role i o i' o' e
      → Delivered role es o
      → Delivered role (es ++ e ∷ []) o'
  puts_Delivered {role} {o = o} {e = e} es p d =
      collect-append_last (sent_text role) es e
      ∙ rw
          (
            d,
            collect-append_last (received_text (other role)) es e,
            p.other_reads,
            append-nil (received_texts (other role) es),
            p.puts,
          )
          (append_assoc (received_texts (other role) es) (ch.contents o) (sent_text role e))

  -- The process that reads the pipe moves.
  takes_Delivered :
      (role : Role) {i o i' o' : ch.Queue} {e : Event} (es : List Event)
      → Passes (other role) i o i' o' e
      → sent_text role e ≡ []
      → Delivered role es i
      → Delivered role (es ++ e ∷ []) i'
  takes_Delivered role {i' = i'} {e = e} es p none d =
      collect-append_last (sent_text role) es e
      ∙ rw
          (
            none,
            append-nil (sent_texts role es),
            d,
            p.takes,
            collect-append_last (received_text (other role)) es e,
          )
          (sym (
            append_assoc (received_texts (other role) es) (received_text (other role) e)
              (ch.contents i')))

  -- Whatever signals come: each process has read, in order, the texts that the other one sent, up
  -- to those that are still in the pipe between them.
  pub Runs-both_ways :
      {pm cm : List ℕ} {es : List Event} {s : System prog ch}
      → Runs prog ch pm cm es s
      → Delivered parent es s.pipe_1 × Delivered child es s.pipe_2
  Runs-both_ways start = (sym ch.contents-empty, sym ch.contents-empty)
  Runs-both_ways (later {es} r (parent_moves mv)) =
      let (one, two) = Runs-both_ways r in
      let p = Move-Passes mv in
      (puts_Delivered es p one, takes_Delivered child es p p.other_sends two)
  Runs-both_ways (later {es} r (child_moves mv)) =
      let (one, two) = Runs-both_ways r in
      let p = Move-Passes mv in
      (takes_Delivered parent es p p.other_sends one, puts_Delivered es p two)
