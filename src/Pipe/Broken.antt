-- ===== src/Pipe/Broken.antt =====
-- The last write of twowaypipe.c can meet a pipe that nobody reads any more.
use posix_intro.Common.{ℕ, ◌≡◌, refl, ◌∙◌, true, false, List, [], ◌∷◌, ◌++◌}
use posix_intro.Common.Channel.{Channel}
use posix_intro.Common.Stdio.{is_zero}
use posix_intro.Pipe.{
  prompting, last_writing, after_read, killed, Event, Program, fills, writes, reads, writes_last,
  parent, child, quiet, sent, received, broken, finished, closes, closes_other, breaks_last, System,
  parent_moves, child_moves, Runs, start, later,
}
use posix_intro.Pipe.Delivery.{sent_texts}
use posix_intro.Pipe.Turns.{NoSignal}

ends_loop : (m : List ℕ) → is_zero m ≡ true → after_read m ≡ last_writing
ends_loop m z = rw z refl

module _ (ch : Channel) (q : ch.Queue) (m : List ℕ) (none : ch.contents q ≡ []) where
  one_text : ch.contents (ch.send q m) ≡ m ∷ []
  one_text = ch.contents-send q m (ch.CanSend_of_empty q none) ∙ rw none refl

  text_taken : ch.contents (ch.receive (ch.send q m)) ≡ []
  text_taken = ch.contents-receive (ch.send q m) m [] one_text

goes_on : (m : List ℕ) → is_zero m ≡ false → after_read m ≡ prompting
goes_on m z = rw z refl

abbrev can_send : (ch : Channel) → ch.CanSend ch.empty
can_send ch = ch.CanSend_of_empty ch.empty ch.contents-empty

module _ (prog : Program) (ch : Channel) {pm cm m : List ℕ} where
  -- Whatever text that begins with 0 is given to the parent at its first prompt: there is a run
  -- with no signal in which the parent and then the child send this text, once each, the child
  -- finishes, with all its pipes closed, and then SIGPIPE ends the parent at its last write, with no
  -- text left in either pipe.
  pub parent-is_killed :
      prog.Fills pm m
      → is_zero m ≡ true
      → (es : List Event) × (s : System prog ch) × Runs prog ch pm cm (es ++ broken parent ∷ []) s
        × NoSignal (es ++ broken parent ∷ [])
        × (sent_texts parent es ≡ m ∷ [])
        × (sent_texts child es ≡ m ∷ [])
        × (s.child_process.pc ≡ finished)
        × (s.parent_process.pc ≡ killed)
        × (s.parent_process.msg ≡ m)
        × (ch.contents s.pipe_1 ≡ [])
        × (ch.contents s.pipe_2 ≡ [])
  parent-is_killed f z = (
    quiet
        ∷ sent parent m
        ∷ received child m
        ∷ sent child m
        ∷ quiet
        ∷ quiet
        ∷ received parent m
        ∷ [],
    _,
    later
        (later
          (later
            (later
              (later
                (later
                  (later (later start (parent_moves (fills refl refl f)))
                    (parent_moves (writes refl refl (can_send ch))))
                  (child_moves (reads refl (one_text ch ch.empty m ch.contents-empty))))
                (child_moves (writes_last (ends_loop m z) refl (can_send ch))))
              (child_moves (closes refl)))
            (child_moves (closes_other refl)))
          (parent_moves (reads refl (one_text ch ch.empty m ch.contents-empty))))
        (parent_moves (breaks_last (ends_loop m z) refl)),
    (refl, (refl, (refl, (refl, (refl, (refl, (refl, (refl, tt)))))))),
    refl,
    refl,
    refl,
    refl,
    refl,
    text_taken ch ch.empty m ch.contents-empty,
    text_taken ch ch.empty m ch.contents-empty,
  )

  -- Whatever text that begins with 0 is given to the child behind one from the parent that does not:
  -- there is a run with no signal in which SIGPIPE ends the child.
  pub child-is_killed :
      {z : List ℕ}
      → prog.Fills pm m
      → is_zero m ≡ false
      → prog.Fills m z
      → is_zero z ≡ true
      → (es : List Event) × (s : System prog ch) × Runs prog ch pm cm es s
        × NoSignal es
        × (s.child_process.pc ≡ killed)
  child-is_killed {z} f n g stop =
      let none = text_taken ch ch.empty m ch.contents-empty in
      let asked =
        later
          (later
            (later (later start (parent_moves (fills refl refl f)))
              (parent_moves (writes refl refl (can_send ch))))
            (child_moves (reads refl (one_text ch ch.empty m ch.contents-empty))))
          (child_moves (fills (goes_on m n) refl g)) in
      let answered =
        later (later asked (child_moves (writes refl refl (can_send ch))))
          (parent_moves (reads refl (one_text ch ch.empty z ch.contents-empty))) in
      let parent_left =
        later
          (later
            (later answered
              (parent_moves (writes_last (ends_loop z stop) refl (ch.CanSend_of_empty _ none))))
            (parent_moves (closes refl)))
          (parent_moves (closes_other refl)) in
      (
        _,
        _,
        later
            (later parent_left
              (child_moves (reads refl (one_text ch (ch.receive (ch.send ch.empty m)) z none))))
            (child_moves (breaks_last (ends_loop z stop) refl)),
        (refl, (refl, (refl, (refl, (refl, (refl, (refl, (refl, (refl, (refl, (refl, tt))))))))))),
        refl,
      )
