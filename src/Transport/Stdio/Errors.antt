-- ===== src/Transport/Stdio/Errors.antt =====
-- transport/stdio.go: a line that the reader's buffer cannot hold.
use mcp_go_sdk.Prelude.{
  ℕ, ◌≤◌, ◌≡◌, refl, sym, ap, ◌∙◌, Bool, Bool-cases, inl, inr, false, List, [], ◌∷◌, ◌++◌, Option,
  length, arith, if◌then◌else◌, ltb,
}
use mathlib.Core.List.{append_assoc}
use mcp_go_sdk.Shared.Text.{Text}
use mcp_go_sdk.Shared.UriTemplate.Names.{Lacks, cut_at}
use mcp_go_sdk.Internal.Handler.{Json, sends}
use mcp_go_sdk.Transport.Stdio.{scan, too_long, StdioTransport}
use mcp_go_sdk.Transport.Stdio.Loops.{read_turn, read_scanned, bridge_incoming, process_incoming}
use mcp_go_sdk.Transport.Stdio.Queue.{
  popped, popped-append, popped-push_encoded, pop_oldest, push_encoded,
}
use mcp_go_sdk.Transport.Stdio.Link.{
  Link, Turn, turn, turns, trace, visible, with_read, reads, bridges_in, processes, requests,
  notifies, responds, bridges_out, writes, flushes,
}

scan-too_long :
    (size : ℕ) (message rest : Text)
    → Lacks 10 message
    → size ≤ length message
    → scan size false (message ++ 10 ∷ rest) ≡ too_long
unfolding scan
scan-too_long size message rest lacks long =
    let never : ltb (length message) size ≡ false = ground arith in
    rw (scan, cut_at 10 message rest lacks, never) refl

module _ {F : Type 0} (json : Json F Text) where
  -- What the receiver has read and its message handler has not taken
  abbrev pub taken_in : Link F → List Text
  taken_in l = l.receiver.handler_incoming ++ l.receiver.incoming_chan

  -- A turn of a link whose reader has stopped takes nothing in.
  TakesNone : Turn F → Link F → Type 0
  TakesNone t l =
      ((turn json t l).receiver.reading ≡ false)
      × (popped (visible json t l) ++ taken_in (turn json t l) ≡ taken_in l)

  sent-TakesNone :
      (done : Bool) (o : Option Text) (held : List Text)
      → popped (if done then [] else push_encoded o) ++ held ≡ held
  sent-TakesNone done o held = ap (λ ms. ms ++ held) (popped-push_encoded done o)

  stopped_read :
      (unread : Text) (r : StdioTransport F)
      → r.reading ≡ false
      → read_turn sends sends false unread r ≡ (unread, r)
  unfolding read_turn
  stopped_read unread r stopped =
      ap
        (λ b.
          if b
          then read_scanned sends sends unread (scan r.read_buffer_size false unread) r
          else (unread, r))
        stopped

  stopped_bridge :
      (held : List Text) (r : StdioTransport F)
      → r.incoming_chan ≡ held
      → r.reading ≡ false
      → let after = bridge_incoming sends held r in
        (after.reading ≡ false)
        × (after.handler_incoming ++ after.incoming_chan ≡ r.handler_incoming ++ r.incoming_chan)
  unfolding bridge_incoming
  stopped_bridge [] r e stopped = (stopped, refl)
  stopped_bridge (message ∷ rest) r e stopped = (
    stopped,
    append_assoc r.handler_incoming (message ∷ []) rest
        ∙ ap (λ ms. r.handler_incoming ++ ms) (sym e),
  )

  stopped_process :
      (held : List Text) (r : StdioTransport F)
      → r.handler_incoming ≡ held
      → r.reading ≡ false
      → let after = process_incoming json sends held r in
        (after.reading ≡ false)
        × (popped (pop_oldest held) ++ (after.handler_incoming ++ after.incoming_chan)
            ≡ r.handler_incoming ++ r.incoming_chan)
  unfolding process_incoming popped
  stopped_process [] r e stopped = (stopped, refl)
  stopped_process (message ∷ rest) r e stopped = (stopped, ap (λ ms. ms ++ r.incoming_chan) (sym e))

  stopped-TakesNone : (t : Turn F) (l : Link F) → l.receiver.reading ≡ false → TakesNone t l
  unfolding TakesNone turn visible popped
  stopped-TakesNone (requests method params) l stopped =
      (stopped, sent-TakesNone l.sender.message_handler.done _ (taken_in l))
  stopped-TakesNone (notifies method params) l stopped =
      (stopped, sent-TakesNone l.sender.message_handler.done _ (taken_in l))
  stopped-TakesNone (responds id result error) l stopped =
      (stopped, sent-TakesNone l.sender.message_handler.done _ (taken_in l))
  stopped-TakesNone bridges_out l stopped = (stopped, refl)
  stopped-TakesNone writes l stopped = (stopped, refl)
  stopped-TakesNone flushes l stopped = (stopped, refl)
  stopped-TakesNone reads l stopped =
      let same = stopped_read l.sender.writer.written l.receiver stopped in
      (
        ap (λ p. p.1.reading) same ∙ stopped,
        ap (λ p. p.1.handler_incoming ++ p.1.incoming_chan) same,
      )
  stopped-TakesNone bridges_in l stopped =
      stopped_bridge l.receiver.incoming_chan l.receiver refl stopped
  stopped-TakesNone processes l stopped =
      stopped_process l.receiver.handler_incoming l.receiver refl stopped

  stopped_turns :
      (ts : List (Turn F)) (l : Link F)
      → l.receiver.reading ≡ false
      → popped (trace json ts l) ++ taken_in (turns json ts l) ≡ taken_in l
  unfolding trace turns popped TakesNone
  stopped_turns [] l stopped = refl
  stopped_turns (t ∷ ts) l stopped =
      let (still, kept) = stopped-TakesNone t l stopped in
      let now = popped (visible json t l) in
      let rest = trace json ts (turn json t l) in
      ap (λ ms. ms ++ taken_in (turns json ts (turn json t l)))
        (popped-append (visible json t l) rest)
      ∙ append_assoc now (popped rest) (taken_in (turns json ts (turn json t l)))
      ∙ ap (λ ms. now ++ ms) (stopped_turns ts (turn json t l) still)
      ∙ kept

  read_stops :
      (unread : Text) (r : StdioTransport F)
      → scan r.read_buffer_size false unread ≡ too_long
      → read_turn sends sends false unread r ≡ (unread, record r { reading = false })
  unfolding read_turn read_scanned
  read_stops unread r long = elim (Bool-cases r.reading) [
    | inl reading ↦
        ap
          (λ b.
            if b
            then read_scanned sends sends unread (scan r.read_buffer_size false unread) r
            else (unread, r))
          reading
        ∙ ap (λ scanned. read_scanned sends sends unread scanned r) long
    | inr stopped ↦
        stopped_read unread r stopped ∙ ap (λ b. (unread, record r { reading = b })) stopped
  ]

  -- When the stream begins with a line that does not fit the reader's buffer with its newline, the
  -- reader stops for good and tells nobody: whatever turns follow, the receiver's message handler
  -- only ever takes the messages that had been read before.
  pub long_line_stops :
      (message rest : Text) (l : Link F) (ts : List (Turn F))
      → l.sender.writer.written ≡ message ++ 10 ∷ rest
      → Lacks 10 message
      → l.receiver.read_buffer_size ≤ length message
      → popped (trace json (reads ∷ ts) l) ++ taken_in (turns json (reads ∷ ts) l) ≡ taken_in l
  unfolding trace turns turn visible popped
  long_line_stops message rest l ts stream lacks long =
      let read = read_turn sends sends false l.sender.writer.written l.receiver in
      let too = scan-too_long l.receiver.read_buffer_size message rest lacks long in
      let stops =
        read_stops l.sender.writer.written l.receiver
          (ap (scan l.receiver.read_buffer_size false) stream ∙ too) in
      stopped_turns ts (with_read json read l) (ap (λ p. p.1.reading) stops)
      ∙ ap (λ p. p.1.handler_incoming ++ p.1.incoming_chan) stops
