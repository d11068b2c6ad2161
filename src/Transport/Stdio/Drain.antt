-- ===== src/Transport/Stdio/Drain.antt =====
-- transport/stdio.go: what was sent arrives.
use mcp_go_sdk.Prelude.{
  ℕ, zero, suc, ◌≡◌, ◌≢◌, refl, sym, ap, ◌∙◌, subst, false, List, [], ◌∷◌, ◌++◌, length, arith, All,
}
use mathlib.Core.List.{append-nil}
use mcp_go_sdk.Shared.Text.{Text}
use mcp_go_sdk.Internal.Handler.{Json, sends}
use mcp_go_sdk.Transport.Stdio.Lines.{Fits, wire, accepts, written-stream}
use mcp_go_sdk.Transport.Stdio.Loops.{
  bridge_incoming, bridge_outgoing, write_turn, read_turn, process_incoming,
}
use mcp_go_sdk.Transport.Stdio.Outgoing.{bridged_out, written_out, write_turn-accepted}
use mcp_go_sdk.Transport.Stdio.Incoming.{processed, bridged_in, read_in, read_turn-idle, next_line}
use mcp_go_sdk.Transport.Stdio.Refinement.{turns_refine}
use mcp_go_sdk.Transport.Stdio.Queue.{
  pushed, popped-append, replayed_in_order, popped, pop, replay-pop, pop_oldest,
}
use mcp_go_sdk.Transport.Stdio.Link.{
  Link, Turn, Holds, trace-append, with_sender, with_read, turn, turns, trace, visible, reads,
  bridges_in, processes, bridges_out, writes,
}

never_empty : {A : Type 0} (xs : List A) (x : A) (ys : List A) → xs ++ x ∷ ys ≢ []
never_empty [] x ys e = ground arith
never_empty (y ∷ xs) x ys e = ground arith

wire_empty : (messages : List Text) → wire messages ≡ [] → messages ≡ []
wire_empty [] e = refl
wire_empty (message ∷ rest) e = elim (never_empty message 10 (wire rest) e) [ ]

module _ {F : Type 0} (json : Json F Text) where
  -- One turn of each loop, in the order in which a message passes them
  abbrev pub round : List (Turn F)
  round = bridges_out ∷ writes ∷ reads ∷ bridges_in ∷ processes ∷ []

  unfoldable pub rounds : ℕ → List (Turn F)
  rounds zero = []
  rounds (suc n) = round ++ rounds n

  -- Nothing is on its way but in the first parts of the link, so that the queue is empty if they are.
  abbrev BeforeWriting : List Text → Link F → Type 0
  BeforeWriting queue l =
      l.receiver.handler_incoming ≡ []
      → l.receiver.incoming_chan ≡ []
      → l.sender.writer.written ≡ []
      → l.sender.outgoing_chan ≡ []
      → queue ≡ []

  abbrev BeforeReading : List Text → Link F → Type 0
  BeforeReading queue l =
      l.receiver.handler_incoming ≡ []
      → l.receiver.incoming_chan ≡ []
      → l.sender.writer.written ≡ []
      → queue ≡ []

  abbrev BeforeBridging : List Text → Link F → Type 0
  BeforeBridging queue l =
      l.receiver.handler_incoming ≡ [] → l.receiver.incoming_chan ≡ [] → queue ≡ []

  abbrev BeforeProcessing : List Text → Link F → Type 0
  BeforeProcessing queue l = l.receiver.handler_incoming ≡ [] → queue ≡ []

  bridges_out-ready :
      (l : Link F) (held queue : List Text)
      → l.sender.message_handler.outgoing_chan ≡ held
      → Holds json queue l
      → BeforeWriting queue (with_sender json (bridge_outgoing sends held l.sender) l)
  unfolding bridge_outgoing
  bridges_out-ready l [] queue e (writing, ok, clean, reading, size, fit, on_wire, stream, q) no_in
        no_chan no_wire no_out =
      let idle = wire_empty on_wire (sym stream ∙ no_wire) in
      rw (q, no_in, no_chan, idle, no_out, e) refl
  bridges_out-ready l (message ∷ rest) queue e holds no_in no_chan no_wire no_out =
      elim (never_empty l.sender.outgoing_chan message [] no_out) [ ]

  writes-ready :
      (l : Link F) (held queue : List Text)
      → l.sender.outgoing_chan ≡ held
      → Holds json queue l
      → BeforeWriting queue l
      → BeforeReading queue (with_sender json (write_turn accepts held l.sender) l)
  unfolding write_turn
  writes-ready l [] queue e holds ready no_in no_chan no_wire = ready no_in no_chan no_wire e
  writes-ready l (message ∷ rest) queue e
        (writing, ok, clean, reading, size, fit, on_wire, stream, q) ready no_in no_chan no_wire =
      let wrote_it =
        ap (λ t. t.writer.written) (write_turn-accepted json message rest l.sender writing ok clean)
        ∙ written-stream message l.sender.writer ok clean in
      let never : l.sender.writer.written ++ message ++ 10 ∷ [] ≡ [] = sym wrote_it ∙ no_wire in
      elim (never_empty (l.sender.writer.written ++ message) 10 [] never) [ ]

  reads-ready :
      (l : Link F) (queue : List Text)
      → Holds json queue l
      → BeforeReading queue l
      → BeforeBridging queue
          (with_read json (read_turn sends sends false l.sender.writer.written l.receiver) l)
  reads-ready l queue (writing, ok, clean, reading, size, fit, [], stream, q) ready no_in no_chan =
      let same =
        ap (λ s. read_turn sends sends false s l.receiver) stream
        ∙ read_turn-idle json l.receiver reading size in
      ready (sym (ap (λ p. p.1.handler_incoming) same) ∙ no_in)
        (sym (ap (λ p. p.1.incoming_chan) same) ∙ no_chan) stream
  reads-ready l queue (writing, ok, clean, reading, size, fit, message ∷ rest, stream, q) ready
        no_in no_chan =
      let line = next_line json message rest l queue reading fit stream q in
      let never : l.receiver.incoming_chan ++ message ∷ [] ≡ [] =
        sym (ap (λ p. p.1.incoming_chan) line) ∙ no_chan in
      elim (never_empty l.receiver.incoming_chan message [] never) [ ]

  bridges_in-ready :
      (l : Link F) (held queue : List Text)
      → l.receiver.incoming_chan ≡ held
      → BeforeBridging queue l
      → BeforeProcessing queue (record l { receiver = bridge_incoming sends held l.receiver })
  unfolding bridge_incoming
  bridges_in-ready l [] queue e ready no_in = ready no_in e
  bridges_in-ready l (message ∷ rest) queue e ready no_in =
      elim (never_empty l.receiver.handler_incoming message [] no_in) [ ]

  processes_pops :
      (l : Link F) (held : List Text) (message : Text) (queue : List Text)
      → l.receiver.handler_incoming ≡ held
      → BeforeProcessing (message ∷ queue) l
      → Holds json (message ∷ queue) l
      → (pop_oldest held ≡ pop message ∷ [])
        × Holds json queue (record l { receiver = process_incoming json sends held l.receiver })
  processes_pops l [] message queue e ready holds =
      let never : message ∷ queue ≡ [] = ready e in elim (never_empty [] message queue never) [ ]
  processes_pops l (first ∷ rest) message queue e ready holds =
      let (left, replayed, held) = processed json l (first ∷ rest) (message ∷ queue) e holds in
      let (same, same_rest) = replay-pop first message queue left replayed in
      (
        ap (λ m. pop m ∷ []) same,
        subst
            (λ q.
              Holds json q
                (record l { receiver = process_incoming json sends (first ∷ rest) l.receiver }))
            same_rest held,
      )

  -- A round passes the oldest message to the receiver's message handler.
  round_pops :
      (message : Text) (queue : List Text) (l : Link F)
      → Holds json (message ∷ queue) l
      → (trace json round l ≡ pop message ∷ []) × Holds json queue (turns json round l)
  unfolding trace turns turn visible
  round_pops message queue l holds =
      let all = message ∷ queue in
      let held1 = bridged_out json l l.sender.message_handler.outgoing_chan all refl holds in
      let ready1 = bridges_out-ready l l.sender.message_handler.outgoing_chan all refl holds in
      let l1 = turn json bridges_out l in
      let held2 = written_out json l1 l1.sender.outgoing_chan all refl held1 in
      let ready2 = writes-ready l1 l1.sender.outgoing_chan all refl held1 ready1 in
      let l2 = turn json writes l1 in
      let held3 = read_in json l2 all held2 in
      let ready3 = reads-ready l2 all held2 ready2 in
      let l3 = turn json reads l2 in
      let held4 = bridged_in json l3 l3.receiver.incoming_chan all refl held3 in
      let ready4 = bridges_in-ready l3 l3.receiver.incoming_chan all refl ready3 in
      let l4 = turn json bridges_in l3 in
      let (popped_it, held5) =
        processes_pops l4 l4.receiver.handler_incoming message queue refl ready4 held4 in
      (append-nil (pop_oldest l4.receiver.handler_incoming) ∙ popped_it, held5)

  -- As many rounds as the link holds messages bring all of them to the receiver's message handler,
  -- in order, and leave the link empty.
  rounds_deliver :
      (queue : List Text) (l : Link F)
      → Holds json queue l
      → popped (trace json (rounds (length queue)) l) ≡ queue
  unfolding rounds popped trace turns
  rounds_deliver [] l holds = refl
  rounds_deliver (message ∷ queue) l holds =
      let (now, held) = round_pops message queue l holds in
      let more = rounds (length queue) in
      ap popped (
        trace-append json round more l
        ∙ ap (λ ops. ops ++ trace json more (turns json round l)) now)
      ∙ ap (λ ms. message ∷ ms) (rounds_deliver queue (turns json round l) held)

  -- After any run of a link that held no message, in which the messages that are sent fit the
  -- reader, some number of rounds of the loops brings to the receiver's message handler what it does
  -- not have yet: it gets all messages that were sent, each once and in the order of sending.
  pub everything_arrives :
      (ts : List (Turn F)) (l : Link F)
      → All (Fits l.receiver.read_buffer_size) (pushed (trace json ts l))
      → Holds json [] l
      → (n : ℕ) × (popped (trace json (ts ++ rounds n) l) ≡ pushed (trace json ts l))
  everything_arrives ts l fits holds =
      let (rest, replayed, held) = turns_refine json ts l [] fits holds in
      let more = rounds (length rest) in
      (
        length rest,
        ap popped (trace-append json ts more l)
            ∙ popped-append (trace json ts l) (trace json more (turns json ts l))
            ∙ ap (λ ms. popped (trace json ts l) ++ ms) (rounds_deliver rest (turns json ts l) held)
            ∙ sym (replayed_in_order (trace json ts l) [] rest replayed),
      )
