-- ===== src/Transport/Stdio/Refinement.antt =====
-- transport/stdio.go: the link is a queue of messages.
use mcp_go_sdk.Prelude.{
  ◌≡◌, refl, sym, ◌∙◌, subst, some, List, [], ◌∷◌, ◌++◌, All, All-append_left, All-append_right,
}
use mcp_go_sdk.Shared.Text.{Text, Text_Key}
use mcp_go_sdk.Internal.Handler.{Json, sends}
use mcp_go_sdk.Transport.Stdio.Loops.{
  stdio_send_request, stdio_send_notification, stdio_send_response,
}
use mcp_go_sdk.Transport.Stdio.Lines.{Fits}
use mcp_go_sdk.Transport.Stdio.Queue.{
  replay, pushed, replay-push_encoded, replay-append, pushed-append,
}
use mcp_go_sdk.Transport.Stdio.Link.{
  Link, Turn, visible, turn, turns, trace, Holds, requests, notifies, responds, bridges_out, writes,
  flushes, reads, bridges_in, processes,
}
use mcp_go_sdk.Transport.Stdio.Outgoing.{
  sent_more, send_request-outgoing, send_notification-outgoing, send_response-outgoing, bridged_out,
  written_out, flushed_out,
}
use mcp_go_sdk.Transport.Stdio.Incoming.{bridged_in, read_in, processed, turn-size}

module _ {F : Type 0} (json : Json F Text) where
  -- After a turn the link holds what the queue does.
  abbrev Refines : Turn F → Link F → List Text → Type 0
  Refines next_turn l queue =
      (rest : List Text) × (replay (visible json next_turn l) queue ≡ some rest)
      × Holds json rest (turn json next_turn l)

  turn-Refines :
      (next_turn : Turn F) (l : Link F) (queue : List Text)
      → All (Fits l.receiver.read_buffer_size) (pushed (visible json next_turn l))
      → Holds json queue l
      → Refines next_turn l queue
  unfolding turn visible stdio_send_request stdio_send_notification stdio_send_response replay
  turn-Refines (requests method params) l queue fits holds = (
    queue ++ pushed (visible json (requests method params) l),
    replay-push_encoded l.sender.message_handler.done _ queue,
    sent_more json l (stdio_send_request json sends method params l.sender).0 queue
        (pushed (visible json (requests method params) l)) refl refl refl
        (send_request-outgoing json method params l) fits holds,
  )
  turn-Refines (notifies method params) l queue fits holds = (
    queue ++ pushed (visible json (notifies method params) l),
    replay-push_encoded l.sender.message_handler.done _ queue,
    sent_more json l (stdio_send_notification json sends method params l.sender).0 queue
        (pushed (visible json (notifies method params) l)) refl refl refl
        (send_notification-outgoing json method params l) fits holds,
  )
  turn-Refines (responds id result error) l queue fits holds = (
    queue ++ pushed (visible json (responds id result error) l),
    replay-push_encoded l.sender.message_handler.done _ queue,
    sent_more json l (stdio_send_response json sends id result error l.sender).0 queue
        (pushed (visible json (responds id result error) l)) refl refl refl
        (send_response-outgoing json id result error l) fits holds,
  )
  turn-Refines bridges_out l queue fits holds =
      (queue, refl, bridged_out json l l.sender.message_handler.outgoing_chan queue refl holds)
  turn-Refines writes l queue fits holds =
      (queue, refl, written_out json l l.sender.outgoing_chan queue refl holds)
  turn-Refines flushes l queue fits holds = (queue, refl, flushed_out json l queue holds)
  turn-Refines reads l queue fits holds = (queue, refl, read_in json l queue holds)
  turn-Refines bridges_in l queue fits holds =
      (queue, refl, bridged_in json l l.receiver.incoming_chan queue refl holds)
  turn-Refines processes l queue fits holds =
      processed json l l.receiver.handler_incoming queue refl holds

  -- A run of the link from a state that holds a queue of messages, in which the messages that are sent
  -- fit the reader, does what a first-in first-out queue does: the queue can replay the messages in
  -- the order in which they were sent and processed, and the link then holds what is left of it.
  pub turns_refine :
      (ts : List (Turn F)) (l : Link F) (queue : List Text)
      → All (Fits l.receiver.read_buffer_size) (pushed (trace json ts l))
      → Holds json queue l
      → (rest : List Text) × (replay (trace json ts l) queue ≡ some rest)
        × Holds json rest (turns json ts l)
  unfolding turns trace replay
  turns_refine [] l queue fits holds = (queue, refl, holds)
  turns_refine (t ∷ ts) l queue fits holds =
      let now = visible json t l in
      let later = trace json ts (turn json t l) in
      let size = l.receiver.read_buffer_size in
      let all_fit = subst (All (Fits size)) (pushed-append now later) fits in
      let (middle, replayed, held) =
        turn-Refines t l queue (All-append_left (Fits size) (pushed now) (pushed later) all_fit)
          holds in
      let later_fit =
        subst (λ n. All (Fits n) (pushed later)) (sym (turn-size json t l))
          (All-append_right (Fits size) (pushed now) (pushed later) all_fit) in
      let (rest, ended, left) = turns_refine ts (turn json t l) middle later_fit held in
      (rest, replay-append now later queue middle replayed ∙ ended, left)
