-- ===== src/Transport/Stdio/Link.antt =====
-- transport/stdio.go: two transports with a stream between them, in one direction: what one of them
-- sends, the other one's message handler takes. In these turns no context ends and the stream takes
-- every byte. A trace names what a run takes in and gives out; a queue replays it.
use mcp_go_sdk.Prelude.{
  ◌<◌, ◌≡◌, refl, sym, ap, ◌∙◌, true, false, Option, List, [], ◌∷◌, ◌++◌, String, if◌then◌else◌,
  All,
}
use mathlib.Core.List.{append_assoc}
use mcp_go_sdk.Value.{Value, int64}
use mcp_go_sdk.Shared.Text.{Text, Text_Key}
use mcp_go_sdk.Shared.Message.{RpcError}
use mcp_go_sdk.Internal.Handler.{Json, sends, next}
use mcp_go_sdk.Transport.Stdio.{StdioTransport}
use mcp_go_sdk.Transport.Stdio.Loops.{
  read_turn, write_turn, flush_turn, bridge_incoming, bridge_outgoing, process_incoming,
  stdio_send_request, stdio_send_notification, stdio_send_response,
}
use mcp_go_sdk.Transport.Stdio.Lines.{Fits, wire, accepts}
use mcp_go_sdk.Transport.Stdio.Queue.{Op, push_encoded, pop_oldest}

pub record Link (F : Type 0) : Type 0 where
  pub sender : StdioTransport F
  pub receiver : StdioTransport F

pub data Turn (F : Type 0) : Type 0 where
  requests notifies : String → Value F → Turn F
  responds : Value F → Value F → Option (RpcError F) → Turn F
  bridges_out writes flushes reads bridges_in processes : Turn F

module _ {F : Type 0} (json : Json F Text) where
  -- What a turn takes in, if the handler is live and the message can be encoded, or gives out
  unfoldable pub visible : Turn F → Link F → List Op
  visible (requests method params) l =
      let h = l.sender.message_handler in
      if h.done
      then []
      else push_encoded (
          json.marshal_request (record {
            jsonrpc = "2.0";
            id = int64 (next h.counter);
            method = method;
            params = params;
          }))
  visible (notifies method params) l =
      if l.sender.message_handler.done
      then []
      else push_encoded
          (json.marshal_notification (record { jsonrpc = "2.0"; method = method; params = params }))
  visible (responds id result error) l =
      if l.sender.message_handler.done
      then []
      else push_encoded (
          json.marshal_response
            (record { jsonrpc = "2.0"; id = id; result = result; error = error }))
  visible processes l = pop_oldest l.receiver.handler_incoming
  visible _ l = []

  -- The sending end of the link, and both ends when the reader has taken bytes
  abbrev pub with_sender : StdioTransport F → Link F → Link F
  with_sender t l = record l { sender = t }

  abbrev pub with_read : Text × StdioTransport F → Link F → Link F
  with_read (unread, r) l =
      let t = l.sender in
      let w = t.writer in
      record { sender = record t { writer = record w { written = unread } }; receiver = r }

  unfoldable pub turn : Turn F → Link F → Link F
  turn (requests method params) l =
      with_sender (stdio_send_request json sends method params l.sender).0 l
  turn (notifies method params) l =
      with_sender (stdio_send_notification json sends method params l.sender).0 l
  turn (responds id result error) l =
      with_sender (stdio_send_response json sends id result error l.sender).0 l
  turn bridges_out l =
      with_sender (bridge_outgoing sends l.sender.message_handler.outgoing_chan l.sender) l
  turn writes l = with_sender (write_turn accepts l.sender.outgoing_chan l.sender) l
  turn flushes l = with_sender (flush_turn accepts l.sender) l
  turn reads l = with_read (read_turn sends sends false l.sender.writer.written l.receiver) l
  turn bridges_in l = record l {
    receiver = bridge_incoming sends l.receiver.incoming_chan l.receiver;
  }
  turn processes l = record l {
    receiver = process_incoming json sends l.receiver.handler_incoming l.receiver;
  }

  unfoldable pub turns : List (Turn F) → Link F → Link F
  unfolding turn
  turns [] l = l
  turns (next_turn ∷ rest) l = turns rest (turn next_turn l)

  unfoldable pub trace : List (Turn F) → Link F → List Op
  unfolding visible turn
  trace [] l = []
  trace (next_turn ∷ rest) l = visible next_turn l ++ trace rest (turn next_turn l)

  -- The link holds the messages of `queue`, on their way from the sender's message handler to the
  -- receiver's, and its loops run.
  abbrev pub Holds : List Text → Link F → Type 0
  Holds queue l =
      let t = l.sender in
      let r = l.receiver in
      (t.writing ≡ true)
      × (t.writer.failed ≡ false)
      × (t.writer.buffered ≡ [])
      × (r.reading ≡ true)
      × (0 < r.read_buffer_size)
      × All (Fits r.read_buffer_size) queue
      × (on_wire : List Text) × (t.writer.written ≡ wire on_wire)
      × (queue
          ≡ r.handler_incoming ++ r.incoming_chan ++ on_wire ++ t.outgoing_chan
            ++ t.message_handler.outgoing_chan)

  pub turns-append :
      (first later : List (Turn F)) (l : Link F)
      → turns (first ++ later) l ≡ turns later (turns first l)
  unfolding turns
  turns-append [] later l = refl
  turns-append (t ∷ first) later l = turns-append first later (turn t l)

  pub trace-append :
      (first later : List (Turn F)) (l : Link F)
      → trace (first ++ later) l ≡ trace first l ++ trace later (turns first l)
  unfolding trace turns
  trace-append [] later l = refl
  trace-append (t ∷ first) later l =
      ap (λ ops. visible t l ++ ops) (trace-append first later (turn t l))
      ∙ sym (
          append_assoc (visible t l) (trace first (turn t l))
            (trace later (turns first (turn t l))))
