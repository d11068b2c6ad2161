-- ===== src/Transport/Stdio/Loops.antt =====
-- transport/stdio.go: the goroutines of the transport by their turns, and its methods. A `Select`
-- says which case of a select ran where both could; `handed` is the scanning goroutine's, `put` and
-- the others are those of the loops.
use mcp_go_sdk.Prelude.{
  ℕ, ◌+◌, Bool, true, false, Option, List, [], ◌∷◌, ◌++◌, String, length, if◌then◌else◌,
}
use mcp_go_sdk.Value.{Value}
use mcp_go_sdk.Shared.Text.{Text}
use mcp_go_sdk.Shared.Message.{Request, Notification, RpcError}
use mcp_go_sdk.Internal.Handler.{Json, Select, sends, aborts, Run, returns, ◌>>=◌, Sent}
use mcp_go_sdk.Internal.Handler.Sending.{send_request, send_notification, send_response}
use mcp_go_sdk.Internal.Handler.Receiving.{handle_incoming_message, close}
use mcp_go_sdk.Transport.Stdio.{
  Sink, flush, write, write_byte, scan, Scanned, token, waits, finished, too_long, is_empty,
  StdioTransport, count,
}

module _ {F : Type 0} where
  -- The line that the scanner found goes to the loop and from there to incomingChan.
  unfoldable pub put_line : Select → Select → Text → StdioTransport F → StdioTransport F
  put_line aborts put line t = record t { reading = false }
  put_line sends put line t =
      let counted : StdioTransport F = record t {
        lines_read = count 1 t.lines_read;
        bytes_read = count (length line) t.bytes_read;
      } in
      elim put [
        | sends ↦ record counted { incoming_chan = counted.incoming_chan ++ line ∷ [] }
        | aborts ↦ record counted { reading = false }
      ]

  -- What the scanner found in `unread`. Empty lines are passed over; an error of the scanner ends
  -- the loop like the end of the stream.
  unfoldable pub read_scanned :
      Select → Select → Text → Scanned → StdioTransport F → Text × StdioTransport F
  unfolding put_line
  read_scanned handed put unread (token line rest) t =
      (rest, if is_empty line then t else put_line handed put line t)
  read_scanned handed put unread waits t = (unread, t)
  read_scanned handed put unread finished t = (unread, record t { reading = false })
  read_scanned handed put unread too_long t = (unread, record t { reading = false })

  -- One turn of readLoop on the bytes that it has not read: what is left of them, and the
  -- transport
  unfoldable pub read_turn :
      Select → Select → Bool → Text → StdioTransport F → Text × StdioTransport F
  unfolding read_scanned
  read_turn handed put eof unread t =
      if t.reading
      then read_scanned handed put unread (scan t.read_buffer_size eof unread) t
      else (unread, t)

  -- One message of writeLoop: after an error of Write or WriteByte the loop goes on to the next.
  unfoldable pub write_message : Sink → Text → StdioTransport F → StdioTransport F
  write_message sink message t =
      let w = write sink message t.writer in
      let ended = write_byte sink 10 w in
      if w.failed
      then record t { writer = w }
      else if ended.failed
      then record t { writer = ended }
      else record t {
        writer = flush sink ended;
        lines_written = count 1 t.lines_written;
        bytes_written = count (length message + 1) t.bytes_written;
      }

  unfoldable pub write_turn : Sink → List Text → StdioTransport F → StdioTransport F
  unfolding write_message
  write_turn sink [] t = t
  write_turn sink (message ∷ rest) t =
      if t.writing then write_message sink message (record t { outgoing_chan = rest }) else t

  -- The ticker's case, and the end of the loop when the context is done
  unfoldable pub flush_turn : Sink → StdioTransport F → StdioTransport F
  flush_turn sink t = if t.writing then record t { writer = flush sink t.writer } else t

  unfoldable pub end_writing : Sink → StdioTransport F → StdioTransport F
  end_writing sink t =
      if t.writing then record t { writer = flush sink t.writer; writing = false } else t

  unfoldable pub bridge_incoming : Select → List Text → StdioTransport F → StdioTransport F
  bridge_incoming sel [] t = t
  bridge_incoming sends (line ∷ rest) t = record t {
    incoming_chan = rest;
    handler_incoming = t.handler_incoming ++ line ∷ [];
  }
  bridge_incoming aborts (line ∷ rest) t = record t { incoming_chan = rest; done = true }

  unfoldable pub bridge_outgoing : Select → List Text → StdioTransport F → StdioTransport F
  bridge_outgoing sel [] t = t
  bridge_outgoing sends (message ∷ rest) t =
      let h = t.message_handler in
      record t {
        message_handler = record h { outgoing_chan = rest };
        outgoing_chan = t.outgoing_chan ++ message ∷ [];
      }
  bridge_outgoing aborts (message ∷ rest) t =
      let h = t.message_handler in
      record t { message_handler = record h { outgoing_chan = rest }; done = true }

  unfoldable pub bridge_requests : Select → List (Request F) → StdioTransport F → StdioTransport F
  bridge_requests sel [] t = t
  bridge_requests sends (r ∷ rest) t =
      let h = t.message_handler in
      record t {
        message_handler = record h { request_chan = rest };
        request_chan = t.request_chan ++ r ∷ [];
      }
  bridge_requests aborts (r ∷ rest) t =
      let h = t.message_handler in
      record t { message_handler = record h { request_chan = rest }; done = true }

  unfoldable pub bridge_notifications :
      Select → List (Notification F) → StdioTransport F → StdioTransport F
  bridge_notifications sel [] t = t
  bridge_notifications sends (n ∷ rest) t =
      let h = t.message_handler in
      record t {
        message_handler = record h { notification_chan = rest };
        notification_chan = t.notification_chan ++ n ∷ [];
      }
  bridge_notifications aborts (n ∷ rest) t =
      let h = t.message_handler in
      record t { message_handler = record h { notification_chan = rest }; done = true }

  -- The message handler takes the oldest of what bridgeIncoming sent to it.
  unfoldable pub process_incoming :
      Json F Text → Select → List Text → StdioTransport F → StdioTransport F
  process_incoming json sel [] t = t
  process_incoming json sel (message ∷ rest) t = record t {
    handler_incoming = rest;
    message_handler = handle_incoming_message json sel message t.message_handler;
  }

  -- StdioTransport.SendRequest, SendNotification and SendResponse
  unfoldable pub stdio_send_request :
      Json F Text → Select → String → Value F → StdioTransport F → StdioTransport F × Sent ℕ
  stdio_send_request json sel method params t =
      let (h, sent) = send_request json sel method params t.message_handler in
      (record t { message_handler = h }, sent)

  unfoldable pub stdio_send_notification :
      Json F Text
      → Select
      → String
      → Value F
      → StdioTransport F
      → StdioTransport F × Sent (Unit {0})
  stdio_send_notification json sel method params t =
      let (h, sent) = send_notification json sel method params t.message_handler in
      (record t { message_handler = h }, sent)

  unfoldable pub stdio_send_response :
      Json F Text
      → Select
      → Value F
      → Value F
      → Option (RpcError F)
      → StdioTransport F
      → StdioTransport F × Sent (Unit {0})
  stdio_send_response json sel id result error t =
      let (h, sent) = send_response json sel id result error t.message_handler in
      (record t { message_handler = h }, sent)

  -- Close: the context ends, the goroutines return, and the message handler is closed; once.
  unfoldable pub stdio_close : Sink → StdioTransport F → Run (StdioTransport F)
  unfolding end_writing
  stdio_close sink t =
      let ended = end_writing sink t in
      if t.closed
      then returns t
      else close t.message_handler >>= λ h.
          returns
            (record ended { message_handler = h; reading = false; done = true; closed = true })
