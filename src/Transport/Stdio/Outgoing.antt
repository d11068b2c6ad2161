-- ===== src/Transport/Stdio/Outgoing.antt =====
-- transport/stdio.go: the turns of the sending end, from the message handler to the stream.
use mcp_go_sdk.Prelude.{
  ◌+◌, length, ◌≡◌, sym, ap, ◌∙◌, subst, true, false, ◌||◌, Option, List, [], ◌∷◌, ◌++◌, String,
  arith, All, All-append, if◌then◌else◌,
}
use mathlib.Core.List.{append_assoc, append-nil}
use mcp_go_sdk.Value.{Value}
use mcp_go_sdk.Shared.Text.{Text, Text_Key}
use mcp_go_sdk.Shared.Message.{RpcError}
use mcp_go_sdk.Internal.Handler.{Json, sends, release, register_pending, remove_pending_request}
use mcp_go_sdk.Internal.Handler.Sending.{
  send_request, send_notification, send_response, send_marshalled, put_outgoing,
}
use mcp_go_sdk.Transport.Stdio.{StdioTransport, Writer, is_empty, count, write, write_byte, flush}
use mcp_go_sdk.Transport.Stdio.Loops.{
  write_turn, write_message, flush_turn, bridge_outgoing, stdio_send_request,
  stdio_send_notification, stdio_send_response,
}
use mcp_go_sdk.Transport.Stdio.Lines.{
  Fits, wire, wire-append, accepts, written, write-accepted, write_byte-accepted, written-buffered,
  written-failed, written-stream,
}
use mcp_go_sdk.Transport.Stdio.Queue.{pushed}
use mcp_go_sdk.Transport.Stdio.Link.{
  Link, visible, Holds, with_sender, requests, notifies, responds,
}

module _ {F : Type 0} (json : Json F Text) where
  -- A sender that differs in its message handler's outgoing messages only, which have more at their
  -- end.
  pub sent_more :
      (l : Link F) (t : StdioTransport F) (queue more : List Text)
      → t.writing ≡ l.sender.writing
      → t.writer ≡ l.sender.writer
      → t.outgoing_chan ≡ l.sender.outgoing_chan
      → t.message_handler.outgoing_chan ≡ l.sender.message_handler.outgoing_chan ++ more
      → All (Fits l.receiver.read_buffer_size) more
      → Holds json queue l
      → Holds json (queue ++ more) (with_sender json t l)
  sent_more l t queue more same_writing same_writer same_out e fits
        (writing, ok, clean, reading, size, fit, on_wire, stream, q) =
      (
        same_writing ∙ writing,
        ap (λ w. w.failed) same_writer ∙ ok,
        ap (λ w. w.buffered) same_writer ∙ clean,
        reading,
        size,
        All-append (Fits l.receiver.read_buffer_size) queue more fit fits,
        on_wire,
        ap (λ w. w.written) same_writer ∙ stream,
        (rw (q, same_out, e)
            (append_assoc
              (l.receiver.handler_incoming ++ l.receiver.incoming_chan ++ on_wire
                ++ l.sender.outgoing_chan)
              l.sender.message_handler.outgoing_chan more)),
      )

  -- What the three methods put on the message handler's channel
  pub send_request-outgoing :
      (method : String) (params : Value F) (l : Link F)
      → (stdio_send_request json sends method params l.sender).0.message_handler.outgoing_chan
        ≡ l.sender.message_handler.outgoing_chan ++ pushed (visible json (requests method params) l)
  unfolding stdio_send_request send_request send_marshalled visible pushed remove_pending_request
      release register_pending
  send_request-outgoing method params l =
      ground (arith, append-nil l.sender.message_handler.outgoing_chan)

  pub send_notification-outgoing :
      (method : String) (params : Value F) (l : Link F)
      → (stdio_send_notification json sends method params l.sender).0.message_handler.outgoing_chan
        ≡ l.sender.message_handler.outgoing_chan ++ pushed (visible json (notifies method params) l)
  unfolding stdio_send_notification send_notification put_outgoing visible pushed
  send_notification-outgoing method params l =
      ground (arith, append-nil l.sender.message_handler.outgoing_chan)

  pub send_response-outgoing :
      (id result : Value F) (error : Option (RpcError F)) (l : Link F)
      → (stdio_send_response json sends id result error l.sender).0.message_handler.outgoing_chan
        ≡ l.sender.message_handler.outgoing_chan
          ++ pushed (visible json (responds id result error) l)
  unfolding stdio_send_response send_response put_outgoing visible pushed
  send_response-outgoing id result error l =
      ground (arith, append-nil l.sender.message_handler.outgoing_chan)

  -- The turns that only move messages
  pub bridged_out :
      (l : Link F) (held queue : List Text)
      → l.sender.message_handler.outgoing_chan ≡ held
      → Holds json queue l
      → Holds json queue (with_sender json (bridge_outgoing sends held l.sender) l)
  unfolding bridge_outgoing
  bridged_out l [] queue e holds = holds
  bridged_out l (message ∷ rest) queue e
        (writing, ok, clean, reading, size, fit, on_wire, stream, q) =
      let front = l.receiver.handler_incoming ++ l.receiver.incoming_chan ++ on_wire in
      (
        writing,
        ok,
        clean,
        reading,
        size,
        fit,
        on_wire,
        stream,
        (rw (q, e)
            (ground (
              arith,
              append_assoc front l.sender.outgoing_chan (message ∷ rest),
              append_assoc front (l.sender.outgoing_chan ++ message ∷ []) rest,
              append_assoc l.sender.outgoing_chan (message ∷ []) rest,
            ))),
      )

  -- A message that the stream takes, and that counts
  abbrev pub wrote : Text → StdioTransport F → StdioTransport F
  wrote message t = record t {
    writer = written message t.writer;
    lines_written = count 1 t.lines_written;
    bytes_written = count (length message + 1) t.bytes_written;
  }

  write_message-accepted :
      (message : Text) (t : StdioTransport F)
      → t.writer.failed ≡ false
      → t.writer.buffered ≡ []
      → write_message accepts message t ≡ wrote message t
  unfolding write_message
  write_message-accepted message t ok clean =
      let w = write accepts message t.writer in
      let ended = write_byte accepts 10 w in
      ap
        (λ b.
          if b
          then record t { writer = w }
          else if ended.failed
          then record t { writer = ended }
          else wrote message t)
        (write-accepted message t.writer ok clean)
      ∙ ap (λ b. if b then record t { writer = ended } else wrote message t)
          (write_byte-accepted message t.writer ok clean)

  pub write_turn-accepted :
      (message : Text) (rest : List Text) (t : StdioTransport F)
      → t.writing ≡ true
      → t.writer.failed ≡ false
      → t.writer.buffered ≡ []
      → write_turn accepts (message ∷ rest) t ≡ wrote message (record t { outgoing_chan = rest })
  unfolding write_turn
  write_turn-accepted message rest t writing ok clean =
      let next : StdioTransport F = record t { outgoing_chan = rest } in
      ap (λ b. if b then write_message accepts message next else t) writing
      ∙ write_message-accepted message next ok clean

  pub written_out :
      (l : Link F) (held queue : List Text)
      → l.sender.outgoing_chan ≡ held
      → Holds json queue l
      → Holds json queue (with_sender json (write_turn accepts held l.sender) l)
  unfolding write_turn
  written_out l [] queue e holds = holds
  written_out l (message ∷ rest) queue e
        (writing, ok, clean, reading, size, fit, on_wire, stream, q) =
      let front = l.receiver.handler_incoming ++ l.receiver.incoming_chan in
      subst (λ t. Holds json queue (with_sender json t l))
        (sym (write_turn-accepted message rest l.sender writing ok clean))
        (
          writing,
          written-failed message l.sender.writer ok clean,
          written-buffered message l.sender.writer ok clean,
          reading,
          size,
          fit,
          on_wire ++ message ∷ [],
          (written-stream message l.sender.writer ok clean
              ∙ ap (λ s. s ++ message ++ 10 ∷ []) stream
              ∙ append_assoc (wire on_wire) message (10 ∷ [])
              ∙ sym (wire-append on_wire (message ∷ []))),
          (q
              ∙ (rw e (
                  ground (
                    arith,
                    append_assoc (front ++ on_wire) (message ∷ []) rest,
                    append_assoc front on_wire (message ∷ []),
                  )))),
        )

  pub flushed_out :
      (l : Link F) (queue : List Text)
      → Holds json queue l
      → Holds json queue (with_sender json (flush_turn accepts l.sender) l)
  unfolding flush_turn flush
  flushed_out l queue holds =
      let (writing, ok, clean, _, _, _, _, _, _) = holds in
      let w = l.sender.writer in
      let idle : flush accepts w ≡ w =
        ap (λ b. if b || is_empty w.buffered then w else flushed w) ok
        ∙ ap (λ s. if is_empty s then w else flushed w) clean in
      subst (λ t. Holds json queue (with_sender json t l))
        (sym (
          ap (λ b. if b then record l.sender { writer = flush accepts w } else l.sender) writing
          ∙ ap (λ v. record l.sender { writer = v }) idle))
        holds
    where
      flushed : Writer → Writer
      flushed w = record w { buffered = []; written = w.written ++ w.buffered }
