-- ===== src/Transport/Stdio/Incoming.antt =====
-- transport/stdio.go: the turns of the reading end, from the stream to the message handler.
use mcp_go_sdk.Prelude.{
  ℕ, length, ◌<◌, ◌≢◌, ◌≡◌, refl, sym, ap, ◌∙◌, subst, true, false, none, some, List, [], ◌∷◌, ◌++◌,
  arith, All, All-append_left, All-append_right, if◌then◌else◌,
}
use mathlib.Core.List.{append_assoc}
use mcp_go_sdk.Shared.Text.{Text, cut, Text_Key}
use mcp_go_sdk.Internal.Handler.{Json, sends}
use mcp_go_sdk.Transport.Stdio.{scan, Scanned, waits, StdioTransport, is_empty, count}
use mcp_go_sdk.Transport.Stdio.Loops.{
  read_turn, bridge_incoming, process_incoming, put_line, read_scanned,
}
use mcp_go_sdk.Transport.Stdio.Lines.{Fits, wire, scan_line}
use mcp_go_sdk.Transport.Stdio.Queue.{pop, replay, pop_oldest}
use mcp_go_sdk.Transport.Stdio.Link.{
  Link, Turn, turn, Holds, with_read, requests, notifies, responds, bridges_out, writes, flushes,
  reads, bridges_in, processes,
}

is_empty_full : (message : Text) → message ≢ [] → is_empty message ≡ false
is_empty_full [] full = elim (full refl) [ ]
is_empty_full (c ∷ message) full = refl

scan_idle : (size : ℕ) → 0 < size → scan size false [] ≡ waits
unfolding scan cut
scan_idle size some_room = ground arith

message_Fits :
    (size : ℕ) (before : List Text) (message : Text) (rest out held : List Text)
    → All (Fits size) (before ++ (message ∷ rest) ++ out ++ held)
    → Fits size message
message_Fits size before message rest out held fit =
    (All-append_right (Fits size) before (message ∷ rest) (
      All-append_left (Fits size) (before ++ (message ∷ rest)) out
        (All-append_left (Fits size) (before ++ (message ∷ rest) ++ out) held fit))).0

module _ {F : Type 0} (json : Json F Text) where
  pub bridged_in :
      (l : Link F) (held queue : List Text)
      → l.receiver.incoming_chan ≡ held
      → Holds json queue l
      → Holds json queue (record l { receiver = bridge_incoming sends held l.receiver })
  unfolding bridge_incoming
  bridged_in l [] queue e holds = holds
  bridged_in l (message ∷ rest) queue e
        (writing, ok, clean, reading, size, fit, on_wire, stream, q) =
      (
        writing,
        ok,
        clean,
        reading,
        size,
        fit,
        on_wire,
        stream,
        (q ∙ (rw e (ground (arith, append_assoc l.receiver.handler_incoming (message ∷ []) rest)))),
      )

  -- A line that the reader takes
  abbrev pub took : Text → StdioTransport F → StdioTransport F
  took message r = record r {
    lines_read = count 1 r.lines_read;
    bytes_read = count (length message) r.bytes_read;
    incoming_chan = r.incoming_chan ++ message ∷ [];
  }

  pub read_turn-line :
      (message rest : Text) (r : StdioTransport F)
      → r.reading ≡ true
      → Fits r.read_buffer_size message
      → read_turn sends sends false (message ++ 10 ∷ rest) r ≡ (rest, took message r)
  unfolding read_turn read_scanned put_line
  read_turn-line message rest r reading fits =
      let unread = message ++ 10 ∷ rest in
      let read : Scanned → Text × StdioTransport F =
        λ scanned. read_scanned sends sends unread scanned r in
      ap (λ b. if b then read (scan r.read_buffer_size false unread) else (unread, r)) reading
      ∙ ap read (scan_line r.read_buffer_size false message rest fits)
      ∙ ap (λ b. (rest, if b then r else took message r)) (is_empty_full message fits.0)

  pub read_turn-idle :
      (r : StdioTransport F)
      → r.reading ≡ true
      → 0 < r.read_buffer_size
      → read_turn sends sends false [] r ≡ ([], r)
  unfolding read_turn read_scanned
  read_turn-idle r reading size =
      let read : Scanned → Text × StdioTransport F =
        λ scanned. read_scanned sends sends [] scanned r in
      ap (λ b. if b then read (scan r.read_buffer_size false []) else ([], r)) reading
      ∙ ap read (scan_idle r.read_buffer_size size)

  pub next_line :
      (message : Text) (rest : List Text) (l : Link F) (queue : List Text)
      → l.receiver.reading ≡ true
      → All (Fits l.receiver.read_buffer_size) queue
      → l.sender.writer.written ≡ wire (message ∷ rest)
      → queue
        ≡ l.receiver.handler_incoming
          ++ l.receiver.incoming_chan
          ++ (message ∷ rest)
          ++ l.sender.outgoing_chan
          ++ l.sender.message_handler.outgoing_chan
      → read_turn sends sends false l.sender.writer.written l.receiver
        ≡ (wire rest, took message l.receiver)
  next_line message rest l queue reading fit stream q =
      let before = l.receiver.handler_incoming ++ l.receiver.incoming_chan in
      let fits =
        message_Fits l.receiver.read_buffer_size before message rest l.sender.outgoing_chan
          l.sender.message_handler.outgoing_chan
          (subst (All (Fits l.receiver.read_buffer_size)) q fit) in
      ap (λ s. read_turn sends sends false s l.receiver) stream
      ∙ read_turn-line message (wire rest) l.receiver reading fits

  pub read_in :
      (l : Link F) (queue : List Text)
      → Holds json queue l
      → Holds json queue
          (with_read json (read_turn sends sends false l.sender.writer.written l.receiver) l)
  read_in l queue (writing, ok, clean, reading, size, fit, [], stream, q) =
      subst (λ p. Holds json queue (with_read json p l))
        (sym (
          ap (λ s. read_turn sends sends false s l.receiver) stream
          ∙ read_turn-idle l.receiver reading size))
        (writing, ok, clean, reading, size, fit, [], refl, q)
  read_in l queue (writing, ok, clean, reading, size, fit, message ∷ rest, stream, q) =
      let before = l.receiver.handler_incoming ++ l.receiver.incoming_chan in
      subst (λ p. Holds json queue (with_read json p l))
        (sym (next_line message rest l queue reading fit stream q))
        (
          writing,
          ok,
          clean,
          reading,
          size,
          fit,
          rest,
          refl,
          (q
              ∙ ground (
                arith,
                append_assoc before (message ∷ []) rest,
                append_assoc l.receiver.handler_incoming l.receiver.incoming_chan (message ∷ []),
              )),
        )

  pub processed :
      (l : Link F) (held queue : List Text)
      → l.receiver.handler_incoming ≡ held
      → Holds json queue l
      → (rest : List Text) × (replay (pop_oldest held) queue ≡ some rest)
        × Holds json rest (record l { receiver = process_incoming json sends held l.receiver })
  unfolding process_incoming replay
  processed l [] queue e holds = (queue, refl, holds)
  processed l (message ∷ rest) queue e
        (writing, ok, clean, reading, size, fit, on_wire, stream, q) =
      let after =
        rest ++ l.receiver.incoming_chan ++ on_wire ++ l.sender.outgoing_chan
        ++ l.sender.message_handler.outgoing_chan in
      let front : queue ≡ message ∷ after = q ∙ (rw e refl) in
      let fits = subst (All (Fits l.receiver.read_buffer_size)) front fit in
      (
        after,
        ap (replay (pop message ∷ [])) front
            ∙ ap (λ b. if b then some after else none) ((Text_Key.same_iff message message).1 refl),
        (writing, ok, clean, reading, size, fits.1, on_wire, stream, refl),
      )

  read_turn-size :
      (unread : Text) (r : StdioTransport F)
      → (read_turn sends sends false unread r).1.read_buffer_size ≡ r.read_buffer_size
  unfolding read_turn read_scanned put_line
  read_turn-size unread r = ground arith

  bridge_incoming-size :
      (held : List Text) (r : StdioTransport F)
      → (bridge_incoming sends held r).read_buffer_size ≡ r.read_buffer_size
  unfolding bridge_incoming
  bridge_incoming-size held r = ground arith

  process_incoming-size :
      (held : List Text) (r : StdioTransport F)
      → (process_incoming json sends held r).read_buffer_size ≡ r.read_buffer_size
  unfolding process_incoming
  process_incoming-size held r = ground arith

  pub turn-size :
      (t : Turn F) (l : Link F)
      → (turn json t l).receiver.read_buffer_size ≡ l.receiver.read_buffer_size
  unfolding turn
  turn-size reads l = read_turn-size l.sender.writer.written l.receiver
  turn-size bridges_in l = bridge_incoming-size l.receiver.incoming_chan l.receiver
  turn-size processes l = process_incoming-size l.receiver.handler_incoming l.receiver
  turn-size (requests method params) l = refl
  turn-size (notifies method params) l = refl
  turn-size (responds id result error) l = refl
  turn-size bridges_out l = refl
  turn-size writes l = refl
  turn-size flushes l = refl
