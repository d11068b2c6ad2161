-- ===== src/Transport/Stdio.antt =====
-- transport/stdio.go: messages as lines of a byte stream. Of the package bufio this models what the
-- code calls: a Scanner of lines with a bounded buffer and a Writer with its sticky error. `Sink` is
-- one call of the io.Writer; the loops are their turns, and a turn without anything to take waits.
pub mod Loops
pub mod Lines
pub mod Queue
pub mod Link
pub mod Outgoing
pub mod Incoming
pub mod Refinement
pub mod Drain
pub mod Errors
use mcp_go_sdk.Prelude.{
  ℕ, zero, suc, ◌+◌, ◌-◌, ◌%◌, ◌*◌, Bool, true, false, ◌||◌, not, Option, none, some, List, [], ◌∷◌,
  ◌++◌, length, nat_Key, ◌==◌, if◌then◌else◌, leb, ltb, String,
}
use mcp_go_sdk.Value.{Value, int64_mod}
use mcp_go_sdk.Shared.Text.{Text, cut}
use mcp_go_sdk.Shared.Message.{Request, Notification, RpcError}
use mcp_go_sdk.Internal.Handler.{
  MessageHandler, Json, Select, sends, aborts, Run, returns, ◌>>=◌, Sent, new_message_handler,
}
use mcp_go_sdk.Internal.Handler.Sending.{send_request, send_notification, send_response}
use mcp_go_sdk.Internal.Handler.Receiving.{handle_incoming_message, close as close_handler}

-- How a call of Write ends on a chunk, when the stream holds the first text: all of it was taken, or only its
-- first bytes and then there was an error.
abbrev pub Sink : Type 0
Sink = Text → Text → Option ℕ

-- A bufio.Writer, and what the stream that it writes to holds: the bytes that were not read from it
pub record Writer : Type 0 where
  pub size : ℕ
  pub buffered : Text
  pub failed : Bool
  pub written : Text

abbrev pub take : ℕ → Text → Text
take zero text = []
take (suc n) [] = []
take (suc n) (c ∷ text) = c ∷ take n text

abbrev pub drop : ℕ → Text → Text
drop zero text = text
drop (suc n) [] = []
drop (suc n) (c ∷ text) = drop n text

abbrev pub is_empty : Text → Bool
is_empty [] = true
is_empty (c ∷ text) = false

-- `Flush`
unfoldable pub flush : Sink → Writer → Writer
flush sink w = if w.failed || is_empty w.buffered then w else elim (sink w.written w.buffered) [
  | none ↦ record w { buffered = []; written = w.written ++ w.buffered }
  | some n ↦ record w {
    buffered = drop n w.buffered;
    written = w.written ++ take n w.buffered;
    failed = true;
  }
]

-- A chunk that goes around the empty buffer; then what is left of it
unfoldable pub write_through : Sink → Text → Writer → Writer
write_through sink chunk w = elim (sink w.written chunk) [
  | none ↦ record w { written = w.written ++ chunk }
  | some n ↦ record w { written = w.written ++ take n chunk; failed = true }
]

-- The end of `Write`, with an empty buffer
unfoldable pub write_rest : Sink → Text → Writer → Writer
unfolding write_through
write_rest sink chunk w =
    if w.failed
    then w
    else if ltb w.size (length chunk)
    then write_through sink chunk w
    else record w { buffered = chunk }

-- `Write`: a chunk that does not fit fills the buffer first, if that holds anything.
unfoldable pub write : Sink → Text → Writer → Writer
unfolding write_rest flush
write sink chunk w =
    let room = w.size - length w.buffered in
    if w.failed
    then w
    else if leb (length chunk) room
    then record w { buffered = w.buffered ++ chunk }
    else elim w.buffered [
      | [] ↦ write_rest sink chunk w
      | c ∷ rest ↦
          write_rest sink (drop room chunk)
            (flush sink (record w { buffered = w.buffered ++ take room chunk }))
    ]

-- `WriteByte`
unfoldable pub write_byte : Sink → ℕ → Writer → Writer
unfolding flush
write_byte sink c w =
    if w.failed
    then w
    else let ready = if leb w.size (length w.buffered) then flush sink w else w in
      if ready.failed then ready else record ready { buffered = ready.buffered ++ c ∷ [] }

-- What one call of `Scan` makes of the bytes that are not read yet
pub data Scanned : Type 0 where
  token : Text → Text → Scanned
  waits finished too_long : Scanned

-- One carriage return at the end of a line is not part of it.
unfoldable pub drop_cr : Text → Text
drop_cr [] = []
drop_cr (c ∷ []) = if c == 13 then [] else c ∷ []
drop_cr (c ∷ d ∷ text) = c ∷ drop_cr (d ∷ text)

-- A line and its newline have to fit the buffer; `eof` says that no more bytes will come.
unfoldable pub scan : ℕ → Bool → Text → Scanned
unfolding drop_cr cut
scan size eof unread = elim (cut 10 unread) [
  | some (line, rest) ↦ if ltb (length line) size then token (drop_cr line) rest else too_long
  | none ↦
      if leb size (length unread)
      then too_long
      else if not eof
      then waits
      else elim unread [ [] ↦ finished | c ∷ text ↦ token (drop_cr (c ∷ text)) [] ]
]

-- `handler_incoming` is the incoming channel of the message handler; `reading` and `writing` say
-- that the loop has not returned.
pub record StdioTransport (F : Type 0) : Type 0 where
  pub message_handler : MessageHandler F Text
  pub handler_incoming : List Text
  pub incoming_chan : List Text
  pub outgoing_chan : List Text
  pub request_chan : List (Request F)
  pub notification_chan : List (Notification F)
  pub writer : Writer
  pub read_buffer_size : ℕ
  pub reading : Bool
  pub writing : Bool
  pub done : Bool
  pub closed : Bool
  pub bytes_read : ℕ
  pub bytes_written : ℕ
  pub lines_read : ℕ
  pub lines_written : ℕ

pub record StdioConfig : Type 0 where
  pub read_buffer_size : ℕ
  pub write_buffer_size : ℕ
  pub request_timeout : ℕ
  pub message_buffer : ℕ

abbrev pub default_buffer : ℕ
default_buffer = 64 * 1024

unfoldable pub count : ℕ → ℕ → ℕ
count n total = (total + n) % int64_mod

module _ {F : Type 0} where
  unfoldable pub new_stdio_transport : StdioConfig → StdioTransport F
  unfolding new_message_handler
  new_stdio_transport config = record {
    message_handler = new_message_handler (record {
      request_timeout =
          if config.request_timeout == 0 then 30 * 1_000_000_000 else config.request_timeout;
      buffer_size = if config.message_buffer == 0 then 100 else config.message_buffer;
    });
    handler_incoming = [];
    incoming_chan = [];
    outgoing_chan = [];
    request_chan = [];
    notification_chan = [];
    writer = record {
      size = if config.write_buffer_size == 0 then default_buffer else config.write_buffer_size;
      buffered = [];
      failed = false;
      written = [];
    };
    read_buffer_size =
        if config.read_buffer_size == 0 then default_buffer else config.read_buffer_size;
    reading = true;
    writing = true;
    done = false;
    closed = false;
    bytes_read = 0;
    bytes_written = 0;
    lines_read = 0;
    lines_written = 0;
  }
