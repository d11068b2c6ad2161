-- ===== src/Transport/StdioExamples.antt =====
-- Instances for the stdio transport: a link whose reader's buffer has eight bytes. Of what is sent
-- here only the requests can be encoded, each as the text "hi".
use mcp_go_sdk.Prelude.{ℕ, ◌≡◌, refl, none, some, List, [], ◌∷◌, ◌++◌, arith}
use mcp_go_sdk.Value.{null}
use mcp_go_sdk.Shared.Text.{Text, codes}
use mcp_go_sdk.Shared.UriTemplate.Names.{Lacks}
use mcp_go_sdk.Internal.Handler.{Json, register_pending}
use mcp_go_sdk.Internal.Handler.Sending.{send_request, send_marshalled}
use mcp_go_sdk.Transport.Stdio.Loops.{stdio_send_request}
use mcp_go_sdk.Transport.Stdio.{StdioTransport, StdioConfig, new_stdio_transport, drop_cr}
use mcp_go_sdk.Transport.Stdio.Lines.{Fits}
use mcp_go_sdk.Transport.Stdio.Queue.{replay, pushed, popped}
use mcp_go_sdk.Transport.Stdio.Link.{
  Link, Turn, Holds, turns, trace, visible, turn, requests, bridges_out, writes, reads, bridges_in,
  processes,
}
use mcp_go_sdk.Transport.Stdio.Refinement.{turns_refine}
use mcp_go_sdk.Transport.Stdio.Drain.{everything_arrives, rounds}
use mcp_go_sdk.Transport.Stdio.Errors.{long_line_stops, taken_in}

abbrev small : StdioConfig
small = record {
  read_buffer_size = 8;
  write_buffer_size = 0;
  request_timeout = 0;
  message_buffer = 0;
}

abbrev json : Json ℕ Text
json = record {
  marshal_request = λ r. some (codes "hi");
  marshal_notification = λ n. none;
  marshal_response = λ r. none;
  unmarshal = λ text. none;
}

abbrev idle : Link ℕ
idle = record { sender = new_stdio_transport small; receiver = new_stdio_transport small }

abbrev two_requests : List (Turn ℕ)
two_requests = requests "ping" null ∷ requests "ping" null ∷ bridges_out ∷ writes ∷ reads ∷ []

idle-Holds : Holds json [] idle
unfolding new_stdio_transport
idle-Holds = (refl, refl, refl, refl, ground arith, tt, [], refl, refl)

hi-Fits : Fits 8 (codes "hi")
unfolding drop_cr
hi-Fits =
    ((λ e. ground arith), ((λ e. ground arith), ((λ e. ground arith), tt)), refl, ground arith)

turns_refine_example :
    (rest : List Text) × (replay (trace json two_requests idle) [] ≡ some rest)
    × Holds json rest (turns json two_requests idle)
unfolding new_stdio_transport trace visible pushed turn stdio_send_request send_request
    send_marshalled register_pending
turns_refine_example = turns_refine json two_requests idle [] (hi-Fits, (hi-Fits, tt)) idle-Holds

everything_arrives_example :
    (n : ℕ) × (popped (trace json (two_requests ++ rounds json n) idle)
      ≡ pushed (trace json two_requests idle))
unfolding new_stdio_transport trace visible pushed turn stdio_send_request send_request
    send_marshalled register_pending
everything_arrives_example =
    everything_arrives json two_requests idle (hi-Fits, (hi-Fits, tt)) idle-Holds

-- Nine letters and a newline wait in the stream.
abbrev long_line : Link ℕ
long_line =
    let t : StdioTransport ℕ = new_stdio_transport small in
    let w = t.writer in
    record {
      sender = record t {
        writer = record w { written = codes "overlong!" ++ 10 ∷ codes "hi" ++ 10 ∷ [] };
      };
      receiver = new_stdio_transport small;
    }

overlong-Lacks : Lacks 10 (codes "overlong!")
overlong-Lacks = (
  (λ e. ground arith),
  (
    (λ e. ground arith),
    (
      (λ e. ground arith),
      (
        (λ e. ground arith),
        (
          (λ e. ground arith),
          (
            (λ e. ground arith),
            ((λ e. ground arith), ((λ e. ground arith), ((λ e. ground arith), tt))),
          ),
        ),
      ),
    ),
  ),
)

long_line_stops_example :
    popped (trace json (reads ∷ reads ∷ bridges_in ∷ processes ∷ []) long_line)
      ++ taken_in json (turns json (reads ∷ reads ∷ bridges_in ∷ processes ∷ []) long_line)
    ≡ taken_in json long_line
unfolding new_stdio_transport
long_line_stops_example =
    long_line_stops json (codes "overlong!") (codes "hi" ++ 10 ∷ []) long_line
      (reads ∷ bridges_in ∷ processes ∷ []) refl overlong-Lacks (ground arith)
