-- ===== src/Internal/ProgressExamples.antt =====
-- Instances for the progress handler. A float64 is a number here, and a text is the method of the
-- message that it encodes.
use mcp_go_sdk.Prelude.{
  Option, ◌==◌, if◌then◌else◌, ℕ, ◌+◌, ◌≡◌, refl, true, false, none, some, List, [], ◌∷◌, String,
  nat_Key, string_Key, length, arith,
}
use mcp_go_sdk.Prelude.Dict.{lookup, insert}
use mcp_go_sdk.Value.{Value, Fields, null, int64, float64, str, obj, end, field, get, put}
use mcp_go_sdk.Internal.Handler.{
  MessageHandlerConfig, Json, sends, returns, ok, next, new_message_handler,
}
use mcp_go_sdk.Internal.Handler.Receiving.{correlate_response}
use mcp_go_sdk.Internal.Handler.Safety.{new_message_handler-Inv}
use mcp_go_sdk.Internal.Handler.Schedule.{Sound}
use mcp_go_sdk.Internal.Progress.{
  ProgressMessageHandler, ProgressPendingRequest, RequestOptions, add_progress_token, meta_with,
  track, next_token, new_progress_message_handler, send_request_with_progress,
}
use mcp_go_sdk.Internal.Progress.Receiving.{
  handle_progress_notification, handle_request_timeout, parse_progress,
}
use mcp_go_sdk.Internal.Progress.Meta.{entry, fields_of, handle_tools_call-add_progress_token}
use mcp_go_sdk.Internal.Progress.Sends.{ProgressWithin, bare-Tracked, issued, track-Whole}
use mcp_go_sdk.Internal.Progress.Safety.{Whole, timed_out}
use mcp_go_sdk.Internal.Progress.Schedule.{
  ProgressCall, sends_with_progress, notified, expires, closes_progress, progress_run,
  progress_run-Sound,
}
use mcp_go_sdk.Internal.Progress.Outcomes.{
  progress_notice, handle_request_timeout-settled, float_token_unheard, send-notified,
  response_dropped,
}
use mcp_go_sdk.Server.{Server, ToolHandler, value, content}
use mcp_go_sdk.Server.Registration.{new_server, register_tool, add, notify}
use mcp_go_sdk.Server.Handlers.{Params, reply_of, handle_tools_call}
use mcp_go_sdk.Shared.Types.{text}
use mcp_go_sdk.Value.Reparsing.{reparse}

abbrev codec : Json ℕ String
codec = record {
  marshal_request = λ r. some r.method;
  marshal_notification = λ n. some n.method;
  marshal_response = λ r. some "response";
  unmarshal = λ s. none;
}

abbrev floor : ℕ → ℕ
floor x = x

abbrev config : MessageHandlerConfig
config = record { request_timeout = 0; buffer_size = 0 }

abbrev watched : RequestOptions
watched = record {
  on_progress = some 7;
  timeout = 5;
  reset_timeout_on_progress = true;
  max_total_timeout = 60;
  has_context = false;
}

abbrev quiet : ProgressMessageHandler ℕ String
quiet = new_progress_message_handler config

quiet-Whole : Whole quiet
unfolding new_progress_message_handler
quiet-Whole = (bare-Tracked quiet refl refl, new_message_handler-Inv ℕ String config)

-- The fields of a notification of half of the work.
abbrev half : Value ℕ → Fields ℕ
half token =
    field "progressToken" token (field "progress" (float64 50) (field "total" (float64 100) end))

abbrev tracked : ProgressMessageHandler ℕ String
tracked = track 1 (some 1) watched (issued (some 7) quiet)

abbrev tracked_request : ProgressPendingRequest
tracked_request = record {
  id = 1;
  cell = 0;
  progress_callback = some 7;
  progress_token = some 1;
  reset_timeout_on_progress = true;
  timeout = 5;
}

tracked-Whole : Whole tracked
unfolding new_progress_message_handler new_message_handler next next_token
tracked-Whole = track-Whole watched quiet quiet-Whole (omega arith) (omega arith)

abbrev params : Fields ℕ
params = field "name" (str "add") (field "_meta" (obj (field "trace" (str "on") end)) end)

abbrev name_of : Option (Value ℕ) → String
name_of (some (str s)) = s
name_of _ = ""

abbrev server_codec : Params ℕ
server_codec = record {
  read_params = λ v. none;
  call_params = λ v. some (record {
    name = name_of (entry "name" v);
    arguments = end;
    meta = fields_of (entry "_meta" v);
  });
  get_params = λ v. none;
}

-- A tool that says whether it was given the float64 3.
abbrev told_token : Option (Value ℕ) → String
told_token (some (float64 x)) = if x == 3 then "float64 3" else "another float64"
told_token _ = "another token"

abbrev add_tool : ToolHandler ℕ
add_tool context name arguments = value (text (told_token context.progress_token) "" ∷ [])

abbrev server : Server ℕ
server = register_tool "add" "Adds." end add_tool (
    new_server (record {
      name = "example-server";
      version = "1.0.0";
      max_concurrent_requests = 2;
      request_timeout = 0;
      capabilities = record {
        logging = false;
        prompts = none;
        resources = none;
        tools = none;
        completions = false;
      };
    }))

handle_tools_call-add_progress_token_example :
    handle_tools_call server_codec (reparse floor (add_progress_token (obj params) 3)) server
    ≡ reply_of content (value (text "float64 3" "" ∷ []))
unfolding register_tool add notify new_server lookup insert get add_progress_token reparse put
    meta_with
handle_tools_call-add_progress_token_example =
    handle_tools_call-add_progress_token floor server_codec (obj params) 3 "add" end add_tool server
      refl refl

abbrev progress_calls : List (ProgressCall ℕ String)
progress_calls =
    sends_with_progress sends "tools/call" null watched
    ∷ notified (progress_notice (half (int64 1)))
    ∷ expires 1
    ∷ expires 1
    ∷ closes_progress
    ∷ []

progress_run-Sound_example :
    Sound
      (ProgressWithin (length progress_calls))
      (progress_run codec floor progress_calls (new_progress_message_handler config))
progress_run-Sound_example = progress_run-Sound codec floor config progress_calls (omega arith)

handle_request_timeout-settled_example :
    let g = timed_out 1 tracked_request tracked in
    (handle_request_timeout 1 tracked ≡ returns g)
    × (lookup 1 g.progress_requests ≡ none)
    × ((g.cells 0).closed ≡ true)
    × (g.base.stats.timeouts ≡ tracked.base.stats.timeouts + 1)
    × (handle_request_timeout 1 g ≡ returns g)
unfolding track new_progress_message_handler new_message_handler lookup insert
handle_request_timeout-settled_example =
    handle_request_timeout-settled 1 tracked_request tracked tracked-Whole.0 refl

float_token_unheard_example :
    handle_progress_notification floor (progress_notice (half (float64 1))) tracked
    ≡ returns tracked
unfolding track new_progress_message_handler get
float_token_unheard_example = float_token_unheard floor (half (float64 1)) 1 tracked refl refl

send-notified_example :
    let told = parse_progress floor (int64 1) (half (int64 1)) in
    let (g, result) = send_request_with_progress codec sends "tools/call" null watched quiet in
    (f : ProgressMessageHandler ℕ String) × (result ≡ ok 0)
    × (handle_progress_notification floor (progress_notice (half (int64 1))) g ≡ returns f)
    × (f.called ≡ (7, told) ∷ [])
unfolding new_progress_message_handler new_message_handler next get
send-notified_example =
    send-notified floor codec "tools/call" null 7 watched "tools/call" (half (int64 1)) quiet refl
      refl refl

response_dropped_example :
    let (g, result) = send_request_with_progress codec sends "tools/call" null watched quiet in
    (result ≡ ok 0)
    × (correlate_response floor
          (record { jsonrpc = "2.0"; id = float64 1; result = str "pong"; error = none })
          g.base
        ≡ returns g.base)
unfolding new_progress_message_handler new_message_handler next
response_dropped_example =
    response_dropped floor codec "tools/call" null watched "tools/call"
      (record { jsonrpc = "2.0"; id = float64 1; result = str "pong"; error = none }) quiet
      quiet-Whole refl (omega arith) refl refl
