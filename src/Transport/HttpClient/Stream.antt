-- ===== src/Transport/HttpClient/Stream.antt =====
-- transport/streamable_http.go: the SSE stream of the client, its lines and its reconnections.
use mcp_go_sdk.Prelude.{
  ℕ, ◌+◌, Bool, true, false, not, Option, none, some, List, [], ◌∷◌, ◌++◌, nat_Key, string_Key,
  ◌==◌, if◌then◌else◌, leb,
}
use mcp_go_sdk.Shared.Text.{Text, Text_Key, codes}
use mcp_go_sdk.Shared.Message.{JsonrpcMessage, Request, Notification, is_request, is_notification}
use mcp_go_sdk.Internal.Handler.{Select, sends, aborts}
use mcp_go_sdk.Transport.HttpClient.{HttpTransport, Client}

pub data SseError : Type 0 where
  invalid_data context_done request_failed unauthorized_sse unreachable_sse reading_failed
        connection_closed :
      SseError
  bad_status : ℕ → SseError

-- A line of the stream. `cancelled`: the context has ended before it is handled. `select`: which case of
-- the `select` runs that hands its message over.
pub record Line : Type 0 where
  pub cancelled : Bool
  pub text : Text
  pub select : Select

pub data Connection : Type 0 where
  unrequested_sse no_header_sse no_answer_sse : Connection
  stream : ℕ → List Line → Bool → Connection

-- `strings.HasPrefix(text, prefix)`, with the text after the prefix
abbrev pub strip_prefix : Text → Text → Option Text
strip_prefix [] text = some text
strip_prefix (p ∷ prefix) [] = none
strip_prefix (p ∷ prefix) (c ∷ text) = if p == c then strip_prefix prefix text else none

module _ {F : Type 0} where
  unfoldable pub hand_over :
      Select → JsonrpcMessage F → HttpTransport F → HttpTransport F × Option SseError
  hand_over sel msg t =
      if is_notification msg
      then elim sel [
        | sends ↦
            let n : Notification F = record {
              jsonrpc = msg.jsonrpc;
              method = msg.method;
              params = msg.params;
            } in
            (record t { notification_chan = t.notification_chan ++ n ∷ [] }, none)
        | aborts ↦ (t, some context_done)
      ]
      else if is_request msg
      then elim sel [
        | sends ↦
            let r : Request F = record {
              jsonrpc = msg.jsonrpc;
              id = msg.id;
              method = msg.method;
              params = msg.params;
            } in
            (record t { request_chan = t.request_chan ++ r ∷ [] }, none)
        | aborts ↦ (t, some context_done)
      ]
      else (t, none)

  unfoldable pub process_sse_data :
      Client F → Select → Text → HttpTransport F → HttpTransport F × Option SseError
  unfolding hand_over
  process_sse_data client sel [] t = (t, none)
  process_sse_data client sel (c ∷ text) t = elim (client.json.unmarshal (c ∷ text)) [
    | none ↦ (t, some invalid_data)
    | some msg ↦ hand_over sel msg t
  ]

  -- Errors of processSSEData are printed only.
  unfoldable pub process_line : Client F → Select → Text → HttpTransport F → HttpTransport F
  unfolding process_sse_data
  process_line client sel text t = elim (strip_prefix (codes "data: ") text) [
    | none ↦ t
    | some payload ↦ (process_sse_data client sel payload t).0
  ]

  -- The loop of readSSEEvents: the lines that the scanner finds, and whether it ends with an error.
  unfoldable pub read_sse_events :
      Client F → List Line → Bool → HttpTransport F → HttpTransport F × Option SseError
  unfolding process_line
  read_sse_events client [] failed t =
      (t, if failed then some reading_failed else some connection_closed)
  read_sse_events client (line ∷ lines) failed t = elim line.cancelled [
    | true ↦ (t, some context_done)
    | false ↦ read_sse_events client lines failed (process_line client line.select line.text t)
  ]

  unfoldable pub connect_sse :
      Client F → Connection → HttpTransport F → HttpTransport F × Option SseError
  unfolding read_sse_events
  connect_sse client unrequested_sse t = (t, some request_failed)
  connect_sse client no_header_sse t = (t, some unauthorized_sse)
  connect_sse client no_answer_sse t = (t, some unreachable_sse)
  connect_sse client (stream status lines failed) t =
      if not (status == 200)
      then (t, some (bad_status status))
      else read_sse_events client lines failed t

-- A turn of the loop of startSSEConnection: whether the context has ended before it, the connection, and
-- whether it ends in the wait before the next.
pub record Turn : Type 0 where
  pub cancelled : Bool
  pub connection : Connection
  pub cancelled_waiting : Bool

pub data SseProgress (F : Type 0) : Type 0 where
  returned : HttpTransport F → SseProgress F
  connecting : ℕ → HttpTransport F → SseProgress F

module _ {F : Type 0} where
  -- After a connection: go on with the count, or return
  unfoldable pub after_connection : ℕ → Bool → HttpTransport F × Option SseError → SseProgress F
  after_connection count cancelled (t, none) = connecting 0 (record t { sse_connected = true })
  after_connection count cancelled (t, some error) =
      let lost = record t { sse_connected = false } in
      if leb t.max_reconnects count
      then returned lost
      else let again = record lost { sse_reconnects = t.sse_reconnects + 1 } in
        if cancelled then returned again else connecting (count + 1) again

  -- startSSEConnection: the turns that the loop may take, and how far it gets with them
  unfoldable pub sse_loop : Client F → ℕ → List Turn → HttpTransport F → SseProgress F
  unfolding after_connection connect_sse
  sse_loop client count [] t = connecting count t
  sse_loop client count (turn ∷ turns) t = elim turn.cancelled [
    | true ↦ returned t
    | false ↦
        elim (after_connection count turn.cancelled_waiting
          (connect_sse client turn.connection t)) [
            | returned u ↦ returned u
            | connecting n u ↦ sse_loop client n turns u
          ]
  ]
