-- ===== src/Transport/HttpClient/Reconnecting.antt =====
-- transport/streamable_http.go: how often startSSEConnection connects.
use mcp_go_sdk.Prelude.{ℕ, ◌+◌, ◌≤◌, ◌<◌, ◌≡◌, false, Option, some, ◌⊎◌, nat_Key}
use mcp_go_sdk.Shared.Text.{Text}
use mcp_go_sdk.Transport.HttpClient.{HttpTransport, Client}
use mcp_go_sdk.Transport.HttpClient.Stream.{
  Connection, SseError, SseProgress, returned, connecting, connect_sse,
}

module _ {F : Type 0} (client : Client F) where
  -- What a connection does not touch
  abbrev pub Kept : HttpTransport F → HttpTransport F → Type 0
  Kept t u =
      (u.max_reconnects ≡ t.max_reconnects)
      × (u.sse_connected ≡ t.sse_connected)
      × (u.sse_reconnects ≡ t.sse_reconnects)

  -- It ends with an error, whatever it read.
  abbrev pub Lost : HttpTransport F → HttpTransport F × Option SseError → Type 0
  Lost t p = (e : SseError) × (p.1 ≡ some e) × Kept t (p.0)

  -- A turn ends the loop, or raises the count; SSE is not connected after it.
  abbrev pub Settled : ℕ → HttpTransport F → SseProgress F → Type 0
  Settled count t p =
      (u : HttpTransport F) × (u.sse_connected ≡ false)
      × (((p ≡ returned u) × (u.sse_reconnects + count ≤ t.sse_reconnects + t.max_reconnects))
          ⊎ ((p ≡ connecting (count + 1) u)
              × (u.sse_reconnects ≡ t.sse_reconnects + 1)
              × (count < t.max_reconnects)
              × (u.max_reconnects ≡ t.max_reconnects)))

  -- SSE does not count as connected: neither at this point of the loop, nor while the connection that
  -- is made next is open, whatever lines it has brought by then.
  abbrev pub Disconnected : Connection → SseProgress F → Type 0
  Disconnected c (returned u) = u.sse_connected ≡ false
  Disconnected c (connecting n u) =
      (u.sse_connected ≡ false) × ((connect_sse client c u).0.sse_connected ≡ false)

  abbrev OffAfter : SseProgress F → Type 0
  OffAfter (returned u) = u.sse_connected ≡ false
  OffAfter (connecting n u) = u.sse_connected ≡ false
