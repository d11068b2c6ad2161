-- ===== src/Transport/WebSocket/Reconnection.antt =====
-- transport/websocket.go: the loops that a lost connection leaves behind, and reconnections that fail.
use mcp_go_sdk.Prelude.{
  suc, ◌+◌, ◌<◌, ◌≡◌, refl, sym, ◌∙◌, subst, Bool, true, false, none, List, [], ◌∷◌, ◌++◌, arith,
  All, length,
}
use mcp_go_sdk.Internal.Handler.{Json, sends, aborts}
use mcp_go_sdk.Transport.WebSocket.{WebSocketTransport, message, read_error, connect}
use mcp_go_sdk.Transport.WebSocket.Loops.{
  read_turn, read_message, end_reader, handle_disconnection, write_turn, write_message, ping_turn,
  reconnect, web_socket_send_request, web_socket_send_notification, web_socket_send_response,
}
use mcp_go_sdk.Transport.WebSocket.Steps.{
  Turn, turn, turns, connects, reads, writes, pings, reconnects, enables, resets, requests,
  notifies, responds,
}
use mcp_go_sdk.Transport.WebSocket.Connection.{IsLive}

-- What happens with a connection, and then without it, until the next one
pub record Cycle (F B : Type 0) : Type 0 where
  pub connected_turns : List (Turn F B)
  pub offline_turns : List (Turn F B)

module _ {F B : Type 0} where
  -- A live transport that is connected, with reconnection on and no reconnection waiting
  abbrev pub Ready : WebSocketTransport F B → Type 0
  Ready t =
      IsLive t
      × (t.connected ≡ true)
      × (t.reconnect_enabled ≡ true)
      × (t.sleeping ≡ 0)
      × (t.reconnect_count < t.max_reconnects)

  -- Turns while there is a connection that neither end it nor a write loop
  abbrev pub Harmless : Turn F B → Type 0
  Harmless (reads sends (message m)) = Unit
  Harmless (writes true) = Unit
  Harmless (pings accepted) = Unit
  Harmless (requests sel method params) = Unit
  Harmless (notifies sel method params) = Unit
  Harmless (responds sel id result error) = Unit
  Harmless _ = ⊥

  -- The same while there is none: no write loop takes a message.
  abbrev pub Offline : Turn F B → Type 0
  Offline (pings accepted) = Unit
  Offline (requests sel method params) = Unit
  Offline (notifies sel method params) = Unit
  Offline (responds sel id result error) = Unit
  Offline _ = ⊥

  abbrev pub Quiet : Cycle F B → Type 0
  Quiet c = All Harmless c.connected_turns × All Offline c.offline_turns

  -- Each cycle ends its connection with a read error, and dials the next one.
  unfoldable pub flaps : Bool → List (Cycle F B) → List (Turn F B)
  flaps unexpected [] = []
  flaps unexpected (c ∷ rest) =
      c.connected_turns
      ++ (reads sends (read_error unexpected)
          ∷ (c.offline_turns ++ reconnects true ∷ flaps unexpected rest))

  -- Turns other than a call of Connect
  abbrev pub Unaided : Turn F B → Type 0
  Unaided (connects dialed) = ⊥
  Unaided _ = Unit

  -- Without a connection, and with nobody to dial
  abbrev pub Down : WebSocketTransport F B → Type 0
  Down t = (t.connected ≡ false) × (t.conn ≡ none) × (t.readers ≡ 0) × (t.sleeping ≡ 0)

module _ {F B : Type 0} (json : Json F B) where
  write_turn-Ready :
      (held : List B) (t : WebSocketTransport F B)
      → Ready t
      → Ready (write_turn true held t) × ((write_turn true held t).writers ≡ t.writers)
  unfolding write_turn write_message
  write_turn-Ready held t ready = ground arith

  turn-Ready :
      (next : Turn F B) (t : WebSocketTransport F B)
      → Harmless next
      → Ready t
      → Ready (turn json next t) × ((turn json next t).writers ≡ t.writers)
  unfolding turn web_socket_send_request web_socket_send_notification web_socket_send_response
      read_turn read_message ping_turn
  turn-Ready (reads sends (message m)) t harmless ready = ground arith
  turn-Ready (reads aborts (message m)) t harmless ready = elim harmless [ ]
  turn-Ready (reads sends (read_error unexpected)) t harmless ready = elim harmless [ ]
  turn-Ready (reads aborts (read_error unexpected)) t harmless ready = elim harmless [ ]
  turn-Ready (writes true) t harmless ready =
      write_turn-Ready t.message_handler.outgoing_chan t ready
  turn-Ready (writes false) t harmless ready = elim harmless [ ]
  turn-Ready (pings accepted) t harmless ready = ground arith
  turn-Ready (requests sel method params) t harmless ready = ground arith
  turn-Ready (notifies sel method params) t harmless ready = ground arith
  turn-Ready (responds sel id result error) t harmless ready = ground arith
  turn-Ready (connects dialed) t harmless ready = elim harmless [ ]
  turn-Ready (reconnects dialed) t harmless ready = elim harmless [ ]
  turn-Ready (enables enabled) t harmless ready = elim harmless [ ]
  turn-Ready resets t harmless ready = elim harmless [ ]

  -- Without a connection, and with one goroutine that waits to dial
  abbrev Away : WebSocketTransport F B → Type 0
  Away t =
      (t.connected ≡ false)
      × (t.conn ≡ none)
      × (t.readers ≡ 0)
      × (t.sleeping ≡ 1)
      × (t.reconnect_enabled ≡ true)
      × (0 < t.max_reconnects)
      × (t.done ≡ false)

  turn-Away :
      (next : Turn F B) (t : WebSocketTransport F B)
      → Offline next
      → Away t
      → Away (turn json next t) × ((turn json next t).writers ≡ t.writers)
  unfolding turn web_socket_send_request web_socket_send_notification web_socket_send_response
      ping_turn
  turn-Away (pings accepted) t offline away = ground arith
  turn-Away (requests sel method params) t offline away = ground arith
  turn-Away (notifies sel method params) t offline away = ground arith
  turn-Away (responds sel id result error) t offline away = ground arith
  turn-Away (reads put reading) t offline away = elim offline [ ]
  turn-Away (writes accepted) t offline away = elim offline [ ]
  turn-Away (connects dialed) t offline away = elim offline [ ]
  turn-Away (reconnects dialed) t offline away = elim offline [ ]
  turn-Away (enables enabled) t offline away = elim offline [ ]
  turn-Away resets t offline away = elim offline [ ]

  -- Turns that keep a predicate and the number of write loops do so together.
  turns_keep :
      (P : Turn F B → Type 0) (Q : WebSocketTransport F B → Type 0)
      → ((next : Turn F B) (t : WebSocketTransport F B)
          → P next
          → Q t
          → Q (turn json next t) × ((turn json next t).writers ≡ t.writers))
      → (ts : List (Turn F B)) (t : WebSocketTransport F B) → All P ts
      → Q t
      → Q (turns json ts t) × ((turns json ts t).writers ≡ t.writers)
  unfolding turns
  turns_keep P Q keeps [] t fine holds = (holds, refl)
  turns_keep P Q keeps (next ∷ ts) t (now, later) holds =
      let (still, same) = keeps next t now holds in
      let (ended, all_same) = turns_keep P Q keeps ts (turn json next t) later still in
      (ended, all_same ∙ same)

  turns-append :
      (ts later : List (Turn F B)) (t : WebSocketTransport F B)
      → turns json (ts ++ later) t ≡ turns json later (turns json ts t)
  unfolding turns
  turns-append [] later t = refl
  turns-append (next ∷ ts) later t = turns-append ts later (turn json next t)

  loses :
      (unexpected : Bool) (t : WebSocketTransport F B)
      → Ready t
      → let after = read_turn sends (read_error unexpected) t in
        Away after × (after.writers ≡ t.writers)
  unfolding read_turn read_message end_reader handle_disconnection
  loses unexpected t ready = ground arith

  comes_back :
      (t : WebSocketTransport F B)
      → Away t
      → Ready (reconnect true t) × ((reconnect true t).writers ≡ suc t.writers)
  unfolding reconnect connect
  comes_back t away = ground arith

  -- Each time that a live transport, connected and with reconnections left and none waiting, loses
  -- its connection to a read error and its one attempt to reconnect succeeds, one more write loop
  -- runs on the new connection. In between there may be any
  -- pings, failed or not, and sends, and while there is a connection also messages that are read and
  -- writes that succeed; no write fails, and no write loop takes a message without a connection.
  pub writers_pile_up :
      (unexpected : Bool) (cycles : List (Cycle F B)) (t : WebSocketTransport F B)
      → Ready t
      → All Quiet cycles
      → let after = turns json (flaps unexpected cycles) t in
        (after.connected ≡ true) × (after.readers ≡ 1) × (after.writers ≡ t.writers + length cycles)
  unfolding flaps turns turn
  writers_pile_up unexpected [] t ready quiet = ground arith
  writers_pile_up unexpected (c ∷ cycles) t ready ((harmless, offline), quiet) =
      let online = turns json c.connected_turns t in
      let (ready1, same1) =
        turns_keep Harmless Ready turn-Ready c.connected_turns t harmless ready in
      let lost = read_turn sends (read_error unexpected) online in
      let (away1, same2) = loses unexpected online ready1 in
      let waited = turns json c.offline_turns lost in
      let (away2, same3) = turns_keep Offline Away turn-Away c.offline_turns lost offline away1 in
      let back = reconnect true waited in
      let (ready2, more) = comes_back waited away2 in
      let (connected, readers, writers) = writers_pile_up unexpected cycles back ready2 quiet in
      subst
        (λ after.
          (after.connected ≡ true)
          × (after.readers ≡ 1)
          × (after.writers ≡ t.writers + suc (length cycles)))
        (sym (
          turns-append c.connected_turns _ t
          ∙ turns-append c.offline_turns (reconnects true ∷ flaps unexpected cycles) lost))
        (connected, readers, omega (arith, writers, more, same3, same2, same1))
