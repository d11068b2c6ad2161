-- ===== src/Transport/HttpServer/Answers.antt =====
-- transport/streamable_http_server.go: what a request over HTTP gets from SendResponse, alone under its
-- id and together with another of the same id.
use mcp_go_sdk.Prelude.{
  ℕ, ◌+◌, ◌≡◌, ◌≢◌, ◌≤◌, inl, inr, refl, sym, ◌∙◌, ap, subst, true, false, none, some, Key, nat_Key,
  if◌then◌else◌, arith,
}
use mcp_go_sdk.Prelude.Dict.{
  lookup, insert, lookup-erase_self, lookup-insert_self, lookup-insert-some, lookup-erase-some,
}
use mcp_go_sdk.Value.MapKey.{MapKey, MapKey_Key, id_of}
use mcp_go_sdk.Shared.Message.{JsonrpcMessage, Request, Response, is_request, to_request}
use mcp_go_sdk.Internal.Handler.{Select, sends, returns, panics, close_of_closed, stopped, fired}
use mcp_go_sdk.Transport.HttpServer.{
  HttpServerTransport, Http, waiting, encoded, rpc_begin, rpc_finish, post_request, http_timeout,
  http_send_response, register_http_request, set_exchange, close_exchange,
  remove_pending_http_request,
}
use mcp_go_sdk.Transport.HttpServer.Exchanges.{Keyed, Waiting, removed-found, without, retired}
use mcp_go_sdk.Transport.HttpServer.Steps.{
  posted, post_request-posted, posted-Keyed, registered-Waiting_self,
}
use mcp_go_sdk.Transport.HttpServer.Stranding.{Laters, Stranded, Laters-Stranded, rpc_finish_waits}
use mcp_go_sdk.Transport.HttpServer.Interleaving.{
  Others, Others-kept, begun-posted, replied, replied_full, send-replied, finish-written,
}

module _ {F B : Type 0} ⦃key : Key F⦄ (http : Http F B) where
  -- A POST whose body decodes to a request with a usable id is answered: after any steps for other
  -- ids (other POSTs, responses, timeouts and ends of POSTs), a response with its id is taken without
  -- a panic, its entry is gone, and handleRPC then writes that response, encoded, and counts it. The
  -- pending entries stand under the ids of their requests before the POST, and the response can be
  -- encoded.
  pub rpc-answered :
      (sel : Select) (body out : B) (msg : JsonrpcMessage F) (req : Request F) (r : Response F)
      (id : MapKey F) (t s u : HttpServerTransport F B)
      → Keyed t
      → http.json.unmarshal body ≡ some msg
      → is_request msg ≡ true
      → to_request msg ≡ some req
      → id_of req.id ≡ some id
      → rpc_begin http sends "POST" (some body) t ≡ returns (s, waiting t.fresh)
      → Others http id s u
      → id_of r.id ≡ some id
      → http.json.marshal_response r ≡ some out
      → (v : HttpServerTransport F B) × (http_send_response http sel r u ≡ returns v)
        × (lookup id v.pending_http_requests ≡ none)
        × (((rpc_finish http t.fresh v).exchanges t.fresh).written ≡ some (encoded r))
        × ((rpc_finish http t.fresh v).responses_sent ≡ u.responses_sent + 1)
  rpc-answered sel body out msg req r id t s u keyed parsed request as_request hashed begun others
        answers enc =
      let t1 = record t { requests_received = t.requests_received + 1 } in
      let same =
        post_request-posted sends req id t1 s (waiting t.fresh) hashed
          (sym (begun-posted http sends body msg req t parsed request as_request) ∙ begun) in
      let w =
        Others-kept http id t.fresh s u others
          (subst Keyed same (posted-Keyed sends req id t1 keyed))
          (subst (Waiting id t.fresh) same (registered-Waiting_self id t1)) in
      let (written, counted) =
        finish-written http r t.fresh out (replied http id t.fresh r u) enc
          (replied_full http id t.fresh r u) in
      (
        replied http id t.fresh r u,
        send-replied http sel r id t.fresh u answers w,
        lookup-erase_self id u.pending_http_requests,
        written,
        counted,
      )

module _ {F B : Type 0} ⦃key : Key F⦄ where
  -- The channel at the address is closed.
  abbrev shut : ℕ → HttpServerTransport F B → HttpServerTransport F B
  shut a t = let e = t.exchanges a in set_exchange a (record e { closed = true }) t

  -- The timer at the first address has fired, and the entry of the second is gone.
  abbrev crossed : MapKey F → ℕ → ℕ → HttpServerTransport F B → HttpServerTransport F B
  crossed id a b t =
      let e = t.exchanges a in
      without id (retired b (set_exchange a (record e { timer = fired }) t))

  close-returns :
      (a : ℕ) (t : HttpServerTransport F B)
      → (t.exchanges a).closed ≡ false
      → close_exchange a t ≡ returns (shut a t)
  unfolding close_exchange
  close-returns a t unclosed =
      ap (λ c. if c then panics close_of_closed else returns (shut a t)) unclosed

  timeout-removes :
      (id : MapKey F) (a b : ℕ) (t : HttpServerTransport F B)
      → (t.exchanges a).request ≡ id
      → lookup id t.pending_http_requests ≡ some b
      → ((crossed id a b t).exchanges a).closed ≡ false
      → http_timeout a t ≡ returns (shut a (crossed id a b t))
  unfolding http_timeout
  timeout-removes id a b t at_a found unclosed =
      let e = t.exchanges a in
      let x = set_exchange a (record e { timer = fired }) t in
      ap (λ i. close_exchange a (remove_pending_http_request i x)) at_a
      ∙ ap (close_exchange a) (removed-found id b x found)
      ∙ close-returns a (crossed id a b t) unclosed

  -- Two POSTs with the same id, and then the timer of the first
  abbrev pub both_posted :
      Request F → Request F → MapKey F → HttpServerTransport F B → HttpServerTransport F B
  both_posted one two id t = posted sends two id (posted sends one id t)

  abbrev pub first_timed_out :
      Request F → Request F → MapKey F → HttpServerTransport F B → HttpServerTransport F B
  first_timed_out one two id t =
      shut t.fresh (crossed id t.fresh (posted sends one id t).fresh (both_posted one two id t))

  unlisted :
      (id j : MapKey F) (a b : ℕ) (t : HttpServerTransport F B)
      → Keyed t
      → t.fresh ≤ b
      → a ≢ b
      → lookup j (insert id a t.pending_http_requests) ≢ some b
  unlisted id j a b t keyed new apart found =
      elim (lookup-insert-some id j a b t.pending_http_requests found) [
        | inl (same, at_a) ↦ apart at_a
        | inr (other, known) ↦ let (at_b, old) = keyed j b known in absurd (omega arith)
      ]

  timed_out-Stranded :
      (one two : Request F) (id : MapKey F) (t : HttpServerTransport F B)
      → Keyed t
      → Stranded (posted sends one id t).fresh (first_timed_out one two id t)
  unfolding register_http_request
  timed_out-Stranded one two id t keyed =
      let a = t.fresh in
      let s = posted sends one id t in
      let b = s.fresh in
      let u = posted sends two id s in
      (
        λ j found.
            let (other, kept) = lookup-erase-some id j b u.pending_http_requests found in
            elim (lookup-insert-some id j b b s.pending_http_requests kept) [
              | inl (same, new) ↦ other same
              | inr (apart, old) ↦
                  unlisted id j a b t keyed (omega arith) (λ e. absurd (omega arith)) old
            ],
        omega arith,
        ground (arith, nat_Key.same_iff b a, nat_Key.same_iff b b),
        ground (arith, nat_Key.same_iff b a, nat_Key.same_iff b b),
        ground (arith, nat_Key.same_iff b a, nat_Key.same_iff b b),
      )

  -- Two POSTs whose requests have the same id: when the first one's timer fires, the second one's
  -- entry is removed and its timer stopped. After any whole operations that follow (POSTs of
  -- requests, responses, timers that run, ends of POSTs, of this id or others), nothing has been
  -- sent to the second one and its channel is open, so that its handleRPC still waits. The pending
  -- entries stand under the ids of their requests before the POSTs; shutdown is not among the
  -- operations that follow.
  pub same_id_stranded :
      (http : Http F B) (one two : Request F) (id : MapKey F) (t w : HttpServerTransport F B)
      → id_of one.id ≡ some id
      → id_of two.id ≡ some id
      → Keyed t
      → Laters http (first_timed_out one two id t) w
      → let s = posted sends one id t in
        let u = both_posted one two id t in
        let v = first_timed_out one two id t in
        (post_request sends one t ≡ returns (s, waiting t.fresh))
        × (post_request sends two s ≡ returns (u, waiting s.fresh))
        × (http_timeout t.fresh u ≡ returns v)
        × (lookup id v.pending_http_requests ≡ none)
        × ((w.exchanges s.fresh).timer ≡ stopped)
        × ((w.exchanges s.fresh).closed ≡ false)
        × ((w.exchanges s.fresh).response_ch ≡ none)
        × (rpc_finish http s.fresh w ≡ w)
  unfolding register_http_request post_request insert
  same_id_stranded http one two id t w hashed_one hashed_two keyed laters =
      let a = t.fresh in
      let s = posted sends one id t in
      let u = both_posted one two id t in
      let b = s.fresh in
      let st =
        Laters-Stranded http b (first_timed_out one two id t) w laters
          (timed_out-Stranded one two id t keyed) in
      let (absent, old, idle, unclosed, empty) = st in
      (
        rw (post_request, hashed_one) refl,
        rw (post_request, hashed_two) refl,
        timeout-removes id a b u (ground (arith, nat_Key.same_iff a b, nat_Key.same_iff a a))
            (lookup-insert_self id b s.pending_http_requests)
            (ground (arith, nat_Key.same_iff a b, nat_Key.same_iff a a)),
        lookup-erase_self id u.pending_http_requests,
        idle,
        unclosed,
        empty,
        rpc_finish_waits http b w st,
      )
