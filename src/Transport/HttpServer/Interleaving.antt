-- ===== src/Transport/HttpServer/Interleaving.antt =====
-- transport/streamable_http_server.go: one request over HTTP among others.
use mcp_go_sdk.Prelude.{
  ℕ, ◌+◌, ◌≡◌, ◌≢◌, refl, sym, ◌∙◌, ap, subst, true, false, none, some, Key, nat_Key, string_Key,
  ◌==◌, arith, inl, inr, Bool-cases, eq_of_==,
}
use mcp_go_sdk.Value.MapKey.{MapKey, MapKey_Key, id_of}
use mcp_go_sdk.Shared.Message.{JsonrpcMessage, Request, Response, is_request, to_request}
use mcp_go_sdk.Internal.Handler.{Select, returns}
use mcp_go_sdk.Transport.HttpServer.{
  HttpServerTransport, Http, Posted, encoded, status, unencoded, post_request, post_message,
  post_body, rpc_begin, rpc_finish, http_timeout, http_send_response, set_exchange, Exchange,
  write_response, count_written,
}
use mcp_go_sdk.Transport.HttpServer.Exchanges.{
  removed-found, without, retired, Keyed, Waiting, set_exchange-Waiting,
}
use mcp_go_sdk.Transport.HttpServer.Steps.{post_request-posted, posted-Keyed, posted-Waiting}
use mcp_go_sdk.Transport.HttpServer.Offers.{
  Offered-Keyed, Offered-Waiting, http_send_response-cases, delegate-Waiting, delegate-Keyed,
  timeout-Keyed, timeout-Waiting, offered, offer-taken, finish-Keyed,
}

module _ {F B : Type 0} ⦃key : Key F⦄ where
  -- A step for another id: a POST, a response, a timer, or the end of a POST.
  pub data Other (http : Http F B) (id : MapKey F)
      : HttpServerTransport F B → HttpServerTransport F B → Type 0 where
    posts :
        {t s : HttpServerTransport F B} (sel : Select) (r : Request F) (j : MapKey F) (p : Posted F)
        → id_of r.id ≡ some j
        → j ≢ id
        → post_request sel r t ≡ returns (s, p)
        → Other http id t s
    responds :
        {t s : HttpServerTransport F B} (sel : Select) (r : Response F) (j : MapKey F)
        → id_of r.id ≡ some j
        → j ≢ id
        → http_send_response http sel r t ≡ returns s
        → Other http id t s
    times_out :
        {t s : HttpServerTransport F B} (b : ℕ)
        → (t.exchanges b).request ≢ id
        → http_timeout b t ≡ returns s
        → Other http id t s
    finishes : {t : HttpServerTransport F B} (b : ℕ) → Other http id t (rpc_finish http b t)

  pub data Others (http : Http F B) (id : MapKey F)
      : HttpServerTransport F B → HttpServerTransport F B → Type 0 where
    still : {t : HttpServerTransport F B} → Others http id t t
    step :
        {t s u : HttpServerTransport F B}
        → Other http id t s
        → Others http id s u
        → Others http id t u

module _ {F B : Type 0} ⦃key : Key F⦄ (http : Http F B) where
  pub write_waiting :
      (e : Exchange F) → e.closed ≡ false → e.response_ch ≡ none → write_response http e ≡ none
  unfolding write_response
  write_waiting e unclosed empty = rw (empty, unclosed) refl

  pub finish_waiting :
      (a : ℕ) (t : HttpServerTransport F B)
      → write_response http (t.exchanges a) ≡ none
      → rpc_finish http a t ≡ t
  unfolding rpc_finish
  finish_waiting a t waits = rw (rpc_finish, waits) refl

  finish-Waiting_elsewhere :
      (id : MapKey F) (a b : ℕ) (t : HttpServerTransport F B)
      → b ≢ a
      → Waiting id a t
      → Waiting id a (rpc_finish http b t)
  unfolding rpc_finish count_written
  finish-Waiting_elsewhere id a b t apart w =
      elim (write_response http (t.exchanges b))
        as (λ x. Waiting id a (elim x [
          | none ↦ t
          | some v ↦
              let e = t.exchanges b in
              count_written v (set_exchange b (record e { response_ch = none; written = some v }) t)
        ])) [
          | none ↦ w
          | some (status code text) ↦ set_exchange-Waiting id a b _ t apart w
          | some (encoded r) ↦ set_exchange-Waiting id a b _ t apart w
          | some unencoded ↦ set_exchange-Waiting id a b _ t apart w
        ]

  finish-Waiting :
      (id : MapKey F) (a b : ℕ) (t : HttpServerTransport F B)
      → Waiting id a t
      → Waiting id a (rpc_finish http b t)
  finish-Waiting id a b t (found, unclosed, empty) = elim (Bool-cases (b == a)) [
    | inl same ↦
        subst (λ c. Waiting id a (rpc_finish http c t)) (sym (eq_of_== b a same))
          (subst (Waiting id a)
            (sym (finish_waiting a t (write_waiting (t.exchanges a) unclosed empty)))
            (found, unclosed, empty))
    | inr apart ↦
        finish-Waiting_elsewhere id a b t (λ e. ground (arith, nat_Key.same_iff b a))
          (found, unclosed, empty)
  ]

  Other-kept :
      (id : MapKey F) (a : ℕ) (t s : HttpServerTransport F B)
      → Other http id t s
      → Keyed t
      → Waiting id a t
      → Keyed s × Waiting id a s
  Other-kept id a t s (posts sel r j p hashed apart e) keyed w =
      let same = post_request-posted sel r j t s p hashed e in
      (
        subst Keyed same (posted-Keyed sel r j t keyed),
        subst (Waiting id a) same (posted-Waiting id j a sel r t apart keyed w),
      )
  Other-kept id a t s (responds sel r j hashed apart e) keyed w =
      elim (http_send_response-cases http sel r j t s hashed e) [
        | inl delegated ↦ (
          subst Keyed (sym delegated) (delegate-Keyed http sel r t keyed),
          subst (Waiting id a) (sym delegated) (delegate-Waiting http sel r id a t w),
        )
        | inr taken ↦
            (Offered-Keyed j r t s taken keyed, Offered-Waiting id j a r t s apart taken keyed w)
      ]
  Other-kept id a t s (times_out b apart e) keyed w =
      (timeout-Keyed b t s e keyed, timeout-Waiting id a b t s apart e keyed w)
  Other-kept id a t _ (finishes b) keyed w =
      (finish-Keyed http b t keyed, finish-Waiting id a b t w)

  pub Others-kept :
      (id : MapKey F) (a : ℕ) (t s : HttpServerTransport F B)
      → Others http id t s
      → Keyed t
      → Waiting id a t
      → Waiting id a s
  Others-kept id a t _ still keyed w = w
  Others-kept id a t u (step o rest) keyed w =
      let (k, v) = Other-kept id a t _ o keyed w in Others-kept id a _ u rest k v

  pub begun-posted :
      (sel : Select) (body : B) (msg : JsonrpcMessage F) (r : Request F)
      (t : HttpServerTransport F B)
      → http.json.unmarshal body ≡ some msg
      → is_request msg ≡ true
      → to_request msg ≡ some r
      → rpc_begin http sel "POST" (some body) t
        ≡ post_request sel r (record t { requests_received = t.requests_received + 1 })
  unfolding rpc_begin post_body post_message
  begun-posted sel body msg r t parsed request as_request =
      rw (rpc_begin, post_body, post_message, parsed, request, as_request) refl

  pub finish-written :
      (r : Response F) (a : ℕ) (out : B) (t : HttpServerTransport F B)
      → http.json.marshal_response r ≡ some out
      → (t.exchanges a).response_ch ≡ some r
      → (((rpc_finish http a t).exchanges a).written ≡ some (encoded r))
        × ((rpc_finish http a t).responses_sent ≡ t.responses_sent + 1)
  unfolding rpc_finish write_response count_written
  finish-written r a out t enc full = ground (arith, nat_Key.same_iff a a)

  -- What has the response in its channel, and no entry.
  abbrev pub replied : MapKey F → ℕ → Response F → HttpServerTransport F B → HttpServerTransport F B
  replied id a r t = without id (retired a (offered a r t))

  pub replied_full :
      (id : MapKey F) (a : ℕ) (r : Response F) (t : HttpServerTransport F B)
      → ((replied id a r t).exchanges a).response_ch ≡ some r
  replied_full id a r t = ground (arith, nat_Key.same_iff a a)

  pub send-replied :
      (sel : Select) (r : Response F) (id : MapKey F) (a : ℕ) (t : HttpServerTransport F B)
      → id_of r.id ≡ some id
      → Waiting id a t
      → http_send_response http sel r t ≡ returns (replied id a r t)
  unfolding http_send_response
  send-replied sel r id a t hashed (found, unclosed, empty) =
      rw (http_send_response, hashed, found)
        (offer-taken id a r t unclosed empty
          ∙ ap returns (removed-found id a (offered a r t) found))
