-- ===== src/Transport/HttpServer/Stranding.antt =====
-- transport/streamable_http_server.go: a POST that has lost its entry, under all that follows.
use mcp_go_sdk.Prelude.{
  ℕ, ◌≡◌, ◌≢◌, ◌<◌, sym, ◌∙◌, ap, subst, false, none, some, Key, nat_Key, ◌==◌, arith, inl, inr,
  Bool-cases, Option-cases, eq_of_==,
}
use mcp_go_sdk.Prelude.Dict.{lookup, lookup-insert-some, lookup-erase-some}
use mcp_go_sdk.Value.MapKey.{MapKey, MapKey_Key, id_of}
use mcp_go_sdk.Shared.Message.{Request, Response}
use mcp_go_sdk.Internal.Handler.{Select, sends, aborts, returns, armed, stopped}
use mcp_go_sdk.Transport.HttpServer.{
  HttpServerTransport, Http, Posted, Exchange, encoded, status, unencoded, post_request,
  http_timeout, http_send_response, rpc_finish, register_http_request, set_exchange,
  remove_pending_http_request, write_response, count_written, delegate_response,
}
use mcp_go_sdk.Transport.HttpServer.Exchanges.{removed-found, removed-absent, without, retired}
use mcp_go_sdk.Transport.HttpServer.Steps.{posted, post_request-posted}
use mcp_go_sdk.Transport.HttpServer.Offers.{
  Offered, http_send_response-cases, offered, expired, close_exchange-returned,
}
use mcp_go_sdk.Transport.HttpServer.Interleaving.{write_waiting, finish_waiting}

stopped_runs : stopped ≢ armed
stopped_runs e = cc

module _ {F B : Type 0} ⦃key : Key F⦄ where
  -- A whole operation: the POST of a request of any id, a response of any id, a timer that runs, or
  -- the end of any POST. A SendResponse looks its entry up within the operation.
  pub data Later (http : Http F B)
      : HttpServerTransport F B → HttpServerTransport F B → Type 0 where
    later_post :
        {t s : HttpServerTransport F B} (sel : Select) (r : Request F) (j : MapKey F) (p : Posted F)
        → id_of r.id ≡ some j
        → post_request sel r t ≡ returns (s, p)
        → Later http t s
    later_response :
        {t s : HttpServerTransport F B} (sel : Select) (r : Response F) (j : MapKey F)
        → id_of r.id ≡ some j
        → http_send_response http sel r t ≡ returns s
        → Later http t s
    later_timer :
        {t s : HttpServerTransport F B} (c : ℕ)
        → (t.exchanges c).timer ≡ armed
        → http_timeout c t ≡ returns s
        → Later http t s
    later_end : {t : HttpServerTransport F B} (c : ℕ) → Later http t (rpc_finish http c t)

  pub data Laters (http : Http F B)
      : HttpServerTransport F B → HttpServerTransport F B → Type 0 where
    done : {t : HttpServerTransport F B} → Laters http t t
    later : {t s u : HttpServerTransport F B} → Later http t s → Laters http s u → Laters http t u

  -- No entry leads to the address, its timer is stopped, and its channel is open and empty.
  abbrev pub Stranded : ℕ → HttpServerTransport F B → Type 0
  Stranded b t =
      let e = t.exchanges b in
      ((j : MapKey F) → lookup j t.pending_http_requests ≢ some b)
      × (b < t.fresh)
      × (e.timer ≡ stopped)
      × (e.closed ≡ false)
      × (e.response_ch ≡ none)

  pub set_exchange-Stranded :
      (a b : ℕ) (e : Exchange F) (t : HttpServerTransport F B)
      → a ≢ b
      → Stranded b t
      → Stranded b (set_exchange a e t)
  set_exchange-Stranded a b e t apart (absent, old, idle, unclosed, empty) = (
    absent,
    old,
    ground (arith, nat_Key.same_iff b a),
    ground (arith, nat_Key.same_iff b a),
    ground (arith, nat_Key.same_iff b a),
  )

  without-Stranded :
      (j : MapKey F) (b : ℕ) (t : HttpServerTransport F B) → Stranded b t → Stranded b (without j t)
  without-Stranded j b t (absent, old, idle, unclosed, empty) = (
    λ k found. absent k ((lookup-erase-some j k b t.pending_http_requests found).1),
    old,
    idle,
    unclosed,
    empty,
  )

  led_apart :
      (j : MapKey F) (a b : ℕ) (t : HttpServerTransport F B)
      → lookup j t.pending_http_requests ≡ some a
      → Stranded b t
      → a ≢ b
  led_apart j a b t found st same = st.0 j (found ∙ ap some same)

  removed-Stranded :
      (j : MapKey F) (b : ℕ) (t : HttpServerTransport F B)
      → Stranded b t
      → Stranded b (remove_pending_http_request j t)
  removed-Stranded j b t st = elim (Option-cases (lookup j t.pending_http_requests)) [
    | inl absent ↦ subst (Stranded b) (sym (removed-absent j t absent)) st
    | inr (a, found) ↦ subst (Stranded b) (sym (removed-found j a t found)) (
        without-Stranded j b (retired a t)
          (set_exchange-Stranded a b _ t (led_apart j a b t found st) st))
  ]

  registered-Stranded :
      (j : MapKey F) (b : ℕ) (t : HttpServerTransport F B)
      → Stranded b t
      → Stranded b (register_http_request j t)
  unfolding register_http_request
  registered-Stranded j b t (absent, old, idle, unclosed, empty) = (
    λ k found. elim (lookup-insert-some j k t.fresh b t.pending_http_requests found) [
      | inl (same, new) ↦ absurd (omega arith)
      | inr (other, known) ↦ absent k known
    ],
    omega arith,
    ground (arith, nat_Key.same_iff b t.fresh),
    ground (arith, nat_Key.same_iff b t.fresh),
    ground (arith, nat_Key.same_iff b t.fresh),
  )

  posted-Stranded :
      (sel : Select) (r : Request F) (j : MapKey F) (b : ℕ) (t : HttpServerTransport F B)
      → Stranded b t
      → Stranded b (posted sel r j t)
  posted-Stranded sends r j b t st = registered-Stranded j b t st
  posted-Stranded aborts r j b t st =
      removed-Stranded j b (register_http_request j t) (registered-Stranded j b t st)

  Offered-Stranded :
      (j : MapKey F) (r : Response F) (b : ℕ) (t s : HttpServerTransport F B)
      → Offered j r t s
      → Stranded b t
      → Stranded b s
  Offered-Stranded j r b t s (inl same) st = subst (Stranded b) (sym same) st
  Offered-Stranded j r b t s (inr (a, found, taken)) st = subst (Stranded b) (sym taken) (
      removed-Stranded j b (offered a r t)
        (set_exchange-Stranded a b _ t (led_apart j a b t found st) st))

  timeout-Stranded :
      (c b : ℕ) (t s : HttpServerTransport F B)
      → (t.exchanges c).timer ≡ armed
      → http_timeout c t ≡ returns s
      → Stranded b t
      → Stranded b s
  unfolding http_timeout
  timeout-Stranded c b t s runs e st =
      let (absent, old, idle, unclosed, empty) = st in
      let apart : c ≢ b =
        λ same. stopped_runs (sym idle ∙ ap (λ x. (t.exchanges x).timer) (sym same) ∙ runs) in
      subst (Stranded b) (sym (close_exchange-returned c (expired c t) s e)) (
        set_exchange-Stranded c b _ (expired c t) apart
          (removed-Stranded _ b _ (set_exchange-Stranded c b _ t apart st)))

  delegate-Stranded :
      (http : Http F B) (sel : Select) (r : Response F) (b : ℕ) (t : HttpServerTransport F B)
      → Stranded b t
      → Stranded b (delegate_response http sel r t)
  unfolding delegate_response
  delegate-Stranded http sel r b t st = st

  finish-Stranded_elsewhere :
      (http : Http F B) (c b : ℕ) (t : HttpServerTransport F B)
      → c ≢ b
      → Stranded b t
      → Stranded b (rpc_finish http c t)
  unfolding rpc_finish count_written
  finish-Stranded_elsewhere http c b t apart st =
      elim (write_response http (t.exchanges c))
        as (λ x. Stranded b (elim x [
          | none ↦ t
          | some v ↦
              let e = t.exchanges c in
              count_written v (set_exchange c (record e { response_ch = none; written = some v }) t)
        ])) [
          | none ↦ st
          | some (status code text) ↦ set_exchange-Stranded c b _ t apart st
          | some (encoded r) ↦ set_exchange-Stranded c b _ t apart st
          | some unencoded ↦ set_exchange-Stranded c b _ t apart st
        ]

  -- handleRPC of the POST still waits.
  pub rpc_finish_waits :
      (http : Http F B) (b : ℕ) (t : HttpServerTransport F B)
      → Stranded b t
      → rpc_finish http b t ≡ t
  rpc_finish_waits http b t (absent, old, idle, unclosed, empty) =
      finish_waiting http b t (write_waiting http (t.exchanges b) unclosed empty)

  finish-Stranded :
      (http : Http F B) (c b : ℕ) (t : HttpServerTransport F B)
      → Stranded b t
      → Stranded b (rpc_finish http c t)
  finish-Stranded http c b t st = elim (Bool-cases (c == b)) [
    | inl same ↦
        subst (λ a. Stranded b (rpc_finish http a t)) (sym (eq_of_== c b same))
          (subst (Stranded b) (sym (rpc_finish_waits http b t st)) st)
    | inr apart ↦
        finish-Stranded_elsewhere http c b t (λ e. ground (arith, nat_Key.same_iff c b)) st
  ]

  Later-Stranded :
      (http : Http F B) (b : ℕ) (t s : HttpServerTransport F B)
      → Later http t s
      → Stranded b t
      → Stranded b s
  Later-Stranded http b t s (later_post sel r j p hashed e) st =
      subst (Stranded b) (post_request-posted sel r j t s p hashed e)
        (posted-Stranded sel r j b t st)
  Later-Stranded http b t s (later_response sel r j hashed e) st =
      elim (http_send_response-cases http sel r j t s hashed e) [
        | inl delegated ↦ subst (Stranded b) (sym delegated) (delegate-Stranded http sel r b t st)
        | inr taken ↦ Offered-Stranded j r b t s taken st
      ]
  Later-Stranded http b t s (later_timer c runs e) st = timeout-Stranded c b t s runs e st
  Later-Stranded http b t _ (later_end c) st = finish-Stranded http c b t st

  pub Laters-Stranded :
      (http : Http F B) (b : ℕ) (t s : HttpServerTransport F B)
      → Laters http t s
      → Stranded b t
      → Stranded b s
  Laters-Stranded http b t _ done st = st
  Laters-Stranded http b t u (later step rest) st =
      Laters-Stranded http b _ u rest (Later-Stranded http b t _ step st)
