-- ===== src/Transport/HttpServer/Offers.antt =====
-- transport/streamable_http_server.go: what a response, a timer or the end of a POST leaves of a request
-- that waits.
use mcp_go_sdk.Prelude.{
  ℕ, ◌≡◌, ◌≢◌, refl, sym, ◌∙◌, ap, subst, true, false, none, some, Key, nat_Key, if◌then◌else◌, ◌⊎◌,
  inl, inr, Bool-cases, Option-cases,
}
use mcp_go_sdk.Prelude.Dict.{lookup}
use mcp_go_sdk.Value.MapKey.{MapKey, MapKey_Key, id_of}
use mcp_go_sdk.Shared.Message.{Response}
use mcp_go_sdk.Internal.Handler.{Select, returns, panics, fired, close_of_closed, send_on_closed}
use mcp_go_sdk.Transport.HttpServer.{
  HttpServerTransport, Http, encoded, unencoded, status, rpc_finish, http_timeout,
  http_send_response, remove_pending_http_request, set_exchange, write_response,
  offer_http_response, delegate_response, close_exchange, count_written,
}
use mcp_go_sdk.Transport.HttpServer.Exchanges.{
  Keyed, Waiting, set_exchange-Keyed, set_exchange-Waiting, removed-Keyed, removed-Waiting,
  apart_at,
}
use mcp_go_sdk.Transport.HttpServer.Steps.{returned_eq}

module _ {F B : Type 0} ⦃key : Key F⦄ where
  -- The response lies in the channel at the address.
  abbrev pub offered : ℕ → Response F → HttpServerTransport F B → HttpServerTransport F B
  offered a r t = let e = t.exchanges a in set_exchange a (record e { response_ch = some r }) t

  abbrev pub Offered :
      MapKey F → Response F → HttpServerTransport F B → HttpServerTransport F B → Type 0
  Offered id r t s =
      (s ≡ t)
      ⊎ ((a : ℕ) × (lookup id t.pending_http_requests ≡ some a)
          × (s ≡ remove_pending_http_request id (offered a r t)))

  pub offer-taken :
      (id : MapKey F) (a : ℕ) (r : Response F) (t : HttpServerTransport F B)
      → (t.exchanges a).closed ≡ false
      → (t.exchanges a).response_ch ≡ none
      → offer_http_response id a r t ≡ returns (remove_pending_http_request id (offered a r t))
  unfolding offer_http_response
  offer-taken id a r t unclosed empty =
      ap
        (λ c.
          if c
          then panics send_on_closed
          else returns (elim (t.exchanges a).response_ch [
            | some old ↦ t
            | none ↦ remove_pending_http_request id (offered a r t)
          ]))
        unclosed
      ∙ ap
          (λ o.
            returns
              (elim o [ some old ↦ t | none ↦ remove_pending_http_request id (offered a r t) ]))
          empty

  offer-dropped :
      (id : MapKey F) (a : ℕ) (r old : Response F) (t : HttpServerTransport F B)
      → (t.exchanges a).closed ≡ false
      → (t.exchanges a).response_ch ≡ some old
      → offer_http_response id a r t ≡ returns t
  unfolding offer_http_response
  offer-dropped id a r old t unclosed full = rw (offer_http_response, unclosed, full) refl

  offer-closed :
      (id : MapKey F) (a : ℕ) (r : Response F) (t : HttpServerTransport F B)
      → (t.exchanges a).closed ≡ true
      → offer_http_response id a r t ≡ panics send_on_closed
  unfolding offer_http_response
  offer-closed id a r t shut = rw (offer_http_response, shut) refl

  offer-Offered :
      (id : MapKey F) (a : ℕ) (r : Response F) (t s : HttpServerTransport F B)
      → lookup id t.pending_http_requests ≡ some a
      → offer_http_response id a r t ≡ returns s
      → Offered id r t s
  offer-Offered id a r t s found e = elim (Bool-cases (t.exchanges a).closed) [
    | inl shut ↦ let never = sym (offer-closed id a r t shut) ∙ e in cc
    | inr unclosed ↦ elim (Option-cases (t.exchanges a).response_ch) [
      | inl empty ↦ inr (a, found, returned_eq (sym e ∙ offer-taken id a r t unclosed empty))
      | inr (old, full) ↦ inl (returned_eq (sym e ∙ offer-dropped id a r old t unclosed full))
    ]
  ]

  pub Offered-Keyed :
      (id : MapKey F) (r : Response F) (t s : HttpServerTransport F B)
      → Offered id r t s
      → Keyed t
      → Keyed s
  Offered-Keyed id r t s (inl same) keyed = subst Keyed (sym same) keyed
  Offered-Keyed id r t s (inr (a, found, taken)) keyed =
      subst Keyed (sym taken)
        (removed-Keyed id (offered a r t) (set_exchange-Keyed a _ t refl keyed))

  pub Offered-Waiting :
      (id j : MapKey F) (a : ℕ) (r : Response F) (t s : HttpServerTransport F B)
      → j ≢ id
      → Offered j r t s
      → Keyed t
      → Waiting id a t
      → Waiting id a s
  Offered-Waiting id j a r t s other (inl same) keyed w = subst (Waiting id a) (sym same) w
  Offered-Waiting id j a r t s other (inr (b, found, taken)) keyed w =
      subst (Waiting id a) (sym taken) (
        removed-Waiting id j a (offered b r t) other (set_exchange-Keyed b _ t refl keyed) (
          set_exchange-Waiting id a b _ t (apart_at id j a b t other keyed w ((keyed j b found).0))
            w))

  -- A response that no POST waits for only reaches the message handler.
  pub http_send_response-cases :
      (http : Http F B) (sel : Select) (r : Response F) (id : MapKey F)
      (t s : HttpServerTransport F B)
      → id_of r.id ≡ some id
      → http_send_response http sel r t ≡ returns s
      → (s ≡ delegate_response http sel r t) ⊎ Offered id r t s
  unfolding http_send_response delegate_response
  http_send_response-cases http sel r id t s hashed e =
      elim (Option-cases (lookup id t.pending_http_requests)) [
        | inl absent ↦
            let computed : http_send_response http sel r t
                ≡ returns (delegate_response http sel r t) =
              rw (http_send_response, hashed, absent) refl in
            inl (returned_eq (sym e ∙ computed))
        | inr (a, found) ↦
            let computed : http_send_response http sel r t ≡ offer_http_response id a r t =
              rw (http_send_response, hashed, found) refl in
            inr (offer-Offered id a r t s found (sym computed ∙ e))
      ]

  pub delegate-Waiting :
      (http : Http F B) (sel : Select) (r : Response F) (id : MapKey F) (a : ℕ)
      (t : HttpServerTransport F B)
      → Waiting id a t
      → Waiting id a (delegate_response http sel r t)
  unfolding delegate_response
  delegate-Waiting http sel r id a t w = w

  pub delegate-Keyed :
      (http : Http F B) (sel : Select) (r : Response F) (t : HttpServerTransport F B)
      → Keyed t
      → Keyed (delegate_response http sel r t)
  unfolding delegate_response
  delegate-Keyed http sel r t keyed = keyed

  -- The timer at the address has fired, and its entry is gone.
  abbrev pub expired : ℕ → HttpServerTransport F B → HttpServerTransport F B
  expired a t =
      let e = t.exchanges a in
      remove_pending_http_request e.request (set_exchange a (record e { timer = fired }) t)

  pub close_exchange-returned :
      (a : ℕ) (t s : HttpServerTransport F B)
      → close_exchange a t ≡ returns s
      → s ≡ set_exchange a (let e = t.exchanges a in record e { closed = true }) t
  unfolding close_exchange
  close_exchange-returned a t s e = elim (Bool-cases (t.exchanges a).closed) [
    | inl shut ↦
        let computed : close_exchange a t ≡ panics close_of_closed =
          rw (close_exchange, shut) refl in
        let never = sym computed ∙ e in cc
    | inr unclosed ↦
        let computed : close_exchange a t
            ≡ returns (set_exchange a (let x = t.exchanges a in record x { closed = true }) t) =
          rw (close_exchange, unclosed) refl in
        returned_eq (sym e ∙ computed)
  ]

  expired-Keyed : (a : ℕ) (t : HttpServerTransport F B) → Keyed t → Keyed (expired a t)
  expired-Keyed a t keyed = removed-Keyed _ _ (set_exchange-Keyed a _ t refl keyed)

  pub timeout-Keyed :
      (a : ℕ) (t s : HttpServerTransport F B) → http_timeout a t ≡ returns s → Keyed t → Keyed s
  unfolding http_timeout
  timeout-Keyed a t s e keyed =
      subst Keyed (sym (close_exchange-returned a (expired a t) s e))
        (set_exchange-Keyed a _ (expired a t) refl (expired-Keyed a t keyed))

  pub timeout-Waiting :
      (id : MapKey F) (a b : ℕ) (t s : HttpServerTransport F B)
      → (t.exchanges b).request ≢ id
      → http_timeout b t ≡ returns s
      → Keyed t
      → Waiting id a t
      → Waiting id a s
  unfolding http_timeout
  timeout-Waiting id a b t s other e keyed w =
      let apart : b ≢ a = apart_at id (t.exchanges b).request a b t other keyed w refl in
      subst (Waiting id a) (sym (close_exchange-returned b (expired b t) s e)) (
        set_exchange-Waiting id a b _ (expired b t) apart (
          removed-Waiting id _ a _ other (set_exchange-Keyed b _ t refl keyed)
            (set_exchange-Waiting id a b _ t apart w)))

  pub finish-Keyed :
      (http : Http F B) (a : ℕ) (t : HttpServerTransport F B)
      → Keyed t
      → Keyed (rpc_finish http a t)
  unfolding rpc_finish count_written
  finish-Keyed http a t keyed =
      elim (write_response http (t.exchanges a))
        as (λ w. Keyed (elim w [
          | none ↦ t
          | some v ↦
              let e = t.exchanges a in
              count_written v (set_exchange a (record e { response_ch = none; written = some v }) t)
        ])) [
          | none ↦ keyed
          | some (status code text) ↦ set_exchange-Keyed a _ t refl keyed
          | some (encoded r) ↦ set_exchange-Keyed a _ t refl keyed
          | some unencoded ↦ set_exchange-Keyed a _ t refl keyed
        ]
