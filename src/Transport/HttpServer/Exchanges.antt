-- ===== src/Transport/HttpServer/Exchanges.antt =====
-- transport/streamable_http_server.go: handleRPC, SendResponse and the timers of requests that wait at
-- the same time.
use mcp_go_sdk.Prelude.{
  ℕ, ◌≡◌, ◌≢◌, ◌<◌, refl, sym, ◌∙◌, ap, subst, false, none, some, Key, nat_Key, arith, inl, inr,
  Option-cases,
}
use mcp_go_sdk.Prelude.Dict.{lookup, erase, lookup-erase-some, lookup-erase_ne}
use mcp_go_sdk.Value.MapKey.{MapKey, MapKey_Key}
use mcp_go_sdk.Internal.Handler.{stop}
use mcp_go_sdk.Transport.HttpServer.{
  HttpServerTransport, remove_pending_http_request, set_exchange, Exchange,
}

module _ {F B : Type 0} ⦃key : Key F⦄ where
  -- Each pending entry stands under the id of its request.
  abbrev pub Keyed : HttpServerTransport F B → Type 0
  Keyed t =
      (id : MapKey F) (a : ℕ)
      → lookup id t.pending_http_requests ≡ some a
      → ((t.exchanges a).request ≡ id) × (a < t.fresh)

  -- A response with the id goes to the POST that waits at `a`.
  abbrev pub Waiting : MapKey F → ℕ → HttpServerTransport F B → Type 0
  Waiting id a t =
      let e = t.exchanges a in
      (lookup id t.pending_http_requests ≡ some a) × (e.closed ≡ false) × (e.response_ch ≡ none)

  abbrev pub without : MapKey F → HttpServerTransport F B → HttpServerTransport F B
  without id t = record t { pending_http_requests = erase id t.pending_http_requests }

  pub set_exchange-Keyed :
      (a : ℕ) (e : Exchange F) (t : HttpServerTransport F B)
      → e.request ≡ (t.exchanges a).request
      → Keyed t
      → Keyed (set_exchange a e t)
  set_exchange-Keyed a e t same keyed id b found =
      let (at_b, known) = keyed id b found in ground (arith, nat_Key.same_iff b a)

  without-Keyed : (id : MapKey F) (t : HttpServerTransport F B) → Keyed t → Keyed (without id t)
  without-Keyed id t keyed j b found =
      keyed j b ((lookup-erase-some id j b t.pending_http_requests found).1)

  pub removed-absent :
      (id : MapKey F) (t : HttpServerTransport F B)
      → lookup id t.pending_http_requests ≡ none
      → remove_pending_http_request id t ≡ t
  unfolding remove_pending_http_request
  removed-absent id t absent = rw (remove_pending_http_request, absent) refl

  -- Its timer is stopped.
  abbrev pub retired : ℕ → HttpServerTransport F B → HttpServerTransport F B
  retired a t = let e = t.exchanges a in set_exchange a (record e { timer = stop e.timer }) t

  pub removed-found :
      (id : MapKey F) (a : ℕ) (t : HttpServerTransport F B)
      → lookup id t.pending_http_requests ≡ some a
      → remove_pending_http_request id t ≡ without id (retired a t)
  unfolding remove_pending_http_request
  removed-found id a t found = rw (remove_pending_http_request, found) refl

  pub removed-Keyed :
      (id : MapKey F) (t : HttpServerTransport F B)
      → Keyed t
      → Keyed (remove_pending_http_request id t)
  removed-Keyed id t keyed = elim (Option-cases (lookup id t.pending_http_requests)) [
    | inl absent ↦ subst Keyed (sym (removed-absent id t absent)) keyed
    | inr (a, found) ↦
        subst Keyed (sym (removed-found id a t found))
          (without-Keyed id (retired a t) (set_exchange-Keyed a _ t refl keyed))
  ]

  pub set_exchange-Waiting :
      (id : MapKey F) (a b : ℕ) (e : Exchange F) (t : HttpServerTransport F B)
      → b ≢ a
      → Waiting id a t
      → Waiting id a (set_exchange b e t)
  set_exchange-Waiting id a b e t apart (found, unclosed, empty) =
      ground (arith, nat_Key.same_iff a b)

  without-Waiting :
      (id j : MapKey F) (a : ℕ) (t : HttpServerTransport F B)
      → j ≢ id
      → Waiting id a t
      → Waiting id a (without j t)
  without-Waiting id j a t apart (found, unclosed, empty) =
      (lookup-erase_ne j id t.pending_http_requests apart ∙ found, unclosed, empty)

  -- Another id has another address.
  pub apart_at :
      (id j : MapKey F) (a b : ℕ) (t : HttpServerTransport F B)
      → j ≢ id
      → Keyed t
      → Waiting id a t
      → (t.exchanges b).request ≡ j
      → b ≢ a
  apart_at id j a b t apart keyed (found, unclosed, empty) at_b same =
      apart (sym at_b ∙ ap (λ c. (t.exchanges c).request) same ∙ (keyed id a found).0)

  pub removed-Waiting :
      (id j : MapKey F) (a : ℕ) (t : HttpServerTransport F B)
      → j ≢ id
      → Keyed t
      → Waiting id a t
      → Waiting id a (remove_pending_http_request j t)
  removed-Waiting id j a t other keyed w = elim (Option-cases (lookup j t.pending_http_requests)) [
    | inl absent ↦ subst (Waiting id a) (sym (removed-absent j t absent)) w
    | inr (b, found) ↦ subst (Waiting id a) (sym (removed-found j b t found)) (
        without-Waiting id j a (retired b t) other (
          set_exchange-Waiting id a b _ t (apart_at id j a b t other keyed w ((keyed j b found).0))
            w))
  ]
