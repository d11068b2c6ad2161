-- ===== src/Transport/HttpServer/Steps.antt =====
-- transport/streamable_http_server.go: what the POST of one request leaves of another that waits.
use mcp_go_sdk.Prelude.{
  ℕ, ◌≡◌, ◌≢◌, refl, sym, ◌∙◌, ap, some, Key, nat_Key, arith, inl, inr, [], ◌∷◌, ◌++◌,
}
use mcp_go_sdk.Prelude.Dict.{lookup-insert_self, lookup-insert_ne, lookup-insert-some}
use mcp_go_sdk.Value.MapKey.{MapKey, MapKey_Key, id_of}
use mcp_go_sdk.Shared.Message.{Request}
use mcp_go_sdk.Internal.Handler.{Select, sends, aborts, returns}
use mcp_go_sdk.Transport.HttpServer.{
  HttpServerTransport, Posted, waiting, answered, status, post_request, remove_pending_http_request,
  register_http_request,
}
use mcp_go_sdk.Transport.HttpServer.Exchanges.{Keyed, Waiting, removed-Keyed, removed-Waiting}

pub returned_eq : {A : Type 0} {a b : A} → returns a ≡ returns b → a ≡ b
returned_eq e = cc

module _ {F B : Type 0} ⦃key : Key F⦄ where
  registered-Keyed :
      (id : MapKey F) (t : HttpServerTransport F B) → Keyed t → Keyed (register_http_request id t)
  unfolding register_http_request
  registered-Keyed id t keyed j b found =
      elim (lookup-insert-some id j t.fresh b t.pending_http_requests found) [
        | inl (same, new) ↦ (rw (sym new) (ground arith), rw (sym new) (omega arith))
        | inr (other, old) ↦ let (at_b, known) = keyed j b old in (ground arith, omega arith)
      ]

  registered-Waiting :
      (id j : MapKey F) (a : ℕ) (t : HttpServerTransport F B)
      → j ≢ id
      → Keyed t
      → Waiting id a t
      → Waiting id a (register_http_request j t)
  unfolding register_http_request
  registered-Waiting id j a t other keyed (found, unclosed, empty) =
      let (at_a, known) = keyed id a found in
      (
        lookup-insert_ne j id t.fresh t.pending_http_requests other ∙ found,
        ground arith,
        ground arith,
      )

  pub registered-Waiting_self :
      (id : MapKey F) (t : HttpServerTransport F B)
      → Waiting id t.fresh (register_http_request id t)
  unfolding register_http_request
  registered-Waiting_self id t =
      (lookup-insert_self id t.fresh t.pending_http_requests, ground arith, ground arith)

  abbrev pub posted :
      Select → Request F → MapKey F → HttpServerTransport F B → HttpServerTransport F B
  posted sends r id t =
      let s = register_http_request id t in record s { request_chan = s.request_chan ++ r ∷ [] }
  posted aborts r id t = remove_pending_http_request id (register_http_request id t)

  pub post_request-posted :
      (sel : Select) (r : Request F) (id : MapKey F) (t s : HttpServerTransport F B) (p : Posted F)
      → id_of r.id ≡ some id
      → post_request sel r t ≡ returns (s, p)
      → posted sel r id t ≡ s
  unfolding post_request
  post_request-posted sends r id t s p hashed e =
      let computed : post_request sends r t ≡ returns (posted sends r id t, waiting t.fresh) =
        rw (post_request, hashed) refl in
      ap (λ x. x.0) (returned_eq (sym computed ∙ e))
  post_request-posted aborts r id t s p hashed e =
      let computed : post_request aborts r t
          ≡ returns (posted aborts r id t, answered (status 503 "Server shutting down")) =
        rw (post_request, hashed) refl in
      ap (λ x. x.0) (returned_eq (sym computed ∙ e))

  pub posted-Keyed :
      (sel : Select) (r : Request F) (id : MapKey F) (t : HttpServerTransport F B)
      → Keyed t
      → Keyed (posted sel r id t)
  posted-Keyed sends r id t keyed = registered-Keyed id t keyed
  posted-Keyed aborts r id t keyed =
      removed-Keyed id (register_http_request id t) (registered-Keyed id t keyed)

  pub posted-Waiting :
      (id j : MapKey F) (a : ℕ) (sel : Select) (r : Request F) (t : HttpServerTransport F B)
      → j ≢ id
      → Keyed t
      → Waiting id a t
      → Waiting id a (posted sel r j t)
  posted-Waiting id j a sends r t other keyed w = registered-Waiting id j a t other keyed w
  posted-Waiting id j a aborts r t other keyed w =
      removed-Waiting id j a (register_http_request j t) other (registered-Keyed j t keyed)
        (registered-Waiting id j a t other keyed w)
