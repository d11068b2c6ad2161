-- ===== src/Internal/Progress/Tracking.antt =====
-- internal/progress_handler.go: what holds between the operations of the requests, their channels
-- and timers, and of the two maps that lead from a token to its request.
use mcp_go_sdk.Prelude.{
  ℕ, suc, ◌≤◌, ◌<◌, ◌≡◌, refl, ◌≢◌, false, Option, none, some, nat_Key, inl, inr, Option-cases,
  arith, sym, ◌∙◌, ap, subst,
}
use mcp_go_sdk.Prelude.Dict.{
  Dict, lookup, insert, erase, lookup-erase-some, lookup-insert-some, lookup-insert_self,
  lookup-insert_ne, lookup-erase_ne,
}
use mcp_go_sdk.Internal.Handler.{armed}
use mcp_go_sdk.Internal.Progress.{
  ProgressMessageHandler, ProgressPendingRequest, ProgressCell, erase_token, insert_token,
}

abbrev pub Requests : Type 0
Requests = Dict ℕ ProgressPendingRequest

-- A request is stored under its own id; its channel is open and its timer runs.
abbrev pub Waits : (ℕ → ProgressCell) → ℕ → ℕ → ℕ → ProgressPendingRequest → Type 0
Waits cells fresh counter n p =
    (p.id ≡ n)
    × (n ≤ counter)
    × (p.cell < fresh)
    × ((cells p.cell).request ≡ n)
    × ((cells p.cell).closed ≡ false)
    × ((cells p.cell).timer ≡ armed)

abbrev pub Waiting : Requests → (ℕ → ProgressCell) → ℕ → ℕ → Type 0
Waiting requests cells fresh counter =
    (n : ℕ) (p : ProgressPendingRequest)
    → lookup n requests ≡ some p
    → Waits cells fresh counter n p

-- The tokens lead to the requests that carry them, and every token that a request carries leads
-- to it.
pub record Linked (requests : Requests) (tokens : Dict ℕ ℕ) (token_counter : ℕ) : Type 0 where
  pub stored :
      (n t : ℕ) (p : ProgressPendingRequest)
      → lookup n requests ≡ some p
      → p.progress_token ≡ some t
      → lookup t tokens ≡ some n
  pub owned :
      (n t : ℕ)
      → lookup t tokens ≡ some n
      → (p : ProgressPendingRequest) × (lookup n requests ≡ some p) × (p.progress_token ≡ some t)
  pub bounded : (n t : ℕ) → lookup t tokens ≡ some n → t ≤ token_counter

abbrev pub Tracked : {F B : Type 0} → ProgressMessageHandler F B → Type 0
Tracked h =
    Waiting h.progress_requests h.cells h.fresh h.base.counter
    × Linked h.progress_requests h.progress_tokens h.token_counter

-- The cells are as they were, but at one address.
abbrev pub Elsewhere : (ℕ → ProgressCell) → (ℕ → ProgressCell) → ℕ → Type 0
Elsewhere new old a = (b : ℕ) → b ≢ a → new b ≡ old b

pub erase-Waiting :
    (n : ℕ) (p : ProgressPendingRequest) (requests : Requests) (cells new : ℕ → ProgressCell)
    (fresh counter : ℕ)
    → Waiting requests cells fresh counter
    → lookup n requests ≡ some p
    → Elsewhere new cells p.cell
    → Waiting (erase n requests) new fresh counter
erase-Waiting n p requests cells new fresh counter w held rest m q hit =
    let (ne, old) = lookup-erase-some n m q requests hit in
    let (i, le, lt, rq, op, tm) = w m q old in
    let (i', le', lt', rq', op', tm') = w n p held in
    let e : new q.cell ≡ cells q.cell =
      rest q.cell (λ same. ne (sym rq' ∙ ap (λ b. (cells b).request) (sym same) ∙ rq)) in
    (i, le, lt, ap (λ c. c.request) e ∙ rq, ap (λ c. c.closed) e ∙ op, ap (λ c. c.timer) e ∙ tm)

pub insert-Waiting :
    (n : ℕ) (p : ProgressPendingRequest) (requests : Requests) (cells new : ℕ → ProgressCell)
    (fresh counter : ℕ)
    → Waiting requests cells fresh counter
    → counter < n
    → Elsewhere new cells fresh
    → Waits new (suc fresh) n n p
    → Waiting (insert n p requests) new (suc fresh) n
insert-Waiting n p requests cells new fresh counter w lt rest own m q hit =
    elim (lookup-insert-some n m p q requests hit) [
      | inl (e, f) ↦
          subst (λ k. Waits new (suc fresh) n k q) e
            (subst (λ r. Waits new (suc fresh) n n r) f own)
      | inr (ne, old) ↦
          let (i, le, below, rq, op, tm) = w m q old in
          let e : new q.cell ≡ cells q.cell = rest q.cell (λ same. omega arith) in
          (
            i,
            omega arith,
            omega arith,
            ap (λ c. c.request) e ∙ rq,
            ap (λ c. c.closed) e ∙ op,
            ap (λ c. c.timer) e ∙ tm,
          )
    ]

some-injective : (a b : ℕ) → some a ≡ some b → a ≡ b
some-injective a b e = ground arith

erase_token-kept :
    (token : Option ℕ) (t : ℕ) (tokens : Dict ℕ ℕ)
    → token ≢ some t
    → lookup t (erase_token token tokens) ≡ lookup t tokens
unfolding erase_token
erase_token-kept none t tokens ne = refl
erase_token-kept (some s) t tokens ne = lookup-erase_ne s t tokens (λ same. ne (ap some same))

erase_token-some :
    (token : Option ℕ) (t n : ℕ) (tokens : Dict ℕ ℕ)
    → lookup t (erase_token token tokens) ≡ some n
    → (token ≢ some t) × (lookup t tokens ≡ some n)
unfolding erase_token
erase_token-some none t n tokens h = (λ e. ground arith, h)
erase_token-some (some s) t n tokens h =
    let (ne, old) = lookup-erase-some s t n tokens h in (λ e. ne (some-injective s t e), old)

pub erase-Linked :
    (n : ℕ) (p : ProgressPendingRequest) (requests : Requests) (tokens : Dict ℕ ℕ) (counter : ℕ)
    → Linked requests tokens counter
    → lookup n requests ≡ some p
    → Linked (erase n requests) (erase_token p.progress_token tokens) counter
erase-Linked n p requests tokens counter l held = record {
  stored = λ m t q hit own.
      let (ne, old) = lookup-erase-some n m q requests hit in
      let at_m = l.stored m t q old own in
      erase_token-kept p.progress_token t tokens
        (λ e. ne (some-injective n m (sym (l.stored n t p held e) ∙ at_m)))
      ∙ at_m;
  owned = λ m t hit.
      let (other, old) = erase_token-some p.progress_token t m tokens hit in
      let (q, at_q, own) = l.owned m t old in
      (
        q,
        lookup-erase_ne n m requests (λ same. ground (arith, other, held, at_q, own)) ∙ at_q,
        own,
      );
  bounded = λ m t hit.
      let (other, old) = erase_token-some p.progress_token t m tokens hit in l.bounded m t old;
}

pub fresh_none :
    (n : ℕ) (requests : Requests) (cells : ℕ → ProgressCell) (fresh counter : ℕ)
    → Waiting requests cells fresh counter
    → counter < n
    → lookup n requests ≡ none
fresh_none n requests cells fresh counter w lt = elim (Option-cases (lookup n requests)) [
  | inl e ↦ e
  | inr (p, e) ↦ let (i, le, below, rq, op, tm) = w n p e in absurd (omega arith)
]

insert-Linked-none :
    (n : ℕ) (p : ProgressPendingRequest) (requests : Requests) (tokens : Dict ℕ ℕ) (counter : ℕ)
    → Linked requests tokens counter
    → lookup n requests ≡ none
    → p.progress_token ≡ none
    → Linked (insert n p requests) tokens counter
insert-Linked-none n p requests tokens counter l new bare = record {
  stored = λ m t q hit own. elim (lookup-insert-some n m p q requests hit) [
    | inl (e, f) ↦ ground (arith, f, own, bare)
    | inr (ne, old) ↦ l.stored m t q old own
  ];
  owned = λ m t hit.
      let (q, at_q, own) = l.owned m t hit in
      (q, lookup-insert_ne n m p requests (λ same. ground (arith, same, new, at_q)) ∙ at_q, own);
  bounded = l.bounded;
}

insert-Linked-some :
    (n s : ℕ) (p : ProgressPendingRequest) (requests : Requests) (tokens : Dict ℕ ℕ) (counter : ℕ)
    → Linked requests tokens counter
    → lookup n requests ≡ none
    → counter < s
    → p.progress_token ≡ some s
    → Linked (insert n p requests) (insert s n tokens) s
insert-Linked-some n s p requests tokens counter l new lt bears = record {
  stored = λ m t q hit own. elim (lookup-insert-some n m p q requests hit) [
    | inl (e, f) ↦
        let same : s ≡ t = some-injective s t (sym bears ∙ ap (λ r. r.progress_token) f ∙ own) in
        subst (λ u. lookup u (insert s n tokens) ≡ some m) same
          (lookup-insert_self s n tokens ∙ ap some e)
    | inr (ne, old) ↦
        let at_m = l.stored m t q old own in
        let le = l.bounded m t at_m in lookup-insert_ne s t n tokens (λ same. omega arith) ∙ at_m
  ];
  owned = λ m t hit. elim (lookup-insert-some s t n m tokens hit) [
    | inl (e, f) ↦ (
      p,
      subst (λ k. lookup k (insert n p requests) ≡ some p) f (lookup-insert_self n p requests),
      bears ∙ ap some e,
    )
    | inr (ne, old) ↦
        let (q, at_q, own) = l.owned m t old in
        (q, lookup-insert_ne n m p requests (λ same. ground (arith, same, new, at_q)) ∙ at_q, own)
  ];
  bounded = λ m t hit. elim (lookup-insert-some s t n m tokens hit) [
    | inl (e, f) ↦ omega arith
    | inr (ne, old) ↦ let le = l.bounded m t old in omega arith
  ];
}

-- The new request has no token, or a later one than all before.
abbrev pub Issues : Option ℕ → ℕ → ℕ → Type 0
Issues none counter later = later ≡ counter
Issues (some t) counter later = (counter < t) × (later ≡ t)

pub insert-Linked :
    (n : ℕ) (token : Option ℕ) (p : ProgressPendingRequest) (requests : Requests)
    (tokens : Dict ℕ ℕ) (counter later : ℕ)
    → Linked requests tokens counter
    → lookup n requests ≡ none
    → p.progress_token ≡ token
    → Issues token counter later
    → Linked (insert n p requests) (insert_token token n tokens) later
unfolding insert_token
insert-Linked n none p requests tokens counter later l new e same =
    subst (Linked (insert n p requests) tokens) (sym same)
      (insert-Linked-none n p requests tokens counter l new e)
insert-Linked n (some s) p requests tokens counter later l new e (lt, same) =
    subst (Linked (insert n p requests) (insert s n tokens)) (sym same)
      (insert-Linked-some n s p requests tokens counter l new lt e)
