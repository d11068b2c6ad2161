-- ===== src/Internal/Handler/Invariant.antt =====
-- internal/jsonrpc.go: what holds of the pending requests, their channels and timers between the
-- operations of the handler.
use mcp_go_sdk.Prelude.{
  ℕ, suc, ◌≤◌, ◌<◌, ◌≡◌, refl, sym, ◌∙◌, ap, ◌≢◌, inl, inr, false, none, some, nat_Key, ◌==◌,
  Bool-cases, arith, subst, subst₂, eq_of_==, eq_of_==,
}
use mcp_go_sdk.Prelude.Dict.{
  Dict, lookup, insert, erase, lookup-erase-some, lookup-insert-some, lookup-insert_self,
  lookup-insert_ne, Distinct, insert-Distinct, erase-Distinct, lookup-erase_ne,
}
use mcp_go_sdk.Internal.Handler.{
  MessageHandler, PendingRequest, Cell, armed, Run, returns, panics, ◌>>=◌,
}

-- A pending request is stored under its own id; its channel is open and empty and its timer runs.
abbrev pub Live : {F : Type 0} → (ℕ → Cell F) → ℕ → ℕ → PendingRequest → Type 0
Live cells fresh n p =
    (p.id ≡ n)
    × (p.cell < fresh)
    × ((cells p.cell).request ≡ n)
    × ((cells p.cell).closed ≡ false)
    × ((cells p.cell).timer ≡ armed)
    × ((cells p.cell).buffer ≡ none)

pub record Correlated {F : Type 0} (pending : Dict ℕ PendingRequest) (counter : ℕ)
    (cells : ℕ → Cell F) (fresh : ℕ) : Type 0 where
  pub live : (n : ℕ) (p : PendingRequest) → lookup n pending ≡ some p → Live cells fresh n p
  pub bounded : (n : ℕ) (p : PendingRequest) → lookup n pending ≡ some p → n ≤ counter
  pub distinct : Distinct pending
  pub covered :
      (a : ℕ)
      → a < fresh
      → (cells a).timer ≡ armed
      → lookup (cells a).request pending ≡ some (record { id = (cells a).request; cell = a })

abbrev pub fresh_cell : {F : Type 0} → ℕ → Cell F
fresh_cell n = record {
  request = n;
  buffer = none;
  closed = false;
  timer = armed;
  cancelled = false;
}

abbrev pub Inv : {F B : Type 0} → MessageHandler F B → Type 0
Inv h = Correlated h.pending_requests h.counter h.cells h.fresh

-- The invariant, with the counter as it was.
abbrev pub Keeps : {F B : Type 0} → ℕ → MessageHandler F B → Type 0
Keeps k h = Inv h × (h.counter ≡ k)

-- The call comes back, and what holds of the handler that it leaves.
abbrev pub Returns : {A : Type 0} → (A → Type 0) → Run A → Type 0
Returns P (returns a) = P a
Returns P (panics e) = ⊥

pub bind-Returns :
    {A B : Type 0} (P : A → Type 0) (Q : B → Type 0) (m : Run A) (f : A → Run B)
    → Returns P m
    → ((a : A) → P a → Returns Q (f a))
    → Returns Q (m >>= f)
bind-Returns P Q (returns a) f h k = k a h
bind-Returns P Q (panics e) f h k = absurd h

module _ {F : Type 0} {pending : Dict ℕ PendingRequest} {counter fresh : ℕ} {cells : ℕ → Cell F}
    (v : Correlated pending counter cells fresh) where
  -- Two pending requests have two channels.
  pub cells_apart :
      (n m : ℕ) (p q : PendingRequest)
      → lookup n pending ≡ some p
      → lookup m pending ≡ some q
      → n ≢ m
      → p.cell ≢ q.cell
  cells_apart n m p q hp hq ne same =
      ne (sym (v.live n p hp).2 ∙ ap (λ a. (cells a).request) same ∙ (v.live m q hq).2)

  -- An entry leaves together with its timer.
  pub retire :
      (n : ℕ) (p : PendingRequest) (cells' : ℕ → Cell F)
      → lookup n pending ≡ some p
      → ((b : ℕ) → b ≢ p.cell → cells' b ≡ cells b)
      → (cells' p.cell).timer ≢ armed
      → Correlated (erase n pending) counter cells' fresh
  retire n p cells' hp same off = record {
    live = λ m q hq.
        let (ne, hq') = lookup-erase-some n m q pending hq in
        let untouched = same q.cell (λ e. cells_apart n m p q hp hq' ne (sym e)) in
        rw untouched (v.live m q hq');
    bounded = λ m q hq. v.bounded m q (lookup-erase-some n m q pending hq).1;
    distinct = erase-Distinct n pending v.distinct;
    covered = λ a ha arm.
        let away : a ≢ p.cell = (λ e. off (subst (λ b. (cells' b).timer ≡ armed) e arm)) in
        let at_a = same a away in
        let held = v.covered a ha (rw at_a at arm) in
        let other : n ≢ (cells a).request = (λ e. away (cc (ap (λ k. lookup k pending) e))) in
        rw at_a (lookup-erase_ne n (cells a).request pending other ∙ held);
  }

  -- A new request under an id that is above all that were given out.
  pub enrol :
      (n : ℕ) (cells' : ℕ → Cell F)
      → counter < n
      → ((b : ℕ) → b ≢ fresh → cells' b ≡ cells b)
      → cells' fresh ≡ fresh_cell n
      → Correlated (insert n (record { id = n; cell = fresh }) pending) n cells' (suc fresh)
  enrol n cells' above same new = record {
    live = λ m q hq. elim (lookup-insert-some n m _ q pending hq) [
      | inl (e, f) ↦ subst₂ (λ k r. Live cells' (suc fresh) k r) e f (first new)
      | inr (ne, hq') ↦ widen m q hq'
    ];
    bounded = λ m q hq. elim (lookup-insert-some n m _ q pending hq) [
      | inl (e, f) ↦ omega arith
      | inr (ne, hq') ↦ omega (arith, v.bounded m q hq')
    ];
    distinct = insert-Distinct n _ pending v.distinct;
    covered = λ a ha arm. elim (Bool-cases (a == fresh)) [
      | inl e ↦
          let at_new = ap cells' (eq_of_== a fresh e) ∙ new in
          rw (at_new, eq_of_== a fresh e) (lookup-insert_self n _ pending)
      | inr ne ↦
          let untouched = same a (λ e. ground arith) in
          let held = v.covered a (ground arith) (rw untouched at arm) in
          let other = λ (e : n ≡ (cells a).request).
            absurd (omega (arith, v.bounded (cells a).request _ held)) in
          rw untouched (lookup-insert_ne n (cells a).request _ pending other ∙ held)
    ];
  }
    where
      first :
          cells' fresh ≡ fresh_cell n → Live cells' (suc fresh) n (record { id = n; cell = fresh })
      first e = (refl, omega arith, ground arith, ground arith, ground arith, ground arith)

      widen : (m : ℕ) (q : PendingRequest) → lookup m pending ≡ some q → Live cells' (suc fresh) m q
      widen m q hq =
          let (own, below, rq, op, tm, bf) = v.live m q hq in
          let untouched = same q.cell (λ e. absurd (omega arith)) in
          rw untouched (own, omega arith, rq, op, tm, bf)

  -- A client that reads a channel changes its buffer alone.
  pub drain :
      (cells' : ℕ → Cell F)
      → ((b : ℕ) → (cells' b).request ≡ (cells b).request)
      → ((b : ℕ) → (cells' b).closed ≡ (cells b).closed)
      → ((b : ℕ) → (cells' b).timer ≡ (cells b).timer)
      → ((b : ℕ) → (cells b).buffer ≡ none → (cells' b).buffer ≡ none)
      → Correlated pending counter cells' fresh
  drain cells' rq cl tm bf = record {
    live = λ m q hq.
        let (own, below, r, c, t, b) = v.live m q hq in
        (own, below, rq q.cell ∙ r, cl q.cell ∙ c, tm q.cell ∙ t, bf q.cell b);
    bounded = v.bounded;
    distinct = v.distinct;
    covered = λ a ha arm. rw (rq a) (v.covered a ha (sym (tm a) ∙ arm));
  }
