-- ===== src/Gateway/Books.antt =====
-- apps/control-plane-api/src/actions/action-gateway.ts: what the calls of the execution service and
-- the expiry of approvals do to the gateway's own rows.
use employee_agent_platform.Prelude.{
  Bool-cases, Option-cases, inl, inr, ℕ, ◌≡◌, refl, List, [], ◌∷◌, map, ap, ◌∙◌, is_some,
}
use employee_agent_platform.Prelude.Result.{
  Result, ok, err, Post, Post-option, Post-bind, Post-map, Post-value, Post-error,
}
use employee_agent_platform.Execution.{Run, ExecutionError, Stamp}
use employee_agent_platform.Execution.Decisions.{on_approval_expired}
use employee_agent_platform.Gateway.{
  Ledger, ApprovalRow, find_run, on_run, store_run, linked, sort_by,
}
use employee_agent_platform.Gateway.Decide.{
  expire_one, expire_all, expire_due, expire_row, due_of, expiry,
}
use employee_agent_platform.Gateway.Reconcile.{Unknown, require, require_in, find_reconciliation}

pub record SameBooks (l l' : Ledger) : Type 0 where
  pub requests : l'.requests ≡ l.requests
  pub executions : l'.executions ≡ l.executions
  pub reconciliations : l'.reconciliations ≡ l.reconciliations
  pub grants : l'.grants ≡ l.grants

SameBooks-refl : (l : Ledger) → SameBooks l l
SameBooks-refl l = record {
  requests = refl;
  executions = refl;
  reconciliations = refl;
  grants = refl;
}

SameBooks-trans : (a b c : Ledger) → SameBooks a b → SameBooks b c → SameBooks a c
SameBooks-trans a b c h k = record {
  requests = k.requests ∙ h.requests;
  executions = k.executions ∙ h.executions;
  reconciliations = k.reconciliations ∙ h.reconciliations;
  grants = k.grants ∙ h.grants;
}

store_run-SameBooks :
    (id : ℕ) (m : Result ExecutionError Run) (l : Ledger)
    → Post (λ l'. SameBooks l l' × (l'.approvals ≡ l.approvals)) (store_run id m l)
store_run-SameBooks id (ok s) l =
    Post-value _
      (record { requests = refl; executions = refl; reconciliations = refl; grants = refl }, refl)
store_run-SameBooks id (err e) l = Post-error _

pub on_run-SameBooks :
    (id : ℕ) (f : Run → Result ExecutionError Run) (l : Ledger)
    → Post (λ l'. SameBooks l l' × (l'.approvals ≡ l.approvals)) (on_run id f l)
unfolding on_run
on_run-SameBooks id f l =
    Post-option (find_run id l) _ _ (λ _. Post-error _)
      (λ r _. store_run-SameBooks id (f (linked l.approvals r)) l)

expire_one-SameBooks :
    (s : Stamp) (a : ApprovalRow) (l : Ledger)
    → Post
        (λ l'. SameBooks l l' × (l'.approvals ≡ map (expire_row a.id) l.approvals))
        (expire_one s a l)
unfolding expire_one
expire_one-SameBooks s a l =
    Post-map _ (λ l' h. (again l' h.0, h.1))
      (on_run-SameBooks a.run_id (on_approval_expired a.id s) marked)
  where
    marked : Ledger
    marked = record l { approvals = map (expire_row a.id) l.approvals }

    again : (l' : Ledger) → SameBooks marked l' → SameBooks l l'
    again l' h = record {
      requests = h.requests;
      executions = h.executions;
      reconciliations = h.reconciliations;
      grants = h.grants;
    }

-- The rows of approvals after those of a list have expired.
abbrev pub expire_rows : List ApprovalRow → List ApprovalRow → List ApprovalRow
expire_rows [] rows = rows
expire_rows (a ∷ due) rows = expire_rows due (map (expire_row a.id) rows)

expire_all-SameBooks :
    (s : Stamp) (due : List ApprovalRow) (l : Ledger)
    → Post
        (λ l'. SameBooks l l' × (l'.approvals ≡ expire_rows due l.approvals))
        (expire_all s due l)
unfolding expire_all
expire_all-SameBooks s [] l = Post-value l (SameBooks-refl l, refl)
expire_all-SameBooks s (a ∷ due) l = Post-bind _ _ (expire_one-SameBooks s a l) (λ l₁ h₁.
    Post-map _ (λ l₂ h₂. (SameBooks-trans l l₁ l₂ h₁.0 h₂.0, h₂.1 ∙ ap (expire_rows due) h₁.1))
      (expire_all-SameBooks s due l₁))

pub expire_due-SameBooks :
    (s : Stamp) (l : Ledger)
    → Post
        (λ l'.
          SameBooks l l'
          × (l'.approvals ≡ expire_rows (sort_by expiry (due_of s.now l.approvals)) l.approvals))
        (expire_due s l)
unfolding expire_due
expire_due-SameBooks s l = expire_all-SameBooks s (sort_by expiry (due_of s.now l.approvals)) l

-- A reconciliation is one row at most.
pub require_in-executions :
    (t : ℕ) (u : Unknown) (now : ℕ) (l : Ledger)
    → ((require_in t u now l).executions ≡ l.executions)
      × ((require_in t u now l).requests ≡ l.requests)
      × ((require_in t u now l).grants ≡ l.grants)
unfolding require_in
require_in-executions t u now l = elim (Bool-cases (is_some (find_reconciliation u.request_id l))) [
  | inl h ↦ rw h (refl, refl, refl)
  | inr h ↦ rw h (refl, refl, refl)
]

pub require-executions :
    (u : Unknown) (now : ℕ) (l : Ledger)
    → ((require u now l).executions ≡ l.executions)
      × ((require u now l).requests ≡ l.requests)
      × ((require u now l).grants ≡ l.grants)
unfolding require
require-executions u now l = elim (Option-cases (find_run u.run_id l)) [
  | inl h ↦ rw (h, require) (refl, refl, refl)
  | inr (r, h) ↦ rw (h, require) (require_in-executions r.state.thread_id u now l)
]
