-- ===== src/Gateway/Recorded.antt =====
-- apps/control-plane-api/src/actions/action-gateway.ts, `decide`: what is recorded of a request.
use employee_agent_platform.Prelude.{ℕ, ◌≡◌, refl, none, some, List, [], ◌∷◌, ◌++◌, ap, ◌∙◌}
use employee_agent_platform.Prelude.Result.{ok, Post, Post-bind, Post-map, Post-ok, Post-value}
use employee_agent_platform.Policy.{Outcome, allow, require_approval, deny}
use employee_agent_platform.Execution.{ApprovalStatus}
use employee_agent_platform.Execution.Decisions.{pause_for_approval}
use employee_agent_platform.Gateway.{
  Ledger, RunRow, ActionRequest, ApprovalRow, allowed, denied, approval_required, find_by,
  find_request,
}
use employee_agent_platform.Gateway.World.{World, Assessment}
use employee_agent_platform.Gateway.Decide.{
  Submission, Moment, stored_decision, verdict_of, new_request, new_approval, ask, ask_if,
  record_request, decide,
}
use employee_agent_platform.Gateway.Books.{on_run-SameBooks}
use employee_agent_platform.Gateway.Rows.{find_by-append}

-- What the runtime is told, and what is kept of the payload. An approval that is asked for is pending,
-- and is of this run and this step.
abbrev pub RecordsAs :
    Outcome → ℕ → Assessment → Submission → Moment → ActionRequest → Ledger → Type 0
RecordsAs allow run_id v s m q l =
    (stored_decision q
      ≡ record { request_id = s.request_id; risk = v.risk; decision = allowed; approval_id = none })
    × (q.parameters ≡ v.parameters)
RecordsAs deny run_id v s m q l =
    (stored_decision q
      ≡ record { request_id = s.request_id; risk = v.risk; decision = denied; approval_id = none })
    × (q.parameters ≡ none)
RecordsAs require_approval run_id v s m q l =
    (stored_decision q ≡ record {
      request_id = s.request_id;
      risk = v.risk;
      decision = approval_required;
      approval_id = some m.approval_id;
    })
    × (q.parameters ≡ v.parameters)
    × (a : ApprovalRow) × (find_by (λ x. x.id) m.approval_id l.approvals ≡ some a)
    × (a.status ≡ ApprovalStatus.pending)
    × (a.run_id ≡ run_id)
    × (a.step_id ≡ s.step_id)

ask_if-requests :
    (o : Outcome) (run_id : ℕ) (v : Assessment) (s : Submission) (m : Moment) (l : Ledger)
    → Post (λ l'. l'.requests ≡ l.requests) (ask_if o run_id v s m l)
unfolding ask_if ask
ask_if-requests allow run_id v s m l = Post-value l refl
ask_if-requests deny run_id v s m l = Post-value l refl
ask_if-requests require_approval run_id v s m l =
    Post-map _ (λ l' h. h.0.requests)
      (on_run-SameBooks run_id (pause_for_approval s.step_id m.stamp)
        (record l { approvals = l.approvals ++ new_approval run_id v s m ∷ [] }))

module _ (run_id : ℕ) (v : Assessment) (s : Submission) (m : Moment) where
  -- The request, and the approval that asking has made.
  ask_if-RecordsAs :
      (o : Outcome) (l : Ledger)
      → v.outcome ≡ o
      → find_by (λ x. x.id) m.approval_id l.approvals ≡ none
      → Post
          (λ l'.
            (l'.requests ≡ l.requests) × RecordsAs o run_id v s m (new_request run_id v s m) l')
          (ask_if o run_id v s m l)
  unfolding ask_if ask stored_decision
  ask_if-RecordsAs allow l e free = Post-value l (refl, (rw e refl, rw e refl))
  ask_if-RecordsAs deny l e free = Post-value l (refl, (rw e refl, rw e refl))
  ask_if-RecordsAs require_approval l e free =
      Post-map _
        (λ l' h. (
          h.0.requests,
          (
            rw e refl,
            rw e refl,
            new_approval run_id v s m,
            ap (find_by (λ x. x.id) m.approval_id) h.1
                ∙ find_by-append (λ x. x.id) (new_approval run_id v s m) l.approvals free,
            refl,
            refl,
            refl,
          ),
        ))
        (on_run-SameBooks run_id (pause_for_approval s.step_id m.stamp)
          (record l { approvals = l.approvals ++ new_approval run_id v s m ∷ [] }))

RecordsAs-requests :
    (o : Outcome) (run_id : ℕ) (v : Assessment) (s : Submission) (m : Moment) (q : ActionRequest)
    (l : Ledger) (r : List ActionRequest)
    → RecordsAs o run_id v s m q l
    → RecordsAs o run_id v s m q (record l { requests = r })
RecordsAs-requests allow run_id v s m q l r h = h
RecordsAs-requests deny run_id v s m q l r h = h
RecordsAs-requests require_approval run_id v s m q l r h = h

-- The row that is inserted.
pub decide-found :
    (w : World) (run : RunRow) (s : Submission) (m : Moment) (l l' : Ledger)
    → find_request s.request_id l ≡ none
    → decide w run s m l ≡ ok l'
    → (find_request s.request_id l' ≡ some (new_request run.id (verdict_of w run s.question l) s m))
unfolding decide record_request
decide-found w run s m l l' fresh e = Post-ok _ l' posted e
  where
    v : Assessment
    v = verdict_of w run s.question l

    Found : Ledger → Type 0
    Found x = find_request s.request_id x ≡ some (new_request run.id v s m)

    posted : Post Found (record_request run.id v s m l)
    posted = Post-bind _ _ (ask_if-requests v.outcome run.id v s m l) (λ l₁ h. Post-value _ (
        find_by-append (λ x. x.id) (new_request run.id v s m) l₁.requests
          (ap (find_by (λ x. x.id) s.request_id) h ∙ fresh)))

-- A request that is decided is recorded with the verdict of this moment, and is read back as it was told:
-- with its risk and, if it needs an approval, a new approval that is pending for this run and this step.
-- The payload of a request that is denied is not kept. The identifiers of the request and of the approval
-- are new.
pub decide_recorded :
    (w : World) (run : RunRow) (s : Submission) (m : Moment) (l l' : Ledger)
    → find_request s.request_id l ≡ none
    → find_by (λ x. x.id) m.approval_id l.approvals ≡ none
    → decide w run s m l ≡ ok l'
    → (q : ActionRequest) × (find_request s.request_id l' ≡ some q)
      × (q.run_id ≡ run.id)
      × (q.step_id ≡ s.step_id)
      × RecordsAs
          (verdict_of w run s.question l).outcome
          run.id
          (verdict_of w run s.question l)
          s
          m
          q
          l'
unfolding decide record_request
decide_recorded w run s m l l' fresh free e = (new_request run.id v s m, told.0, refl, refl, told.1)
  where
    v : Assessment
    v = verdict_of w run s.question l

    Told : Ledger → Type 0
    Told x =
        (find_request s.request_id x ≡ some (new_request run.id v s m))
        × RecordsAs v.outcome run.id v s m (new_request run.id v s m) x

    posted : Post Told (record_request run.id v s m l)
    posted = Post-bind _ _ (ask_if-RecordsAs run.id v s m v.outcome l refl free) (λ l₁ h.
        Post-value _ (
          find_by-append (λ x. x.id) (new_request run.id v s m) l₁.requests
              (ap (find_by (λ x. x.id) s.request_id) h.0 ∙ fresh),
          RecordsAs-requests v.outcome run.id v s m (new_request run.id v s m) l₁ _ h.1,
        ))

    told : Told l'
    told = Post-ok _ l' posted e
