-- ===== src/Gateway/Calls.antt =====
-- apps/control-plane-api/src/actions: what the calls do to the executions that are recorded.
use employee_agent_platform.Prelude.{
  Option-cases, inl, inr, ℕ, ◌+◌, ◌≡◌, refl, ◌&&◌, not, Option, none, some, List, [], ◌∷◌, ◌==◌,
  ltb, sym, ap, ◌∙◌,
}
use employee_agent_platform.Prelude.Result.{
  ok, Post, Post-if, Post-option, Post-bind, Post-map, Post-value, Post-error,
}
use employee_agent_platform.Execution.{Stamp}
use employee_agent_platform.Gateway.{
  Ledger, RunRow, ActionRequest, ActionExecution, is_dispatching, find_execution, find_request,
  find_by,
}
use employee_agent_platform.Gateway.Registry.{Handler, effect, is_write, control_plane_action}
use employee_agent_platform.Gateway.World.{World}
use employee_agent_platform.Gateway.Dispatch.{
  start, stored, resume, start_or_resume, with_handler, for_step, own_request, prepare_execution,
}
use employee_agent_platform.Gateway.Plan.{
  Plan, finished, PendingDispatch, Reply, close, is_open, interrupt, stored_execution,
}
use employee_agent_platform.Gateway.Complete.{
  completed_with, settle, unknown_of, complete_execution, interrupt_row, interrupt_rows, is_unknown,
  effect_of,
}
use employee_agent_platform.Gateway.Awaited.{
  Stays, Stays-refl, Stays-same, Stays-trans, Stays-interrupt,
}
use employee_agent_platform.Gateway.Books.{SameBooks, expire_due-SameBooks}
use employee_agent_platform.Gateway.Executions.{
  Keeps, Keeps-refl, Keeps-trans, Keeps-same, Keeps-close,
}
use employee_agent_platform.Gateway.Started.{
  Keeps-if, Keeps-interrupt, Keeps-require, Prepares, Prepares-start,
}

-- A plan that does not dispatch.
Prepares-finished :
    (l l' : Ledger) (r : Reply) → Keeps l l' → Stays l l' → Prepares l (finished r, l')
Prepares-finished l l' r h k = record {
  keeps = h;
  stays = k;
  fresh = λ d e. cc;
  recorded = λ d e. cc;
}

Prepares-stored :
    (id : ℕ) (l l' : Ledger) → Keeps l l' → Stays l l' → Post (Prepares l) (stored id l')
Prepares-stored id l l' h k =
    Post-option (find_execution id l') _ _ (λ _. Post-error _)
      (λ e _. Post-value _ (Prepares-finished l l' (stored_execution e) h k))

Prepares-resume :
    (w : World) (run : RunRow) (q : ActionRequest) (h : Handler) (e : ActionExecution)
    (stale now : ℕ) (l : Ledger)
    → Post (Prepares l) (resume w run q h e stale now l)
unfolding resume
Prepares-resume w run q h e stale now l =
    Post-if (not (is_dispatching e.status)) _ _
      (λ _. Post-value _ (Prepares-finished l l (stored_execution e) (Keeps-refl l) (Stays-refl l)))
      (λ _.
        Post-if (ltb now (e.started_at + stale)) _
          (stored q.id (interrupt w (effect h) q run.id now l)) (λ _. Post-error _)
          (λ _.
            Prepares-stored q.id l _ (Keeps-interrupt w (effect h) q run.id now l)
              (Stays-interrupt w (effect h) q run.id now l)))

Prepares-start_or_resume :
    (w : World) (run : RunRow) (q : ActionRequest) (h : Handler) (stale now : ℕ) (l : Ledger)
    → Post (Prepares l) (start_or_resume w run q h stale now l)
unfolding start_or_resume
Prepares-start_or_resume w run q h stale now l = begun (find_execution q.id l) refl
  where
    begun :
        (o : Option ActionExecution)
        → find_execution q.id l ≡ o
        → Post
            (Prepares l)
            (elim o [ some e ↦ resume w run q h e stale now l | none ↦ ok (start w run q h now l) ])
    begun none free = Post-value _ (Prepares-start q l free w run h now)
    begun (some e) h' = Prepares-resume w run q h e stale now l

Prepares-with_handler :
    (w : World) (run : RunRow) (q : ActionRequest) (h : Option Handler) (stale now : ℕ) (l : Ledger)
    → Post (Prepares l) (with_handler w run q h stale now l)
unfolding with_handler
Prepares-with_handler w run q none stale now l = Post-error _
Prepares-with_handler w run q (some h) stale now l = Prepares-start_or_resume w run q h stale now l

Prepares-for_step :
    (w : World) (run : RunRow) (q : Option ActionRequest) (step_id stale now : ℕ) (l : Ledger)
    → Post (Prepares l) (for_step w run q step_id stale now l)
unfolding for_step
Prepares-for_step w run none step_id stale now l = Post-error _
Prepares-for_step w run (some q) step_id stale now l =
    Post-if (not (q.step_id == step_id)) _ _ (λ _. Post-error _)
      (λ _. Prepares-with_handler w run q (control_plane_action q.action) stale now l)

-- Rows that are the same are found alike.
Prepares-books : (l l₁ : Ledger) (p : Plan × Ledger) → SameBooks l l₁ → Prepares l₁ p → Prepares l p
Prepares-books l l₁ p b h = record {
  keeps = Keeps-trans l l₁ p.1 (Keeps-same l l₁ b.executions) h.keeps;
  stays = Stays-trans l l₁ p.1 (Stays-same l l₁ b.reconciliations) h.stays;
  fresh = λ d e. ap (find_by (λ x. x.request_id) d.request_id) (sym b.executions) ∙ h.fresh d e;
  recorded = h.recorded;
}

pub Prepares-prepare_execution :
    (w : World) (run : RunRow) (id step_id stale : ℕ) (s : Stamp) (l : Ledger)
    → Post (Prepares l) (prepare_execution w run id step_id stale s l)
unfolding prepare_execution
Prepares-prepare_execution w run id step_id stale s l =
    Post-bind _ _ (expire_due-SameBooks s l) (λ l₁ b.
      Post-map _ (λ p h. Prepares-books l l₁ p b.0 h)
        (Prepares-for_step w run (own_request run id l₁) step_id stale s.now l₁))

pub Keeps-complete_execution :
    (p : PendingDispatch) (r : Reply) (now : ℕ) (l : Ledger)
    → Post (λ x. Keeps l x.1) (complete_execution p r now l)
unfolding complete_execution settle
Keeps-complete_execution p r now l =
    Post-if (is_open p.request_id l) (ok (r, settle p r now closed)) _
      (λ _. Post-value _ (
        Keeps-trans l closed _ (Keeps-close p.request_id (completed_with r now) (λ e. refl) l) (
          Keeps-if (is_write (effect p.handler) && is_unknown r.error) closed _ closed
            (Keeps-require (unknown_of p) now closed) (Keeps-refl closed))))
      (λ _.
        Post-option (find_execution p.request_id l) _ _ (λ _. Post-error _)
          (λ e _. Post-value _ (Keeps-refl l)))
  where
    closed : Ledger
    closed = close p.request_id (completed_with r now) l

Keeps-interrupt_row :
    (w : World) (now : ℕ) (e : ActionExecution) (l : Ledger) → Keeps l (interrupt_row w now e l)
unfolding interrupt_row
Keeps-interrupt_row w now e l = elim (Option-cases (find_request e.request_id l)) [
  | inl h ↦ rw (h, interrupt_row) (Keeps-refl l)
  | inr (q, h) ↦
      rw (h, interrupt_row)
        (Keeps-interrupt w (effect_of (control_plane_action q.action)) q e.run_id now l)
]

pub Keeps-interrupt_rows :
    (w : World) (now : ℕ) (rows : List ActionExecution) (l : Ledger)
    → Keeps l (interrupt_rows w now rows l)
unfolding interrupt_rows
Keeps-interrupt_rows w now [] l = Keeps-refl l
Keeps-interrupt_rows w now (e ∷ rest) l =
    Keeps-trans l (interrupt_row w now e l) _ (Keeps-interrupt_row w now e l)
      (Keeps-interrupt_rows w now rest (interrupt_row w now e l))
