-- ===== src/Gateway/Lifetimes.antt =====
-- apps/control-plane-api/src/actions/action-gateway.ts, `issueGrant`: how long a grant lasts.
use employee_agent_platform.Prelude.{
  inl, inr, ◌⊎◌, ℕ, ◌+◌, ◌≤◌, ◌<◌, ◌≡◌, false, Option, none, some, arith,
}
use employee_agent_platform.Gateway.{
  Ledger, RunRow, ActionRequest, ApprovalRow, Decision, allowed, denied, approval_required, Grant,
}
use employee_agent_platform.Gateway.Assess.{assess}
use employee_agent_platform.Gateway.World.{World}
use employee_agent_platform.Gateway.Decide.{past}
use employee_agent_platform.Gateway.Dispatch.{question_of, approval_row}
use employee_agent_platform.Gateway.Grants.{
  grant_ttl_ms, grant_expiry, find_grant, earlier, approval_expiry,
}
use employee_agent_platform.Gateway.Committed.{Approved, Permitted}

-- A time that an optional time limits.
abbrev pub NotAfter : Option ℕ → ℕ → Type 0
NotAfter none t = Unit
NotAfter (some u) t = t ≤ u

-- No later than the approval that was asked for, if it expires.
abbrev pub Within : Decision → Option ApprovalRow → ℕ → Type 0
Within approval_required (some a) t = NotAfter a.expires_at t
Within approval_required none t = Unit
Within allowed a t = Unit
Within denied a t = Unit

-- What is checked of a new grant.
pub record NewGrant (w : World) (run : RunRow) (q : ActionRequest) (now : ℕ) (l : Ledger)
    (g : Grant) : Type 0 where
  pub of_request : g.request_id ≡ q.id
  pub first : find_grant q.id l ≡ none
  pub approved : Approved q now l
  pub permitted : Permitted (assess w run (question_of q) l).outcome q.decision
  pub soon : g.expires_at ≤ now + 600000
  pub within : Within q.decision (approval_row q.approval_id l) g.expires_at
  pub at_least : 1000 ≤ g.timeout_ms
  pub at_most : g.timeout_ms ≤ 3600000

-- A grant that is delivered has not expired and is recorded; it was recorded before, or is new.
pub record Delivered (w : World) (run : RunRow) (q : ActionRequest) (now : ℕ) (l : Ledger)
    (r : Grant × Ledger) : Type 0 where
  pub live : now < r.0.expires_at
  pub recorded : find_grant q.id r.1 ≡ some r.0
  pub before : (find_grant q.id l ≡ some r.0) ⊎ NewGrant w run q now l r.0

-- The earlier of a time and an optional one.
earlier_le : (t : ℕ) (o : Option ℕ) → earlier t o ≤ t
earlier_le t none = omega arith
earlier_le t (some u) = ground arith

earlier_within : (t : ℕ) (o : Option ℕ) → NotAfter o (earlier t o)
earlier_within t none = tt
earlier_within t (some u) = ground arith

earlier_live : (now : ℕ) (o : Option ℕ) → past now o ≡ false → now < earlier (now + 600000) o
earlier_live now none h = omega arith
earlier_live now (some u) h = ground (arith, h)

pub grant_expiry-live :
    (q : ActionRequest) (now : ℕ) (l : Ledger) (d : Decision)
    → q.decision ≡ d
    → Approved q now l
    → now < grant_expiry d q now l
unfolding grant_expiry
grant_expiry-live q now l allowed e h = omega arith
grant_expiry-live q now l denied e h = omega arith
grant_expiry-live q now l approval_required e (inl k) = absurd (cc)
grant_expiry-live q now l approval_required e (inr (k, a, row, done, fresh)) =
    rw row (earlier_live now a.expires_at fresh)

pub grant_expiry-soon :
    (q : ActionRequest) (now : ℕ) (l : Ledger) (d : Decision)
    → grant_expiry d q now l ≤ now + 600000
unfolding grant_expiry
grant_expiry-soon q now l allowed = omega arith
grant_expiry-soon q now l denied = omega arith
grant_expiry-soon q now l approval_required = limit (approval_row q.approval_id l)
  where
    limit : (o : Option ApprovalRow) → approval_expiry o (now + grant_ttl_ms) ≤ now + 600000
    limit none = omega arith
    limit (some a) = earlier_le (now + 600000) a.expires_at

pub grant_expiry-Within :
    (q : ActionRequest) (now : ℕ) (l : Ledger) (d : Decision)
    → Within d (approval_row q.approval_id l) (grant_expiry d q now l)
unfolding grant_expiry
grant_expiry-Within q now l allowed = tt
grant_expiry-Within q now l denied = tt
grant_expiry-Within q now l approval_required = limit (approval_row q.approval_id l)
  where
    limit :
        (o : Option ApprovalRow)
        → Within approval_required o (approval_expiry o (now + grant_ttl_ms))
    limit none = tt
    limit (some a) = earlier_within (now + 600000) a.expires_at
