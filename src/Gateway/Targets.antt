-- ===== src/Gateway/Targets.antt =====
-- apps/control-plane-api/src/actions/action-gateway.ts, `assess`: what a request that passes would act on.
use employee_agent_platform.Prelude.{
  ℕ, ◌≡◌, refl, Bool, true, false, ◌&&◌, ◌||◌, not, Option, none, some, List, [], ◌∷◌, any, ==_iff,
  str_eq, sym, ap, ◌∙◌,
}
use employee_agent_platform.Prelude.Result.{
  ok, Post, Post-bind, Post-throw_if, Post-value, Post-error,
}
use employee_agent_platform.Gateway.{Ledger, RunRow, FilePath, ChangedFile, ChangeSet}
use employee_agent_platform.Gateway.Registry.{
  Handler, Parameters, connector_provider, required_capability, handler_in_scope,
  change_set_directory, control_plane_action, ExecutionAction, Operation, execution_action,
  allows_operation, operation_in_scope,
}
use employee_agent_platform.Gateway.Changes.{Changes, empty, too_large, files, change_set}
use employee_agent_platform.Gateway.Assess.{
  Authority, Target, target_of, or_deny, digest_differs, grants_capability, handler_target,
  execution_target, no_target, published, changes_of,
}
use employee_agent_platform.Gateway.World.{
  Denial, World, Question, Connection, ConnectorGrant, parameters_missing, parameters_invalid,
  input_digest_mismatch, no_connector, connector_capability_missing, operation_not_allowed,
}

-- A value that a request names is the right one, if the request names one.
abbrev pub Names : Option ℕ → ℕ → Type 0
Names none n = Unit
Names (some m) n = m ≡ n

pub Post-or_deny : {A : Type 0} (d : Denial) (o : Option A) → Post (λ a. o ≡ some a) (or_deny d o)
Post-or_deny d none = Post-error d
Post-or_deny d (some a) = Post-value a refl

pub not-false : (b : Bool) → not b ≡ false → b ≡ true
not-false true h = refl
not-false false h = absurd (cc)

digest_differs-Names :
    (w : World) (o : Option ℕ) (p : ℕ) → digest_differs w o p ≡ false → Names o (w.digest p)
digest_differs-Names w none p h = tt
digest_differs-Names w (some d) p h = sym ((==_iff (w.digest p) d).0 (not-false _ h))

-- A connector of the manifest has a provider and a capability.
abbrev pub has_connector : Handler → List ConnectorGrant → Bool
has_connector h l =
    any
      (λ (c : ConnectorGrant).
        str_eq c.id (connector_provider h)
        && any (λ x. str_eq x (required_capability h)) c.capabilities)
      l

grants_capability-any :
    (h : Handler) (l : List ConnectorGrant) → grants_capability h l ≡ has_connector h l
grants_capability-any h [] = refl
grants_capability-any h (c ∷ l) =
    ap
      (λ b.
        str_eq c.id (connector_provider h)
          && any (λ x. str_eq x (required_capability h)) c.capabilities
        || b)
      (grants_capability-any h l)

-- What is published is the change set of the directory, if the payload names one.
abbrev pub Publishes : World → RunRow → Option FilePath → Ledger → Option ChangeSet → Type 0
Publishes w run none l s = s ≡ none
Publishes w run (some directory) l s =
    (fs : List ChangedFile) × (change_set w.read_write run.state.thread_id directory l ≡ files fs)
    × (s ≡ some (record { digest = w.digest_files fs; files = fs }))

published-Publishes :
    (w : World) (run : RunRow) (o : Option FilePath) (l : Ledger)
    → Post (Publishes w run o l) (published w run o l)
unfolding published
published-Publishes w run none l = Post-value none refl
published-Publishes w run (some directory) l =
    limited (change_set w.read_write run.state.thread_id directory l) refl
  where
    limited :
        (c : Changes)
        → change_set w.read_write run.state.thread_id directory l ≡ c
        → Post (Publishes w run (some directory) l) (changes_of w c)
    limited empty e = Post-error _
    limited too_large e = Post-error _
    limited (files fs) e = Post-value _ (fs, e, refl)

-- An action of a connector: its payload parses, a connection is active, and the manifest grants the
-- capability. The resource is that of the payload, in the scope of the connection's settings.
pub record OfConnector (w : World) (run : RunRow) (q : Question) (a : Authority) (l : Ledger)
    (h : Handler) (t : Target) : Type 0 where
  pub payload : ℕ
  pub parsed : Parameters
  pub link : Connection
  pub given : q.parameters ≡ some payload
  pub valid : w.handler_parameters h payload ≡ some parsed
  pub same_digest : Names q.input_digest (w.digest payload)
  pub active : w.connection (connector_provider h) ≡ some link
  pub granted : has_connector h a.manifest.connectors ≡ true
  pub handler : t.handler ≡ some h
  pub parameters : t.parameters ≡ some payload
  pub connection : t.connection ≡ some link
  pub resource :
      t.resource
      ≡ some (record {
        type = (w.resource_of parsed).0;
        id = (w.resource_of parsed).1;
        in_scope = handler_in_scope parsed link.settings w.configuration;
      })
  pub changes : Publishes w run (change_set_directory parsed) l t.changes
  pub execution : t.execution ≡ none

handler_target-OfConnector :
    (w : World) (run : RunRow) (q : Question) (a : Authority) (h : Handler) (l : Ledger)
    → Post (OfConnector w run q a l h) (handler_target w run q a h l)
unfolding handler_target
handler_target-OfConnector w run q a h l =
    Post-bind _ _ (Post-or_deny parameters_missing q.parameters) (λ p given.
      Post-bind _ _ (Post-or_deny parameters_invalid (w.handler_parameters h p)) (λ v valid.
        Post-bind _ _ (Post-throw_if (digest_differs w q.input_digest p) input_digest_mismatch)
          (λ _ d.
            Post-bind _ _ (Post-or_deny no_connector (w.connection (connector_provider h)))
              (λ c active.
                Post-bind _ _
                  (Post-throw_if (not (grants_capability h a.manifest.connectors))
                    connector_capability_missing)
                  (λ _ g.
                    Post-bind _ _ (published-Publishes w run (change_set_directory v) l) (λ s e.
                      Post-value _ (record {
                        payload = p;
                        parsed = v;
                        link = c;
                        given = given;
                        valid = valid;
                        same_digest = digest_differs-Names w q.input_digest p d;
                        active = active;
                        granted =
                            sym (grants_capability-any h a.manifest.connectors) ∙ not-false _ g;
                        handler = refl;
                        parameters = refl;
                        connection = refl;
                        resource = refl;
                        changes = e;
                        execution = refl;
                      })))))))

-- An action of the execution environment: its payload is an operation that the action allows. The
-- resource is that of the operation, in the scope of the configuration.
pub record OfExecution (w : World) (q : Question) (a : Authority) (x : ExecutionAction) (t : Target)
    : Type 0 where
  pub payload : ℕ
  pub operation : Operation
  pub given : q.parameters ≡ some payload
  pub valid : w.operation payload ≡ some operation
  pub allowed : allows_operation x operation ≡ true
  pub same_digest : Names q.input_digest (w.digest payload)
  pub handler : t.handler ≡ none
  pub parameters : t.parameters ≡ some payload
  pub connection : t.connection ≡ none
  pub resource :
      t.resource
      ≡ some (record {
        type = (w.operation_resource operation).0;
        id = (w.operation_resource operation).1;
        in_scope = operation_in_scope x operation w.configuration;
      })
  pub changes : t.changes ≡ none
  pub execution :
      t.execution
      ≡ some (record { action = x; operation = operation; timeout_ms = a.tool.timeout_ms })

execution_target-OfExecution :
    (w : World) (q : Question) (a : Authority) (x : ExecutionAction)
    → Post (OfExecution w q a x) (execution_target w q a x)
unfolding execution_target
execution_target-OfExecution w q a x =
    Post-bind _ _ (Post-or_deny parameters_missing q.parameters) (λ p given.
      Post-bind _ _ (Post-or_deny parameters_invalid (w.operation p)) (λ o valid.
        Post-bind _ _ (Post-throw_if (not (allows_operation x o)) operation_not_allowed) (λ _ y.
          Post-bind _ _ (Post-throw_if (digest_differs w q.input_digest p) input_digest_mismatch)
            (λ _ d. Post-value _ (record {
              payload = p;
              operation = o;
              given = given;
              valid = valid;
              allowed = not-false _ y;
              same_digest = digest_differs-Names w q.input_digest p d;
              handler = refl;
              parameters = refl;
              connection = refl;
              resource = refl;
              changes = refl;
              execution = refl;
            })))))

-- What a request acts on, by its action: nothing, where the registries do not know it.
abbrev pub ActsOn :
    World
    → RunRow
    → Question
    → Authority
    → Ledger
    → Option Handler
    → Option ExecutionAction
    → Target
    → Type 0
ActsOn w run q a l (some h) x t = OfConnector w run q a l h t
ActsOn w run q a l none (some x) t = OfExecution w q a x t
ActsOn w run q a l none none t =
    (t.handler ≡ none)
    × (t.resource ≡ none)
    × (t.parameters ≡ none)
    × (t.connection ≡ none)
    × (t.changes ≡ none)
    × (t.execution ≡ none)

pub target_of-ActsOn :
    (w : World) (run : RunRow) (q : Question) (a : Authority) (l : Ledger)
    → Post
        (ActsOn w run q a l (control_plane_action q.action) (execution_action q.action))
        (target_of w run q a l)
unfolding target_of
target_of-ActsOn w run q a l = by_action (control_plane_action q.action) (execution_action q.action)
  where
    by_action :
        (o : Option Handler) (e : Option ExecutionAction)
        → Post (ActsOn w run q a l o e) (elim o [
          | some h ↦ handler_target w run q a h l
          | none ↦ elim e [ some x ↦ execution_target w q a x | none ↦ ok no_target ]
        ])
    by_action (some h) e = handler_target-OfConnector w run q a h l
    by_action none (some x) = execution_target-OfExecution w q a x
    by_action none none = Post-value no_target (refl, refl, refl, refl, refl, refl)
