-- ===== src/Execution/Replay.antt =====
-- apps/control-plane-api/src/execution/execution-service.ts: an event that the runtime sends again.
use employee_agent_platform.Prelude.{ℕ, ◌≡◌, some}
use employee_agent_platform.Execution.{Run}
use employee_agent_platform.Execution.Ingest.{
  Elsewhere, Envelope, Ingested, recorded, duplicate, recorded_hash,
}

-- The run holds the envelope's event, with the envelope's hash, whatever other runs hold.
abbrev Holds : Envelope → Run → Type 0
Holds v r = (w : Elsewhere) → recorded_hash w v.event_id r ≡ some (some v.payload_hash)

module _ (w : Elsewhere) (v : Envelope) (now : ℕ) (r : Run) where
  abbrev Kept : Ingested → Type 0
  Kept (recorded r') = Holds v r'
  Kept duplicate = Unit
