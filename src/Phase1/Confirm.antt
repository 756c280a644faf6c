-- ===== src/Phase1/Confirm.antt =====
-- When a plan made without a model asks before it acts.
use unison_orchestrator.Prelude.Json.{Json}
