-- ===== src/Models/Event.antt =====
-- Events (internal/models/event.go). A time is a number of nanoseconds, and an identifier a number.
use intelligent_workflows.Prelude.{ℕ, String, Option, List}
use intelligent_workflows.Value.{Fields}

pub record Event : Type 0 where
  pub id : ℕ
  pub organization_id : ℕ
  pub event_id : String
  pub event_type : String
  pub source : String
  pub payload : Fields
  pub triggered_workflows : List String
  pub received_at : ℕ
  pub processed_at : Option ℕ
