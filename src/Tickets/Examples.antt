-- ===== src/Tickets/Examples.antt =====
-- The theorems about tickets at concrete inputs.
use module_agents_part.Prelude.{◌≡◌, refl, String, List, [], ◌∷◌}
use module_agents_part.Prelude.Dict.{get}
use module_agents_part.Prelude.Json.{null}
use module_agents_part.Tickets.State.{success}
use module_agents_part.Tickets.Manifest.{Manifest, Files, verify}
use module_agents_part.Tickets.Ticket.{
  Ticket, missing_summary, manifest_invalid, Call, create, succeed, calls, is_blank,
}
use module_agents_part.Tickets.Lifecycle.{calls-terminal, IsValid, calls-IsValid}
use module_agents_part.Tickets.Verified.{Evidence, success_verified}

-- a stand-in for SHA-256: the content itself
abbrev digest : String → String
digest s = s

abbrev output : Manifest
output = record {
  ticket_id = "tk_00000001";
  operation = "planner.plan";
  started_at = 5;
  completed_at = 9;
  duration_ms = 4;
  outputs =
      record { path = "raw.json"; sha256 = "[]"; size_bytes = 2; content_type = "application/json" }
      ∷ [];
  metrics = null;
}

abbrev intact : Files
intact = ("raw.json", "[]") ∷ []

abbrev tampered : Files
tampered = ("raw.json", "[1]") ∷ []

abbrev history : List Call
history =
    Call.start_at 5
    ∷ Call.succeed_with tampered 8 output "planned"
    ∷ Call.succeed_with intact 9 output " "
    ∷ Call.succeed_with intact 9 output "planned"
    ∷ Call.fail_with 10 "SA_SYS_UNEXPECTED" "late"
    ∷ []

ends_in_success : (calls digest history (create "tk_00000001" "planner.plan")).state ≡ success
unfolding calls create verify get is_blank
ends_in_success = refl

rejections :
    let t = calls digest (Call.start_at 5 ∷ []) (create "tk_00000001" "planner.plan") in
    ((succeed digest tampered 8 output "planned" t).1 ≡ manifest_invalid)
    × ((succeed digest intact 8 output " " t).1 ≡ missing_summary)
unfolding calls create verify get is_blank
rejections = (refl, refl)

success_verified_example :
    Evidence digest history (calls digest history (create "tk_00000001" "planner.plan"))
success_verified_example =
    success_verified digest "tk_00000001" "planner.plan" history ends_in_success

calls-IsValid_example : IsValid (calls digest history (create "tk_00000001" "planner.plan"))
calls-IsValid_example = calls-IsValid digest "tk_00000001" "planner.plan" history

abbrev finished : Ticket
finished = calls digest history (create "tk_00000001" "planner.plan")

calls-terminal_example : calls digest (Call.start_at 11 ∷ []) finished ≡ finished
unfolding calls create verify get is_blank
calls-terminal_example = calls-terminal digest (Call.start_at 11 ∷ []) finished refl
