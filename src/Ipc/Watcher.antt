-- ===== src/Ipc/Watcher.antt =====
-- ipc/watcher.py: IpcWatcher. What the handlers do is outside this model: they are given what is
-- dispatched, and an exception of theirs is only logged.
use Prim.Native.String.{◌++◌ as concat}
use text.Mathlib.Text.{starts_with}
use module_agents_part.Prelude.{
  ℕ, ◌+◌, String, Bool, true, false, Option, none, some, List, [], ◌∷◌, ◌++◌, map, ◌==◌, ◌&&◌, not,
  if◌then◌else◌,
}
use module_agents_part.Prelude.Dict.{Dict, put}
use module_agents_part.Prelude.Json.{Json}
use module_agents_part.Ipc.Consume.{Content, parsed, File, Reading, read_and_consume}

-- p.name.endswith(t)
unfoldable pub ends_with : String → String → Bool
ends_with String.[] t = String.[] == t
ends_with (String.◌∷◌ c s) t =
    let rest = ends_with s t in if String.◌∷◌ c s == t then true else rest

-- s.removeprefix(p), of a text with that prefix
unfoldable pub remove_prefix : String → String → String
remove_prefix String.[] s = s
remove_prefix (String.◌∷◌ c p) String.[] = String.[]
remove_prefix (String.◌∷◌ c p) (String.◌∷◌ d s) = remove_prefix p s

-- the stem, of a name that ends in the suffix
unfoldable pub remove_suffix : String → String → String
remove_suffix t String.[] = String.[]
remove_suffix t (String.◌∷◌ c s) =
    let rest = remove_suffix t s in if String.◌∷◌ c s == t then String.[] else String.◌∷◌ c rest

abbrev pub handoff_file_prefix : String
handoff_file_prefix = "handoff_to_"

abbrev pub handoff_file_suffix : String
handoff_file_suffix = ".json"

-- the condition of the comprehension
unfoldable pub is_handoff : File → Bool
unfolding ends_with
is_handoff f =
    f.is_file
    && (starts_with f.name handoff_file_prefix
        && (ends_with f.name handoff_file_suffix && not (ends_with f.name ".tmp")))

unfoldable pub target_half : File → String
unfolding remove_prefix remove_suffix
target_half f = remove_prefix handoff_file_prefix (remove_suffix handoff_file_suffix f.name)

-- what a handler is called with
pub data Dispatch : Type 0 where
  output : Json → Dispatch
  handoff : String → Json → Dispatch
  complete : Json → Dispatch

-- One session's files that the watcher looks at: ipc/output, the other files of ipc/, and
-- ipc/session_complete.json; and where it puts them: the audit log by file name, the malformed
-- handoffs, the completion in logs/.
pub record SessionFiles : Type 0 where
  pub outputs : Option (List File)
  pub ipc : List File
  pub completion : Option File
  pub audit : Dict Json
  pub malformed : List File
  pub reasons : ℕ
  pub logged_completion : Option Json

pub record Handlers : Type 0 where
  pub on_output : Bool
  pub on_handoff : Bool
  pub on_complete : Bool

abbrev pub partition : List File → List File × List File
partition [] = ([], [])
partition (f ∷ fs) =
    let rest = partition fs in if is_handoff f then (f ∷ rest.0, rest.1) else (rest.0, f ∷ rest.1)

-- moves all handoffs into the malformed directory; those that cannot be moved stay
unfoldable pub quarantine_all : List File → SessionFiles → SessionFiles
quarantine_all [] s = s
quarantine_all (f ∷ fs) s =
    let rest = quarantine_all fs s in
    if f.movable
    then record rest { malformed = f ∷ rest.malformed }
    else record rest { ipc = f ∷ rest.ipc }

-- f"{iso}_{target_half}_handoff.json"
abbrev pub audit_name : String → String → String
audit_name iso target = concat iso (concat "_" (concat target "_handoff.json"))

abbrev pub when_set : Bool → Dispatch → List Dispatch
when_set true d = d ∷ []
when_set false d = []

-- the single handoff file, its content read; `others` are the files beside it
unfoldable pub consume_handoff :
    Handlers → String → File → List File → Content → SessionFiles → SessionFiles × List Dispatch
unfolding target_half
consume_handoff handlers iso f others (parsed payload) s =
    if f.movable
    then (
      record s { ipc = others; audit = put (audit_name iso (target_half f)) payload s.audit },
      when_set handlers.on_handoff (handoff (target_half f) payload),
    )
    else (s, [])
consume_handoff handlers iso f others _ s =
    if f.movable then (record s { ipc = others; malformed = f ∷ s.malformed }, []) else (s, [])

-- after the handoff files are listed
unfoldable pub process_listed :
    Handlers → String → List File → List File → SessionFiles → SessionFiles × List Dispatch
unfolding consume_handoff quarantine_all
process_listed handlers iso [] others s = (s, [])
process_listed handlers iso (f ∷ []) others s = consume_handoff handlers iso f others f.content s
process_listed handlers iso (f ∷ g ∷ fs) others s =
    let moved = quarantine_all (f ∷ g ∷ fs) (record s { ipc = others }) in
    (record moved { reasons = moved.reasons + 1 }, [])

-- _process_handoffs; `iso` is the time stamp, to the second
unfoldable pub process_handoffs : Handlers → String → SessionFiles → SessionFiles × List Dispatch
unfolding is_handoff process_listed
process_handoffs handlers iso s =
    process_listed handlers iso (partition s.ipc).0 (partition s.ipc).1 s

-- _process_complete, of a file with this content; the move may fail
unfoldable pub complete_content : File → Content → SessionFiles → SessionFiles × List Dispatch
complete_content f (parsed payload) s =
    if f.movable
    then (record s { completion = none; logged_completion = some payload }, complete payload ∷ [])
    else (s, complete payload ∷ [])
complete_content f _ s = (s, [])

unfoldable pub process_complete : Handlers → SessionFiles → SessionFiles × List Dispatch
unfolding complete_content
process_complete handlers s =
    if handlers.on_complete
    then elim s.completion [ none ↦ (s, []) | some f ↦ complete_content f f.content s ]
    else (s, [])

-- handoffs and completion, after the outputs
unfoldable pub process_rest : Handlers → String → SessionFiles → SessionFiles × List Dispatch
unfolding process_handoffs process_complete
process_rest handlers iso s =
    let h = process_handoffs handlers iso s in
    let c = process_complete handlers h.0 in (c.0, h.1 ++ c.1)

-- the outputs that were returned are handed on; where the call raised, _tick logs it and goes on with
-- the next session
unfoldable pub after_outputs :
    Handlers → String → SessionFiles → Reading → SessionFiles × List Dispatch
unfolding process_rest
after_outputs handlers iso s (none, c) = (record s { outputs = some c.inbox }, [])
after_outputs handlers iso s (some out, c) =
    let rest = process_rest handlers iso (record s { outputs = some c.inbox }) in
    (rest.0, map (λ (x : File × Json). output x.1) out ++ rest.1)

-- _process_session
unfoldable pub process_session : Handlers → ℕ → String → SessionFiles → SessionFiles × List Dispatch
unfolding read_and_consume after_outputs
process_session handlers now_ms iso s = elim s.outputs [
  | none ↦ process_rest handlers iso s
  | some inbox ↦
      if handlers.on_output
      then after_outputs handlers iso s (read_and_consume now_ms (some inbox))
      else process_rest handlers iso s
]

-- _tick: every session on its own
unfoldable pub tick :
    Handlers → ℕ → String → Dict SessionFiles → Dict SessionFiles × List (String × Dispatch)
unfolding process_session
tick handlers now_ms iso [] = ([], [])
tick handlers now_ms iso ((name, s) ∷ sessions) =
    let rest = tick handlers now_ms iso sessions in
    let one = process_session handlers now_ms iso s in
    if starts_with name "sess_"
    then ((name, one.0) ∷ rest.0, map (λ d. (name, d)) one.1 ++ rest.1)
    else ((name, s) ∷ rest.0, rest.1)
