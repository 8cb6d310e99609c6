-- ===== src/Session/Resume.antt =====
-- session/resume.py: resume_session and the context that it writes.
use Prim.Native.String.{◌++◌ as concat}
use module_agents_part.Prelude.{
  ℕ, zero, suc, ◌-◌, String, Bool, Option, none, some, List, [], ◌∷◌, ◌++◌, map, length, eqb, ◌==◌,
  ◌||◌, if◌then◌else◌,
}
use module_agents_part.Prelude.Dict.{get, put}
use module_agents_part.Prelude.Json.{Json, Fields, obj, field}
use module_agents_part.Session.State.{Iso, Time, SessionState, is_terminal}
use module_agents_part.Session.Store.{
  Root, Entry, Session, Loaded, loaded, load_session, Creation, Created, created, already_exists,
  create_session, or_text,
}

-- json.dumps with its indent, and str, of Python; `line.rstrip("\n")`; `sorted` of names
pub record Texts : Type 0 where
  pub dumps : Json → String
  pub str_nat : ℕ → String
  pub rstrip_newline : String → String
  pub sorted : List String → List String

-- xs[n:]
abbrev pub drop {ℓ} : {A : Type ℓ} → ℕ → List A → List A
drop zero xs = xs
drop (suc n) [] = []
drop (suc n) (x ∷ xs) = drop n xs

-- xs[-n:], which is all of xs for n = 0
unfoldable pub last_lines : ℕ → List String → List String
last_lines n xs = if eqb n 0 then xs else drop (length xs - n) xs

-- "\n".join(lines)
abbrev pub join_lines : List String → String
join_lines [] = ""
join_lines (l ∷ []) = l
join_lines (l ∷ m ∷ ls) = concat l (concat "\n" (join_lines (m ∷ ls)))

-- `if state.result`: a dict that is not empty
abbrev pub result_lines : Texts → Json → List String
result_lines texts (obj (field k v rest)) =
    "" ∷ "### Parent result" ∷ "" ∷ "```json" ∷ texts.dumps (obj (field k v rest)) ∷ "```" ∷ []
result_lines texts _ = []

-- the trace tail, if the trace has lines
abbrev pub trace_lines_of : Texts → ℕ → List String → List String
trace_lines_of texts n [] = []
trace_lines_of texts n (l ∷ ls) =
    let tail = last_lines n (l ∷ ls) in
    ""
    ∷ concat "### Parent trace tail (last " (
        concat (texts.str_nat (length tail))
          (concat " of " (concat (texts.str_nat (length (l ∷ ls))) " events)")))
    ∷ ""
    ∷ "```jsonl"
    ∷ (map texts.rstrip_newline tail ++ "```" ∷ [])

abbrev pub ticket_lines_of : Texts → List String → List String
ticket_lines_of texts [] = []
ticket_lines_of texts (t ∷ ts) =
    ""
    ∷ concat "### Parent tickets (" (concat (texts.str_nat (length (t ∷ ts))) ")")
    ∷ ""
    ∷ map (λ name. concat "- `" (concat name "`")) (texts.sorted (t ∷ ts))

abbrev pub closing_lines : List String
closing_lines =
    ""
    ∷ "> The above is read-only context from the parent. This session is a fresh execution with its own trace, tickets, and memory. The planner MAY use parent context to guide its plan but MUST NOT assume the parent's side effects are still valid."
    ∷ "" ∷ []

-- build_parent_context_summary
unfoldable pub build_parent_context_summary : Iso → Texts → ℕ → SessionState → Entry → String
unfolding last_lines
build_parent_context_summary iso texts n s e = join_lines (
    ("## Parent session context (auto-generated)"
      ∷ ""
      ∷ concat "This session resumes from `" (concat s.session_id "`.")
      ∷ concat "- Scenario: `" (concat s.scenario "`")
      ∷ concat "- Parent state: `" (concat s.state "`")
      ∷ concat "- Parent created: " (iso.isoformat s.created_at)
      ∷ concat "- Parent last updated: " (iso.isoformat s.updated_at)
      ∷ [])
    ++ (result_lines texts s.result
        ++ (trace_lines_of texts n e.trace_lines
            ++ (ticket_lines_of texts e.ticket_names ++ closing_lines))))

-- _prepend_to_session_md
unfoldable pub prepend_to_session_md : String → String → Root → Root
unfolding get put
prepend_to_session_md id block root = elim (get id root) [
  | none ↦ root
  | some e ↦ put id (record e { session_md = concat block (concat "\n---\n\n" e.session_md) }) root
]

-- the arguments of resume_session
pub record Resumption : Type 0 where
  pub parent_id : String
  pub task : String
  pub scenario : Option String
  pub user_id : Option String
  pub config_overrides : Option Fields
  pub session_id : Option String
  pub allow_unfinished_parent : Bool
  pub trace_summary_lines : ℕ

pub data Resumed : Type 0 where
  resumed : Session → Root → Resumed
  -- what load_session of the parent raised
  no_parent : Loaded → Resumed
  parent_unfinished : String → Resumed
  child_exists : String → Resumed

-- scenario or parent.state.scenario
abbrev pub or_parent : String → Option String → String
or_parent d none = d
or_parent d (some s) = or_text d s

-- user_id or parent.state.user_id
abbrev pub or_parent_user : Option String → Option String → Option String
or_parent_user d none = d
or_parent_user d (some u) = if u == "" then d else some u

abbrev pub child_of : Resumption → Session → Creation
child_of r parent = record {
  scenario = or_parent parent.state.scenario r.scenario;
  task = r.task;
  user_id = or_parent_user parent.state.user_id r.user_id;
  config_overrides = r.config_overrides;
  session_id = r.session_id;
  resumed_from = some r.parent_id;
}

-- the summary of the parent, whose entry is read after the child is there
abbrev pub summary_of : Iso → Texts → ℕ → Session → Option Entry → String
summary_of iso texts n parent none = ""
summary_of iso texts n parent (some e) = build_parent_context_summary iso texts n parent.state e

abbrev pub after_create : Iso → Texts → Resumption → Session → Created → Resumed
after_create iso texts r parent (already_exists id) = child_exists id
after_create iso texts r parent (created child root) = resumed child (
    prepend_to_session_md child.session_id
      (summary_of iso texts r.trace_summary_lines parent (get r.parent_id root)) root)

-- the rest of resume_session, once the parent is loaded
abbrev pub after_load : Iso → Texts → String → Time → Resumption → Root → Loaded → Resumed
after_load iso texts generated now r root (loaded parent) =
    if is_terminal parent.state || r.allow_unfinished_parent
    then after_create iso texts r parent (create_session iso generated now (child_of r parent) root)
    else parent_unfinished parent.state.state
after_load iso texts generated now r root failure = no_parent failure

unfoldable pub resume_session : Iso → Texts → String → Time → Resumption → Root → Resumed
unfolding get load_session create_session is_terminal prepend_to_session_md
    build_parent_context_summary
resume_session iso texts generated now r root =
    after_load iso texts generated now r root (load_session iso r.parent_id root)
