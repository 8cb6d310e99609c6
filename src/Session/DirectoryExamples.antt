-- ===== src/Session/DirectoryExamples.antt =====
-- The theorems about the directory of sessions at concrete sessions.
use module_agents_part.Prelude.{◌≡◌, refl, String, false, Option, none, some, [], ◌∷◌}
use module_agents_part.Session.State.{SessionState, to_dict}
use module_agents_part.Session.Examples.{clock, fresh, unary, tally}
use module_agents_part.Session.Store.{Root, Entry, readable, corrupt, Session, parent_session}
use module_agents_part.Session.Resume.{Texts, Resumption}
use module_agents_part.Session.Ancestors.{
  IsLine, chain, find_ancestor_chain, find_ancestor_chain-IsLine,
}

abbrev with_parent : String → Option String → String → SessionState
with_parent id parent name = record fresh { session_id = id; state = name; resumed_from = parent }

abbrev entry : SessionState → Entry
entry s = record {
  session_json = some (readable (to_dict clock s));
  session_md = "# Session";
  trace_lines = "{}" ∷ [];
  ticket_names = [];
}

-- b resumes from a, c from b; d and e resume from each other; f is broken
abbrev root : Root
root =
    ("sess_a", entry (with_parent "sess_a" none "completed"))
    ∷ ("sess_b", entry (with_parent "sess_b" (some "sess_a") "failed"))
    ∷ ("sess_c", entry (with_parent "sess_c" (some "sess_b") "planning"))
    ∷ ("sess_d", entry (with_parent "sess_d" (some "sess_e") "planning"))
    ∷ ("sess_e", entry (with_parent "sess_e" (some "sess_d") "planning"))
    ∷ (
      "sess_f",
      record { session_json = some corrupt; session_md = ""; trace_lines = []; ticket_names = [] },
    )
    ∷ []

abbrev session : String → Option String → Session
session id parent = record { session_id = id; state = with_parent id parent "planning" }

ancestors :
    find_ancestor_chain clock root (session "sess_c" (some "sess_b"))
    ≡ chain ("sess_a" ∷ "sess_b" ∷ [])
unfolding find_ancestor_chain to_dict unary tally
ancestors = refl

-- a cycle ends the walk
cycle : find_ancestor_chain clock root (session "sess_d" (some "sess_e")) ≡ chain ("sess_e" ∷ [])
unfolding find_ancestor_chain to_dict unary tally
cycle = refl

find_ancestor_chain-IsLine_example :
    IsLine clock root
      ("sess_c" ∷ [])
      []
      (parent_session clock root (session "sess_c" (some "sess_b")))
      (find_ancestor_chain clock root (session "sess_c" (some "sess_b")))
find_ancestor_chain-IsLine_example =
    find_ancestor_chain-IsLine clock root (session "sess_c" (some "sess_b"))

abbrev texts : Texts
texts = record {
  dumps = λ j. "{}";
  str_nat = λ n. "n";
  rstrip_newline = λ s. s;
  sorted = λ names. names;
}

abbrev request : Resumption
request = record {
  parent_id = "sess_b";
  task = "go on";
  scenario = none;
  user_id = none;
  config_overrides = none;
  session_id = none;
  allow_unfinished_parent = false;
  trace_summary_lines = 80;
}
