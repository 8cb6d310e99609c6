-- ===== src/Ipc/Examples.antt =====
-- The theorems about messages and the watcher at concrete files.
use module_agents_part.Prelude.{◌≡◌, refl, String, true, false, none, some, List, [], ◌∷◌, map}
use module_agents_part.Prelude.Json.{str, null}
use module_agents_part.Ipc.Consume.{
  Content, parsed, invalid_json, undecodable, File, consume, skipped,
}
use module_agents_part.Ipc.Delivery.{Accounts, consume-Accounts}
use module_agents_part.Ipc.Watcher.{
  handoff, SessionFiles, Handlers, process_handoffs, process_session, ends_with,
}
use module_agents_part.Ipc.Handoffs.{Protocol, process_handoffs-Protocol, undecodable_starves}

abbrev file : String → Content → File
file name content = record {
  name = name;
  is_file = true;
  is_tmp = false;
  modified_ms = some 500;
  content = content;
  movable = true;
  deletable = true;
}

abbrev message : File
message = file "500-00aa.json" (parsed (str "hello"))

abbrev garbled : File
garbled = file "500-00ab.json" undecodable

abbrev inbox : List File
inbox =
    message
    ∷ file "500-00ac.json" invalid_json
    ∷ record (file "900-00ad.json" (parsed null)) { modified_ms = some 950 }
    ∷ file "_close" invalid_json
    ∷ []

-- the message is delivered, the second file quarantined; the young one and the sentinel stay
names : List File → List String
names fs = map (λ (f : File). f.name) fs

consumed :
    let r = consume 1000 100 inbox in
    (names r.1.archived ≡ "500-00aa.json" ∷ [])
    × (names r.1.quarantined ≡ "500-00ac.json" ∷ [])
    × (names r.1.inbox ≡ "900-00ad.json" ∷ "_close" ∷ [])
unfolding consume names
consumed = (refl, refl, refl)

consume-Accounts_example : Accounts 1000 100 inbox (consume 1000 100 inbox)
consume-Accounts_example = consume-Accounts 1000 100 inbox

abbrev handlers : Handlers
handlers = record { on_output = true; on_handoff = true; on_complete = true }

abbrev files : SessionFiles
files = record {
  outputs = some (message ∷ garbled ∷ []);
  ipc = file "handoff_to_structured.json" (parsed (str "confirm")) ∷ [];
  completion = some (file "session_complete.json" (parsed null));
  audit = [];
  malformed = [];
  reasons = 0;
  logged_completion = none;
}

handed : (process_handoffs handlers "t" files).1 ≡ handoff "structured" (str "confirm") ∷ []
unfolding process_handoffs ends_with
handed = refl

process_handoffs-Protocol_example : Protocol "t" files (process_handoffs handlers "t" files)
process_handoffs-Protocol_example = process_handoffs-Protocol handlers "t" files

due : skipped 1000 100 garbled ≡ false
unfolding skipped
due = refl

undecodable_starves_example :
    let r = process_session handlers 1000 "t" files in
    (r.1 ≡ []) × (r.0.ipc ≡ files.ipc) × (r.0.completion ≡ files.completion)
undecodable_starves_example =
    undecodable_starves handlers 1000 "t" files (message ∷ []) [] garbled refl refl due refl
