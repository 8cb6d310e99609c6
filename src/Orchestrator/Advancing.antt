-- ===== src/Orchestrator/Advancing.antt =====
-- What advance_session_once reports.
use module_agents_part.Prelude.{◌≡◌, refl, String, false, not, Option, none, some, ◌==◌, ◌||◌, ◌&&◌}
use module_agents_part.Prelude.Json.{Fields}
use module_agents_part.Session.State.{Iso, SessionState, Result, ok, raise, is_terminal, from_dict}
use module_agents_part.Session.RoundTrip.{from_dict-to_dict}
use module_agents_part.Session.Handle.{Handle}
use module_agents_part.Session.Store.{
  Document, readable, corrupt, undecodable, not_object, Session, Loaded, loaded, bad_document,
  read_entry, read_document,
}
use module_agents_part.Errors.{Exception}
use module_agents_part.Orchestrator.Process.{
  Live, fields_of, WorkerOutcome, Advanced, outcome, failed_to_trace, failed_to_mark,
  failed_to_reload, worker_outcome,
}
use module_agents_part.Orchestrator.Settling.{state_of, Persisted}

-- the report o on a session that was s and whose document now reads t
pub record Tells (s t : SessionState) (o : WorkerOutcome) : Type 0 where
  pub terminal : o.terminal ≡ is_terminal t
  pub advanced : o.advanced ≡ (not (is_terminal s) && (not (t.state == s.state) || is_terminal t))

-- The account of a call on a session that was s: it reports on the document as it is then; only where the
-- loop half left the session executing can the document fail to load.
abbrev pub Truthful :
    Option Exception → Iso → {W : Type 0} → String → SessionState → Advanced W → Type 0
Truthful begin iso id s (outcome o (some l)) =
    (t : SessionState) × (from_dict iso l.handle.disk ≡ ok t) × Tells s t o
Truthful begin iso id s (outcome o none) = ⊥
Truthful begin iso id s (failed_to_trace x l) =
    (begin ≡ some x) × (is_terminal s ≡ false) × (from_dict iso l.handle.disk ≡ ok s)
Truthful begin iso id s (failed_to_mark o l) = ⊥
Truthful begin iso id s (failed_to_reload f l) =
    (state_of l ≡ "executing") × (read_entry iso id (some (readable l.handle.disk)) ≡ f)

abbrev pub Reports : Option Exception → Iso → {W : Type 0} → String → Loaded → Advanced W → Type 0
Reports begin iso id (loaded s) r = Truthful begin iso id s.state r
Reports begin iso id failure r = r ≡ outcome (worker_outcome false false) none

module _ (iso : Iso) where
  -- what a loaded session's document reads as
  read_document-from_dict :
      (id : String) (d : Fields) (s : Session)
      → read_document iso id (readable d) ≡ loaded s
      → from_dict iso d ≡ ok s.state
  unfolding read_document
  read_document-from_dict id d s = go (from_dict iso d)
    where
      go :
          (r : Result SessionState)
          → elim r [
            | ok t ↦ loaded (record { session_id = id; state = t })
            | raise e ↦ bad_document e
          ]
            ≡ loaded s
          → r ≡ ok s.state
      go (ok t) h = cc h
      go (raise e) h = cc h

  pub read_entry-from_dict :
      (id : String) (doc : Option Document) (s : Session)
      → read_entry iso id doc ≡ loaded s
      → from_dict iso (fields_of doc) ≡ ok s.state
  unfolding read_document
  read_entry-from_dict id none s h = cc h
  read_entry-from_dict id (some corrupt) s h = cc h
  read_entry-from_dict id (some undecodable) s h = cc h
  read_entry-from_dict id (some not_object) s h = cc h
  read_entry-from_dict id (some (readable d)) s h = read_document-from_dict id d s h

  pub document_reads :
      {W : Type 0} (id name : String) (l : Live W)
      → Persisted iso name l
      → read_entry iso id (some (readable l.handle.disk))
        ≡ loaded (record { session_id = id; state = l.handle.state })
  unfolding read_document
  document_reads id name l p =
      rw (p.1) (rw (from_dict-to_dict iso l.handle.state, read_document) refl)
