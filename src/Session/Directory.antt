-- ===== src/Session/Directory.antt =====
-- What create_session, resume_session and archive_session do to the directory of sessions.
use module_agents_part.Prelude.{
  ◌≡◌, ◌≢◌, refl, sym, ◌∙◌, String, true, false, none, some, is_some, eq_refl, ◌==◌, ◌||◌, if_ind,
  option_ind,
}
use module_agents_part.Prelude.Dict.{get, put, has, get-put, get-put_self, get-remove}
use module_agents_part.Session.State.{Iso, Time, ok, is_terminal, to_dict}
use module_agents_part.Session.Store.{
  Root, Entry, readable, Session, loaded, load_session, parent_session, Creation, Created, created,
  already_exists, initial_state, or_generated, Archived, moved, moved_inside, not_terminal, missing,
  archive_session,
}
use module_agents_part.Session.Ancestors.{load_session-found}
use module_agents_part.Session.Resume.{
  Resumption, Resumed, resumed, no_parent, parent_unfinished, child_exists,
}

-- two roots with the same entries but for the one at an id
abbrev pub SameElsewhere : String → Root → Root → Type 0
SameElsewhere id root root' = (j : String) → (id == j) ≡ false → get j root' ≡ get j root

put-SameElsewhere : (id : String) (e : Entry) (root : Root) → SameElsewhere id root (put id e root)
put-SameElsewhere id e root j other = get-put id j e root ∙ rw other

module _ (iso : Iso) where
  -- What a session's entry holds once it was written.
  abbrev Holds : Session → Root → Type 0
  Holds s root =
      (e : Entry) × (get s.session_id root ≡ some e)
      × (e.session_json ≡ some (readable (to_dict iso s.state)))

  -- What a creation leaves.
  pub record Fresh (now : Time) (c : Creation) (root : Root) (s : Session) (root' : Root)
      : Type 0 where
    pub was_free : get s.session_id root ≡ none
    pub starts : s.state ≡ initial_state s.session_id now c
    pub holds : Holds s root'
    pub elsewhere : SameElsewhere s.session_id root root'

  abbrev Creates : String → Time → Creation → Root → Created → Type 0
  Creates generated now c root (created s root') =
      (s.session_id ≡ or_generated generated c.session_id) × Fresh now c root s root'
  Creates generated now c root (already_exists id) =
      (id ≡ or_generated generated c.session_id) × (is_some (get id root) ≡ true)

  -- What resume_session promises of the child.
  pub record IsChild (generated : String) (r : Resumption) (root : Root) (parent child : Session)
      (root' : Root) : Type 0 where
    pub parent_loaded : load_session iso r.parent_id root ≡ loaded parent
    pub permitted : is_terminal parent.state || r.allow_unfinished_parent ≡ true
    pub child_named : child.session_id ≡ or_generated generated r.session_id
    pub child_new : get child.session_id root ≡ none
    pub child_starts : child.state.state ≡ "planning"
    pub child_loads : load_session iso child.session_id root' ≡ loaded child
    pub child_parent : parent_session iso root' child ≡ ok (some parent)
    pub elsewhere : SameElsewhere child.session_id root root'

  abbrev pub Resumes : String → Resumption → Root → Resumed → Type 0
  Resumes generated r root (resumed child root') =
      (parent : Session) × IsChild generated r root parent child root'
  Resumes generated r root (no_parent l) =
      (load_session iso r.parent_id root ≡ l) × ((s : Session) → l ≢ loaded s)
  Resumes generated r root (parent_unfinished name) =
      (parent : Session) × (load_session iso r.parent_id root ≡ loaded parent)
      × (is_terminal parent.state || r.allow_unfinished_parent ≡ false)
      × (name ≡ parent.state.state)
  Resumes generated r root (child_exists id) =
      (parent : Session) × (load_session iso r.parent_id root ≡ loaded parent)
      × (is_terminal parent.state || r.allow_unfinished_parent ≡ true)
      × (id ≡ or_generated generated r.session_id)
      × (is_some (get id root) ≡ true)

  loaded-id :
      (id : String) (root : Root) (s : Session)
      → load_session iso id root ≡ loaded s
      → s.session_id ≡ id
  loaded-id id root s h = (load_session-found iso root id s h).1

-- What archive_session promises.
abbrev pub Archives : Session → Root → Root → Archived → Type 0
Archives s root archive (moved root' archive') =
    (is_terminal s.state ≡ true)
    × (get s.session_id root' ≡ none)
    × (get s.session_id archive' ≡ get s.session_id root)
    × SameElsewhere s.session_id root root'
    × SameElsewhere s.session_id archive archive'
Archives s root archive (moved_inside root') =
    (is_terminal s.state ≡ true) × (is_some (get s.session_id archive) ≡ true)
Archives s root archive (not_terminal name) = (is_terminal s.state ≡ false) × (name ≡ s.state.state)
Archives s root archive missing = get s.session_id root ≡ none

-- archive_session moves an entry only if the object's state is terminal: then the entry is gone from the
-- sessions, the archive holds it as it was, and no other entry of either has changed; unless the archive
-- has the name already. An object that is not terminal is refused with its state.
archive_session-Archives :
    (s : Session) (root archive : Root) → Archives s root archive (archive_session s root archive)
unfolding archive_session
archive_session-Archives s root archive =
    let id = s.session_id in
    if_ind (Archives s root archive) (is_terminal s.state)
      (λ terminal.
        option_ind (Archives s root archive) (get id root) (λ gone. gone)
          (λ e found.
            if_ind (Archives s root archive) (has id archive) (λ there. (terminal, there))
              (λ _. (
                terminal,
                get-remove id id root ∙ rw (eq_refl id),
                get-put_self id e archive ∙ sym found,
                λ j other. get-remove id j root ∙ rw other,
                put-SameElsewhere id e archive,
              ))))
      (λ open_. (open_, refl))
