-- ===== src/Session/Persistence.antt =====
-- What a call of `update_state` leaves on disk.
use module_agents_part.Prelude.{◌≡◌, ◌≢◌, refl, [], String, true, false, Option, none, some, if_ind}
use module_agents_part.Prelude.Json.{Json}
use module_agents_part.Session.State.{
  Iso, Time, SessionState, ok, is_transition_allowed, to_dict, from_dict, is_terminal,
}
use module_agents_part.Session.RoundTrip.{from_dict-to_dict}
use module_agents_part.Session.Transitions.{terminal_closed}
use module_agents_part.Session.Handle.{
  Changes, Handle, Outcome, done, invalid_transition, set_attribute, set_attributes, set_all,
  update_state, is_refused, refusal, reload_state, mark_complete,
}

written-reload :
    (iso : Iso) (s : SessionState)
    → reload_state iso (record { state = s; disk = to_dict iso s })
      ≡ ok (record { state = s; disk = to_dict iso s })
unfolding reload_state
written-reload iso s = rw (from_dict-to_dict iso s, reload_state)

-- After a call that returns, the session's file reads back to exactly the object's state, with the time
-- of the call; after a call that raises, the file is as it was.
pub update_state_persists :
    (iso : Iso) (now : Time) (ch : Changes) (h : Handle)
    → let (h', outcome) = update_state iso now ch h in
      (outcome ≡ done → (reload_state iso h' ≡ ok h') × (h'.state.updated_at ≡ now))
      × (outcome ≢ done → h'.disk ≡ h.disk)
unfolding update_state
update_state_persists iso now ch h =
    if_ind Good (is_refused h.state.state ch.state) (refused ch.state) (λ _.
      if_ind Good (set_all ch h.state).1
        (λ _. ((λ _. (written-reload iso _, refl)), (λ n. absurd (n refl))))
        (λ _. ((λ e. cc), (λ _. refl))))
  where
    Good : Handle × Outcome → Type 0
    Good r =
        (r.1 ≡ done → (reload_state iso r.0 ≡ ok r.0) × (r.0.state.updated_at ≡ now))
        × (r.1 ≢ done → r.0.disk ≡ h.disk)

    refused :
        (asked : Option String)
        → is_refused h.state.state asked ≡ true
        → Good (h, refusal h.state.state asked)
    refused none e = cc
    refused (some p) e = ((λ e'. cc), (λ _. refl))

-- `mark_complete` succeeds exactly where the table allows the move to `completed`, and then the state
-- is `completed` with the given result; where it does not, the call raises with both states and
-- changes nothing.
mark_complete_lem :
    (iso : Iso) (now : Time) (v : Json) (h : Handle)
    → let (h', outcome) = mark_complete iso now v h in
      (is_transition_allowed h.state.state "completed" ≡ true
        → (outcome ≡ done) × (h'.state.state ≡ "completed") × (h'.state.result ≡ v))
      × (is_transition_allowed h.state.state "completed" ≡ false
          → (outcome ≡ invalid_transition h.state.state "completed") × (h' ≡ h))
unfolding mark_complete
mark_complete_lem iso now v h = (
  (λ allowed.
      rw (allowed, update_state)
        (unfold set_all set_attributes set_attribute in (refl, refl, refl))),
  (λ refused. rw (refused, update_state) (refl, refl)),
)

-- a call that only asks for an allowed state succeeds
update_done :
    (iso : Iso) (now : Time) (proposed : String) (h : Handle)
    → is_transition_allowed h.state.state proposed ≡ true
    → let (h', outcome) =
        update_state iso now (record { before = []; state = some proposed; after = [] }) h in
      (outcome ≡ done) × (h'.state.state ≡ proposed)
unfolding update_state
update_done iso now proposed h allowed =
    rw (allowed, update_state) (unfold set_all set_attributes in (refl, refl))

-- The guard of update_state looks at the object, not at the file, so an object that is older than its
-- file undoes what the file says: where the file reads as a terminal state, which the table lets go
-- nowhere, a call that the table allows from the object's own state returns, and the file then reads back
-- with the asked state.
pub stale_object_overwrites :
    (iso : Iso) (now : Time) (proposed : String) (h : Handle) (s : SessionState)
    → from_dict iso h.disk ≡ ok s
    → is_terminal s ≡ true
    → is_transition_allowed h.state.state proposed ≡ true
    → let (h', outcome) =
        update_state iso now (record { before = []; state = some proposed; after = [] }) h in
      (outcome ≡ done)
      × (is_transition_allowed s.state proposed ≡ false)
      × (reload_state iso h' ≡ ok h')
      × (h'.state.state ≡ proposed)
unfolding is_terminal
stale_object_overwrites iso now proposed h s read terminal allowed =
    let wrote = update_done iso now proposed h allowed in
    let kept =
      update_state_persists iso now (record { before = []; state = some proposed; after = [] }) h in
    (wrote.0, terminal_closed s.state proposed terminal, (kept.0 wrote.0).0, wrote.1)
