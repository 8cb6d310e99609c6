-- ===== src/Session/Transitions.antt =====
-- The transition table of session/state.py, and what a handle can do to a session's state.
use module_agents_part.Prelude.{
  ◌≡◌, refl, sym, ◌∙◌, subst, ◌≢◌, ◌⊎◌, inl, inr, String, Bool, true, false, Option, none, some,
  List, [], ◌∷◌, arith, eq_iff, if_ind,
}
use module_agents_part.Session.State.{
  Iso, Time, SessionState, Result, ok, raise, from_dict, elem, terminal_states,
  is_transition_allowed,
}
use module_agents_part.Session.RoundTrip.{from_dict-to_dict}
use module_agents_part.Session.Handle.{
  Change, Changes, Handle, Outcome, set_attribute, set_attributes, set_state, set_all, update_state,
  updates, is_refused, reload_state,
}

pub elem_head :
    (x y : String) (ys : List String) → elem x (y ∷ ys) ≡ true → (x ≡ y) ⊎ (elem x ys ≡ true)
elem_head x y ys h = ground (arith, eq_iff x y)

-- A terminal state has no way out, to no state whatever.
pub terminal_closed :
    (current proposed : String)
    → elem current terminal_states ≡ true
    → is_transition_allowed current proposed ≡ false
unfolding is_transition_allowed
terminal_closed current proposed h =
    elim (elem_head current "completed" ("failed" ∷ "escalated" ∷ []) h) [
      | inl e ↦ closed e refl
      | inr h1 ↦ elim (elem_head current "failed" ("escalated" ∷ []) h1) [
        | inl e ↦ closed e refl
        | inr h2 ↦ elim (elem_head current "escalated" [] h2) [
          | inl e ↦ closed e refl
          | inr h3 ↦ cc
        ]
      ]
    ]
  where
    closed :
        {name : String}
        → current ≡ name
        → is_transition_allowed name proposed ≡ false
        → is_transition_allowed current proposed ≡ false
    closed e h = subst (λ c. is_transition_allowed c proposed ≡ false) (sym e) h

-- No transition leads to `planning`.
pub planning_not_entered : (current : String) → is_transition_allowed current "planning" ≡ false
unfolding is_transition_allowed
planning_not_entered current = ground arith

-- the attributes that a call sets beside `state` leave the state alone
state-set_attributes :
    (cs : List Change) (s : SessionState) → (set_attributes cs s).0.state ≡ s.state
unfolding set_attributes
state-set_attributes [] s = refl
state-set_attributes (c ∷ cs) s = go (set_attribute c s) (kept c) (λ s'. state-set_attributes cs s')
  where
    Kept : Option SessionState → Type 0
    Kept none = Unit
    Kept (some s') = s'.state ≡ s.state

    kept : (c : Change) → Kept (set_attribute c s)
    kept (Change.session_id v) = refl
    kept (Change.unknown v) = tt
    kept _ = refl

    go :
        (o : Option SessionState)
        → Kept o
        → ((s' : SessionState) → (set_attributes cs s').0.state ≡ s'.state)
        → (let r : SessionState × Bool = elim o [
          | none ↦ (s, false)
          | some s' ↦ set_attributes cs s'
        ] in
            r.0.state ≡ s.state)
    go none k rec = refl
    go (some s') k rec = rec s' ∙ k

-- What a call can do to the state: nothing, or what the table allows and the call asks for.
abbrev Moved : String → Option String → String → Type 0
Moved from asked to = (to ≡ from) ⊎ ((asked ≡ some to) × (is_transition_allowed from to ≡ true))

set_all-Moved :
    (ch : Changes) (s : SessionState)
    → is_refused s.state ch.state ≡ false
    → Moved s.state ch.state (set_all ch s).0.state
unfolding set_all
set_all-Moved ch s allowed =
    let first = set_attributes ch.before s in
    if_ind (λ (r : SessionState × Bool). Moved s.state ch.state r.0.state) first.1
      (λ _.
        subst (Moved s.state ch.state)
          (sym (state-set_attributes ch.after (set_state ch.state first.0)))
          (moved ch.state first.0 allowed (state-set_attributes ch.before s)))
      (λ _. inl (state-set_attributes ch.before s))
  where
    moved :
        (asked : Option String) (s1 : SessionState)
        → is_refused s.state asked ≡ false
        → s1.state ≡ s.state
        → Moved s.state asked (set_state asked s1).state
    moved none s1 a e = inl e
    moved (some p) s1 a e = inr (refl, ground arith)

-- On every branch a call of `update_state` leaves the state as it is, or moves it to the state that
-- was asked for along a transition of the table.
pub update_state-Moved :
    (iso : Iso) (now : Time) (ch : Changes) (h : Handle)
    → let h' = (update_state iso now ch h).0 in
      (h'.state.state ≡ h.state.state)
      ⊎ ((ch.state ≡ some h'.state.state)
          × (is_transition_allowed h.state.state h'.state.state ≡ true))
unfolding update_state
update_state-Moved iso now ch h =
    if_ind Good (is_refused h.state.state ch.state) (λ _. inl refl)
      (λ allowed.
        if_ind Good (set_all ch h.state).1 (λ _. set_all-Moved ch h.state allowed)
          (λ _. set_all-Moved ch h.state allowed))
  where
    Good : Handle × Outcome → Type 0
    Good r = Moved h.state.state ch.state r.0.state.state

-- A call on one object: update_state, or reload_state.
pub data Call : Type 0 where
  update : Time → Changes → Call
  reload : Call

-- what a raising reload leaves is the object as it was
abbrev pub reloaded : Handle → Result Handle → Handle
reloaded h (ok h') = h'
reloaded h (raise e) = h

abbrev pub call : Iso → Call → Handle → Handle
call iso (update now ch) h = (update_state iso now ch h).0
call iso reload h = reloaded h (reload_state iso h)

-- the calls one after the other, by a caller that catches what they raise
abbrev pub call_all : Iso → List Call → Handle → Handle
call_all iso [] h = h
call_all iso (c ∷ cs) h = call_all iso cs (call iso c h)

-- The object is in a state, and its document reads back in the same one.
pub record IsIn (iso : Iso) (name : String) (h : Handle) : Type 0 where
  pub in_memory : h.state.state ≡ name
  pub on_disk : (s : SessionState) × (from_dict iso h.disk ≡ ok s) × (s.state ≡ name)

update-IsIn :
    (iso : Iso) (now : Time) (ch : Changes) (name : String) (h : Handle)
    → elem name terminal_states ≡ true
    → IsIn iso name h
    → IsIn iso name (update_state iso now ch h).0
unfolding update_state
update-IsIn iso now ch name h t here =
    if_ind Kept (is_refused h.state.state ch.state) (λ _. here)
      (λ allowed.
        let stay = stays (set_all-Moved ch h.state allowed) in
        if_ind Kept (set_all ch h.state).1
          (λ _. record { in_memory = stay; on_disk = (_, from_dict-to_dict iso _, stay) })
          (λ _. record { in_memory = stay; on_disk = here.on_disk }))
  where
    Kept : Handle × Outcome → Type 0
    Kept r = IsIn iso name r.0

    stays :
        Moved h.state.state ch.state (set_all ch h.state).0.state
        → (set_all ch h.state).0.state ≡ name
    stays (inl e) = e ∙ here.in_memory
    stays (inr (_, a)) = cc (
      a,
      terminal_closed h.state.state (set_all ch h.state).0.state
          (subst (λ x. elem x terminal_states ≡ true) (sym here.in_memory) t),
    )

call-IsIn :
    (iso : Iso) (c : Call) (name : String) (h : Handle)
    → elem name terminal_states ≡ true
    → IsIn iso name h
    → IsIn iso name (call iso c h)
unfolding reload_state
call-IsIn iso (update now ch) name h t here = update-IsIn iso now ch name h t here
call-IsIn iso reload name h t here =
    let (s, read, same) = here.on_disk in
    rw (read, reload_state) (record { in_memory = same; on_disk = (s, read, same) })

-- A session whose object and document are in one terminal state stays in it: whatever calls of
-- update_state and reload_state are made on the object, in whatever order, the object is in that state
-- after them, and so is what its document reads back as.
pub terminal_frozen :
    (iso : Iso) (calls : List Call) (name : String) (h : Handle)
    → elem name terminal_states ≡ true
    → IsIn iso name h
    → IsIn iso name (call_all iso calls h)
terminal_frozen iso [] name h t here = here
terminal_frozen iso (c ∷ cs) name h t here =
    terminal_frozen iso cs name (call iso c h) t (call-IsIn iso c name h t here)

-- A session that has left `planning` never returns to it, whatever calls are made.
planning_left :
    (iso : Iso) (calls : List (Time × Changes)) (h : Handle)
    → h.state.state ≢ "planning"
    → (updates iso calls h).state.state ≢ "planning"
unfolding updates
planning_left iso [] h n = n
planning_left iso ((now, ch) ∷ rest) h n =
    planning_left iso rest (update_state iso now ch h).0 (go (update_state-Moved iso now ch h))
  where
    go :
        Moved h.state.state ch.state (update_state iso now ch h).0.state.state
        → (update_state iso now ch h).0.state.state ≢ "planning"
    go (inl e) p = n (sym e ∙ p)
    go (inr (_, a)) p = cc (
      subst (λ x. is_transition_allowed h.state.state x ≡ true) p a,
      planning_not_entered h.state.state,
    )
