-- ===== src/Queue/Enqueueing.antt =====
-- The enqueue methods keep the invariant.
use module_agents_part.Prelude.{
  ◌≡◌, refl, String, true, false, none, some, [], ◌∷◌, ◌++◌, arith, All-append, Option, if_ind,
  when_ind, option_ind, ◌&&◌, leb,
}
use module_agents_part.Prelude.Dict.{get}
use module_agents_part.Queue.Sort.{All-sort}
use module_agents_part.Queue.State.{
  QueuedTask, SessionState, World, session_of, set_session, activate,
}
use module_agents_part.Queue.Enqueue.{
  by_priority, append_pending, hold, start, enqueue, send_close, wants_preemption,
  register_container, unregister_container, notify_idle, any_pending,
}
use module_agents_part.Queue.Invariant.{Inv, IsOwn, set_session-Inv, activate-Inv, unseen-Inv}

module _ {ending : Option String} where
  pub send_close-Inv : (s : SessionState) (w : World) → Inv ending w → Inv ending (send_close s w)
  unfolding send_close
  send_close-Inv s w h =
      option_ind (Inv ending) s.ipc_input_dir (λ _. h)
        (λ dir _. unseen-Inv ending w _ refl refl refl refl refl h)

append_pending-Inv : (t : QueuedTask) (w : World) → Inv none w → Inv none (append_pending t w)
unfolding append_pending
append_pending-Inv t w h =
    let sid = t.session_id in
    let s = session_of sid w in
    let s' : SessionState = record s { pending_tasks = by_priority (s.pending_tasks ++ t ∷ []) } in
    let own : IsOwn sid s'.pending_tasks =
      All-sort _ (λ u. u.session_id ≡ sid) (s.pending_tasks ++ t ∷ [])
        (All-append (λ u. u.session_id ≡ sid) s.pending_tasks (t ∷ []) (h.own sid) (refl, tt)) in
    let kept = set_session-Inv w sid s' h refl own (h.retries sid) in
    when_ind (Inv none) (s'.idle_waiting && wants_preemption s'.pending_tasks) (send_close s') kept
      (λ _. send_close-Inv s' _ kept)

hold-Inv : (t : QueuedTask) (w : World) → Inv none w → Inv none (hold t w)
unfolding hold
hold-Inv t w h =
    let sid = t.session_id in
    let kept = set_session-Inv w sid (session_of sid w) h refl (h.own sid) (h.retries sid) in
    unseen-Inv none (set_session sid (session_of sid w) w) _ refl refl refl refl refl kept

pub start-Inv :
    (t : QueuedTask) (w : World)
    → Inv none w
    → (session_of t.session_id w).active ≡ false
    → leb w.max_concurrent w.active_count ≡ false
    → Inv none (start t w)
unfolding start
start-Inv t w h free room =
    activate-Inv w _ t (activate t (session_of t.session_id w)) h free (ground arith) refl refl refl
      refl refl refl refl refl

pub enqueue-Inv : (t : QueuedTask) (w : World) → Inv none w → Inv none (enqueue t w)
unfolding enqueue
enqueue-Inv t w h =
    if_ind (Inv none) w.shutting_down (λ down. h)
      (λ up.
        if_ind (Inv none) (session_of t.session_id w).active (λ busy. append_pending-Inv t w h)
          (λ free.
            if_ind (Inv none) (leb w.max_concurrent w.active_count) (λ full. hold-Inv t w h)
              (λ room. start-Inv t w h free room)))

pub register-Inv :
    (sid dir : String) (w : World) → Inv none w → Inv none (register_container sid dir w)
unfolding register_container
register-Inv sid dir w h = set_session-Inv w sid _ h refl (h.own sid) (h.retries sid)

-- Writing back the entry that a lookup found.
pub found-Inv :
    (ending : Option String) (w : World) (sid : String) (s s' : SessionState)
    → get sid w.sessions ≡ some s
    → s'.active ≡ s.active
    → s'.pending_tasks ≡ s.pending_tasks
    → s'.retry_count ≡ s.retry_count
    → Inv ending w
    → Inv ending (set_session sid s' w)
found-Inv ending w sid s s' e a p r h =
    let same : session_of sid w ≡ s = rw e in
    set_session-Inv w sid s' h (cc) (rw p (rw (← same) (h.own sid)))
      (rw r (rw (← same) (h.retries sid)))

pub unregister-Inv : (sid : String) (w : World) → Inv none w → Inv none (unregister_container sid w)
unfolding unregister_container
unregister-Inv sid w h =
    option_ind (Inv none) (get sid w.sessions) (λ _. h)
      (λ s e. found-Inv none w sid s _ e refl refl refl h)

pub notify_idle-Inv : (sid : String) (w : World) → Inv none w → Inv none (notify_idle sid w)
unfolding notify_idle
notify_idle-Inv sid w h =
    option_ind (Inv none) (get sid w.sessions) (λ _. h)
      (λ s e.
        let kept = found-Inv none w sid s (record s { idle_waiting = true }) e refl refl refl h in
        when_ind (Inv none) (any_pending s.pending_tasks)
          (send_close (record s { idle_waiting = true })) kept
          (λ _. send_close-Inv (record s { idle_waiting = true }) _ kept))
