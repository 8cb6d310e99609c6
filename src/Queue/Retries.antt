-- ===== src/Queue/Retries.antt =====
-- Retries: the backoff of a failing task, and what a failure leaves of its session.
use module_agents_part.Prelude.{
  ℕ, zero, suc, ◌+◌, ◌-◌, ◌*◌, ◌^◌, ◌<◌, ap, ◌≡◌, refl, ◌∙◌, String, false, Option, none, some,
  List, [], ◌∷◌, arith, length, ltb, if◌then◌else◌, if_ind, option_ind,
}
use module_agents_part.Prelude.Dict.{get, remove, get-put_self}
use module_agents_part.Queue.State.{
  QueuedTask, SessionState, World, session_of, set_session, max_retries,
}
use module_agents_part.Queue.Enqueue.{by_priority}
use module_agents_part.Queue.Finish.{
  pick, start_picked, start_waiting, maybe_start, deactivate, released, release_slot, next_or_idle,
  after_task, drop_slot, handle_failure,
}

delayed-start_waiting : (fuel : ℕ) (w : World) → (start_waiting fuel w).delayed ≡ w.delayed
unfolding start_waiting
delayed-start_waiting zero w = refl
delayed-start_waiting (suc fuel) w =
    if_ind (λ (v : World). v.delayed ≡ w.delayed) (ltb w.active_count w.max_concurrent)
      (λ _.
        go (pick w.sessions (by_priority w.waiting))
          (λ t rest. delayed-start_waiting fuel (start_picked t rest w)))
      (λ _. refl)
  where
    next : Option (QueuedTask × List QueuedTask) → World
    next o = elim o [
      | none ↦ record w { waiting = by_priority w.waiting }
      | some (t, rest) ↦ start_waiting fuel (start_picked t rest w)
    ]

    go :
        (o : Option (QueuedTask × List QueuedTask))
        → ((t : QueuedTask) (rest : List QueuedTask)
            → (start_waiting fuel (start_picked t rest w)).delayed ≡ w.delayed)
        → (next o).delayed ≡ w.delayed
    go none k = refl
    go (some (t, rest)) k = k t rest

delayed-next_or_idle :
    (sid : String) (s : SessionState) (ts : List QueuedTask) (w : World)
    → (next_or_idle sid s ts w).delayed ≡ w.delayed
unfolding next_or_idle
delayed-next_or_idle sid s [] w = delayed-start_waiting _ (drop_slot (deactivate (some s) sid w))
delayed-next_or_idle sid s (t ∷ ts) w = refl

delayed-after_task : (sid : String) (w : World) → (after_task sid w).delayed ≡ w.delayed
unfolding after_task
delayed-after_task sid w =
    option_ind (λ (v : World). v.delayed ≡ w.delayed) (get sid w.sessions) (λ _. refl)
      (λ s _. delayed-next_or_idle sid s (by_priority s.pending_tasks) _)

delayed-release_slot : (sid : String) (w : World) → (release_slot sid w).delayed ≡ w.delayed
unfolding release_slot
delayed-release_slot sid w = delayed-start_waiting _ (released sid w) ∙ go (get sid w.sessions)
  where
    go : (o : Option SessionState) → (deactivate o sid w).delayed ≡ w.delayed
    go none = refl
    go (some s) = refl

-- A failing task is retried after 5 seconds times two to the number of failures before it, for the
-- first MAX_RETRIES failures in a row of its session, and is given up at the next one.
backoff_schedule :
    (t : QueuedTask) (s : SessionState) (w : World)
    → (handle_failure t s w).delayed ≡ (
        if ltb s.retry_count max_retries
        then record { delay = 5 * 2 ^ s.retry_count; task = t } ∷ w.delayed
        else w.delayed)
unfolding handle_failure
backoff_schedule t s w = ground (
  arith,
  same,
  delayed-release_slot t.session_id
      (set_session t.session_id (record s { retry_count = s.retry_count + 1 }) w),
  delayed-after_task t.session_id (set_session t.session_id (record s { retry_count = 0 }) w),
)
  where
    same : s.retry_count + 1 - 1 ≡ s.retry_count
    same = omega arith

maybe_start_empty : (w : World) → w.waiting ≡ [] → maybe_start w ≡ w
unfolding maybe_start
maybe_start_empty w e = ap (λ (ts : List QueuedTask). start_waiting (length ts) w) e

-- what `_release_slot` does where no task waits
release_slot_empty :
    (sid : String) (w : World) (s : SessionState)
    → get sid w.sessions ≡ some s
    → w.waiting ≡ []
    → release_slot sid w
      ≡ drop_slot
          (record (deactivate (some s) sid w) { active_workers = remove sid w.active_workers })
unfolding release_slot
release_slot_empty sid w s e q =
    maybe_start_empty (released sid w) (waits (get sid w.sessions))
    ∙ ap
        (λ (o : Option SessionState).
          drop_slot (record (deactivate o sid w) { active_workers = remove sid w.active_workers }))
        e
  where
    waits : (o : Option SessionState) → (deactivate o sid w).waiting ≡ []
    waits none = q
    waits (some r) = q

abbrev counted : SessionState → SessionState
counted s = record s { retry_count = s.retry_count + 1 }

retry_parts :
    (t : QueuedTask) (s : SessionState) (w : World)
    → s.retry_count < max_retries
    → let v = release_slot t.session_id (set_session t.session_id (counted s) w) in
      ((handle_failure t s w).sessions ≡ v.sessions) × ((handle_failure t s w).running ≡ v.running)
unfolding handle_failure
retry_parts t s w few =
    let v = release_slot t.session_id (set_session t.session_id (counted s) w) in
    if_ind (λ (u : World). (u.sessions ≡ v.sessions) × (u.running ≡ v.running))
      (ltb max_retries (s.retry_count + 1)) (λ over. absurd (ground arith)) (λ _. (refl, refl))

-- Where no task waits for a slot, a failure that is retried leaves the session inactive with its
-- pending tasks, and starts none of them.
pub failure_leaves_pending :
    (t : QueuedTask) (s : SessionState) (w : World)
    → get t.session_id w.sessions ≡ some s
    → s.retry_count < max_retries
    → w.waiting ≡ []
    → let w' = handle_failure t s w in
      ((session_of t.session_id w').active ≡ false)
      × ((session_of t.session_id w').pending_tasks ≡ s.pending_tasks)
      × (w'.running ≡ w.running)
failure_leaves_pending t s w e few empty =
    let w1 = set_session t.session_id (counted s) w in
    let parts = retry_parts t s w few in
    let left =
      release_slot_empty t.session_id w1 (counted s)
        (get-put_self t.session_id (counted s) w.sessions) empty in
    let sessions = parts.0 ∙ ap (λ (v : World). v.sessions) left in
    (
      rw (sessions, get-put_self),
      rw (sessions, get-put_self),
      parts.1 ∙ ap (λ (v : World). v.running) left,
    )
