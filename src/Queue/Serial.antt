-- ===== src/Queue/Serial.antt =====
-- The guarantees of session/queue.py for every interleaving of calls, task ends and retries.
use module_agents_part.Prelude.{
  ℕ, ◌≤◌, ◌≡◌, refl, String, Bool, true, false, none, List, [], ◌∷◌, arith, length, bit, count, ap,
  subst, eq_refl, some, if_ind, ◌+◌,
}
use module_agents_part.Queue.State.{
  World, QueuedTask, init, session_of, running_count, cancelled_count, runs_for, max_retries,
}
use module_agents_part.Prelude.Dict.{get}
use module_agents_part.Queue.Events.{Event, step, run, extract, cancel_nth}
use module_agents_part.Queue.Invariant.{Inv, IsOwn, unseen-Inv}
use module_agents_part.Queue.Enqueueing.{enqueue-Inv, register-Inv, unregister-Inv, notify_idle-Inv}
use module_agents_part.Queue.Frame.{run-max, run-cancelled}
use module_agents_part.Queue.Finishing.{
  finish_nth-Inv, wake_nth-Inv, cancel_nth-Inv, Extracted, extract-Extracted,
}

step-Inv : (w : World) (e : Event) → Inv none w → Inv none (step w e)
unfolding step
step-Inv w (Event.enqueue_planner sid) h = enqueue-Inv _ w h
step-Inv w (Event.enqueue_executor sid) h = enqueue-Inv _ w h
step-Inv w (Event.enqueue_handoff sid direction) h = enqueue-Inv _ w h
step-Inv w (Event.enqueue_scheduled_task sid id fn) h = enqueue-Inv _ w h
step-Inv w (Event.register sid dir) h = register-Inv sid dir w h
step-Inv w (Event.unregister sid) h = unregister-Inv sid w h
step-Inv w (Event.idle sid) h = notify_idle-Inv sid w h
step-Inv w (Event.finish i o) h = finish_nth-Inv i o w h
step-Inv w (Event.wake i) h = wake_nth-Inv i w h
step-Inv w Event.set_process_fn h = unseen-Inv none w _ refl refl refl refl refl h
step-Inv w Event.shutdown h = unseen-Inv none w _ refl refl refl refl refl h
step-Inv w (Event.cancel i) h =
    if_ind (Inv none) w.shutting_down (λ _. cancel_nth-Inv i w h) (λ _. h)

run-Inv : (w : World) (es : List Event) → Inv none w → Inv none (run w es)
unfolding run
run-Inv w [] h = h
run-Inv w (e ∷ es) h = run-Inv (step w e) es (step-Inv w e h)

bit_le : (b : Bool) → bit b ≤ 1
bit_le true = omega arith
bit_le false = omega arith

init-Inv : (max_concurrent : ℕ) (set : Bool) → Inv none (init max_concurrent set)
unfolding get
init-Inv n b = record {
  counted = omega arith;
  capped = omega arith;
  serial = λ j. refl;
  own = λ j. tt;
  retries = λ j. omega arith;
}

-- From an empty queue, after any interleaving of calls, task ends, retries, shutdown and the cancellations
-- at the end of its grace period: no session has two coroutines. Those that run for a session and
-- those that were cancelled are together 1 where the session is marked active and 0 where it is not; so
-- before shutdown, when none is cancelled, a session is active exactly while its coroutine runs.
pub serialized :
    (max_concurrent : ℕ) (set : Bool) (es : List Event) (sid : String)
    → let w = run (init max_concurrent set) es in
      (running_count sid w ≤ 1)
      × (running_count sid w + cancelled_count sid w ≡ bit (session_of sid w).active)
      × (w.shutting_down ≡ false → running_count sid w ≡ bit (session_of sid w).active)
serialized n b es sid =
    let w = run (init n b) es in
    let h = (run-Inv (init n b) es (init-Inv n b)).serial sid in
    (
      omega (arith, h, bit_le (session_of sid w).active),
      omega (arith, h),
      λ up.
          let none_lost : cancelled_count sid w ≡ 0 =
            ap (count (runs_for sid)) (run-cancelled (init n b) es (λ _. refl) up) in
          omega (arith, h, none_lost),
    )

-- From an empty queue, after any such interleaving, the number of coroutines that run is at most the cap
-- that the queue was made with. The queue's own count of them is at most the cap too, and it is the
-- number of those that run and those that were cancelled: before shutdown, of those that run.
pub concurrency_capped :
    (max_concurrent : ℕ) (set : Bool) (es : List Event)
    → let w = run (init max_concurrent set) es in
      (length w.running + length w.cancelled ≡ w.active_count)
      × (w.active_count ≤ max_concurrent)
      × (length w.running ≤ max_concurrent)
      × (w.shutting_down ≡ false → length w.running ≡ w.active_count)
concurrency_capped n b es =
    let w = run (init n b) es in
    let h = run-Inv (init n b) es (init-Inv n b) in
    let cap = run-max n (init n b) es refl in
    (
      omega (arith, h.counted),
      omega (arith, h.capped, cap),
      omega (arith, h.counted, h.capped, cap),
      λ up. omega (arith, h.counted, ap length (run-cancelled (init n b) es (λ _. refl) up)),
    )

-- A coroutine that the end of the grace period cancels leaves its session stuck: from any state that
-- the events reach, the session is still active and the slot still counted, although nothing runs for it.
pub cancelled_stays_active :
    (max_concurrent : ℕ) (set : Bool) (es : List Event) (i : ℕ) (t : QueuedTask)
    (rest : List QueuedTask)
    → let w = run (init max_concurrent set) es in
      w.shutting_down ≡ true
      → extract i w.running ≡ some (t, rest)
      → let w' = step w (Event.cancel i) in
        ((session_of t.session_id w').active ≡ true)
        × (running_count t.session_id w' ≡ 0)
        × (w'.active_count ≡ w.active_count)
        × (length w'.running + 1 ≡ length w.running)
unfolding step cancel_nth
cancelled_stays_active n b es i t rest down found =
    let w = run (init n b) es in
    let h = run-Inv (init n b) es (init-Inv n b) in
    let taken : Extracted w.running (some (t, rest)) =
      subst (Extracted w.running) found (extract-Extracted i w.running) in
    let one = taken.1 (runs_for t.session_id) in
    let s = h.serial t.session_id in
    let most = bit_le (session_of t.session_id w).active in
    let self = eq_refl t.session_id in
    rw (down, step)
      (rw (found, cancel_nth)
        (
          ground (arith, one, s, self),
          ground (arith, one, s, most, self),
          refl,
          omega (arith, taken.0),
        ))

-- From an empty queue, after any interleaving: no session's retry counter passes MAX_RETRIES, and
-- every task on a session's pending list belongs to that session.
sessions_valid :
    (max_concurrent : ℕ) (set : Bool) (es : List Event) (sid : String)
    → let s = session_of sid (run (init max_concurrent set) es) in
      (s.retry_count ≤ max_retries) × IsOwn sid s.pending_tasks
sessions_valid n b es sid =
    let h = run-Inv (init n b) es (init-Inv n b) in (h.retries sid, h.own sid)
