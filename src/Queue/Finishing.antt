-- ===== src/Queue/Finishing.antt =====
-- The end of a task keeps the invariant: the slot that it owes goes to the session's next task, or
-- back to the queue and on to waiting tasks.
use module_agents_part.Prelude.{
  ℕ, zero, suc, ◌+◌, ◌-◌, ◌≤◌, ◌≡◌, refl, ap, String, true, false, none, some, List, [], ◌∷◌, arith,
  All, Option, if◌then◌else◌, if_ind, option_ind, ltb, Bool, eq_iff, eq_refl, count, bit, length,
}
use module_agents_part.Prelude.Dict.{Dict, get, put, remove}
use module_agents_part.Queue.Sort.{All-sort}
use module_agents_part.Queue.State.{
  QueuedTask, SessionState, Retry, World, session_of, set_session, activate, max_retries, runs_for,
}
use module_agents_part.Queue.Enqueue.{by_priority}
use module_agents_part.Queue.Finish.{
  is_free, pick, start_picked, start_waiting, maybe_start, deactivate, drop_slot, release_slot,
  next_or_idle, after_task, handle_failure, succeeded, Outcome, run_task, delayed_retry, retried,
}
use module_agents_part.Queue.Events.{extract, finish_nth, wake_nth, cancel_nth}
use module_agents_part.Queue.Invariant.{
  Inv, IsOwn, set_session-Inv, activate-Inv, unseen-Inv, session-put,
}
use module_agents_part.Queue.Enqueueing.{enqueue-Inv}

-- What `pick` finds: a task whose session is not active, and every other waiting task; and it finds
-- nothing only where every waiting task's session is active.
abbrev pub Picked :
    Dict SessionState → List QueuedTask → Option (QueuedTask × List QueuedTask) → Type 0
Picked sessions ts none = All (λ t. is_free sessions t ≡ false) ts
Picked sessions ts (some (t, rest)) =
    (is_free sessions t ≡ true)
    × (length ts ≡ suc (length rest))
    × ((p : QueuedTask → Bool) → count p ts ≡ bit (p t) + count p rest)

pub pick-Picked :
    (sessions : Dict SessionState) (ts : List QueuedTask) → Picked sessions ts (pick sessions ts)
unfolding pick
pick-Picked sessions [] = tt
pick-Picked sessions (t ∷ ts) =
    let ih = pick-Picked sessions ts in
    if_ind (Picked sessions (t ∷ ts)) (is_free sessions t) (λ free. (free, refl, λ p. refl))
      (λ busy. skip (pick sessions ts) busy ih)
  where
    skip :
        (o : Option (QueuedTask × List QueuedTask))
        → is_free sessions t ≡ false
        → Picked sessions ts o
        → Picked sessions (t ∷ ts) (elim o [ none ↦ none | some (u, us) ↦ some (u, t ∷ us) ])
    skip none busy h = (busy, h)
    skip (some (u, us)) busy h = (h.0, ap suc h.1, λ p. omega (arith, h.2 p))

start_picked-Inv :
    (t : QueuedTask) (rest : List QueuedTask) (w : World)
    → Inv none w
    → is_free w.sessions t ≡ true
    → ltb w.active_count w.max_concurrent ≡ true
    → Inv none (start_picked t rest w)
unfolding start_picked
start_picked-Inv t rest w h free room =
    activate-Inv w _ t (activate t (session_of t.session_id w)) h (ground arith) (ground arith) refl
      refl refl refl refl refl refl refl

start_waiting-Inv : (fuel : ℕ) (w : World) → Inv none w → Inv none (start_waiting fuel w)
unfolding start_waiting
start_waiting-Inv zero w h = h
start_waiting-Inv (suc fuel) w h =
    if_ind (Inv none) (ltb w.active_count w.max_concurrent)
      (λ room.
        go room (pick w.sessions (by_priority w.waiting))
          (pick-Picked w.sessions (by_priority w.waiting))
          (λ t rest. start_waiting-Inv fuel (start_picked t rest w)))
      (λ full. h)
  where
    go :
        ltb w.active_count w.max_concurrent ≡ true
        → (o : Option (QueuedTask × List QueuedTask)) → Picked w.sessions (by_priority w.waiting) o
        → ((t : QueuedTask) (rest : List QueuedTask)
            → Inv none (start_picked t rest w)
            → Inv none (start_waiting fuel (start_picked t rest w)))
        → Inv none (elim o [
          | none ↦ record w { waiting = by_priority w.waiting }
          | some (t, rest) ↦ start_waiting fuel (start_picked t rest w)
        ])
    go room none p rec = unseen-Inv none w _ refl refl refl refl refl h
    go room (some (t, rest)) p rec = rec t rest (start_picked-Inv t rest w h p.0 room)

pub maybe_start-Inv : (w : World) → Inv none w → Inv none (maybe_start w)
unfolding maybe_start
maybe_start-Inv w h = start_waiting-Inv (length w.waiting) w h

module _ (w : World) (sid : String) (h : Inv (some sid) w) where
  -- the session that owes a slot gives it back
  give_back-Inv :
      (s : SessionState) (workers : Dict QueuedTask)
      → s.active ≡ false
      → IsOwn sid s.pending_tasks
      → s.retry_count ≡ (session_of sid w).retry_count
      → Inv none (record w {
        sessions = put sid s w.sessions;
        active_workers = workers;
        active_count = w.active_count - 1;
      })
  give_back-Inv s workers idle own few = record {
    counted = omega (arith, h.counted);
    capped = omega (arith, h.capped);
    serial = λ j. ground (arith, session-put sid j s w.sessions, eq_iff sid j, h.serial j, idle);
    own = λ j. ground (arith, session-put sid j s w.sessions, eq_iff sid j, h.own j, own);
    retries = λ j.
        ground (arith, session-put sid j s w.sessions, eq_iff sid j, h.retries j, h.retries sid);
  }

  -- the session that owes a slot gives it to another of its tasks
  pass_on-Inv :
      (s : SessionState) (workers : Dict QueuedTask) (t : QueuedTask)
      → s.active ≡ (session_of sid w).active
      → t.session_id ≡ sid
      → IsOwn sid s.pending_tasks
      → s.retry_count ≡ (session_of sid w).retry_count
      → Inv none (record w {
        sessions = put sid s w.sessions;
        active_workers = workers;
        running = t ∷ w.running;
      })
  pass_on-Inv s workers t same mine own few = record {
    counted = omega (arith, h.counted);
    capped = h.capped;
    serial = λ j. ground (
      arith,
      session-put sid j s w.sessions,
      eq_iff sid j,
      eq_iff t.session_id j,
      h.serial j,
      same,
      mine,
    );
    own = λ j. ground (arith, session-put sid j s w.sessions, eq_iff sid j, h.own j, own);
    retries = λ j.
        ground (arith, session-put sid j s w.sessions, eq_iff sid j, h.retries j, h.retries sid);
  }

-- a session that owes a slot is in the table, and active
pub owed_active : (w : World) (sid : String) → Inv (some sid) w → (session_of sid w).active ≡ true
owed_active w sid h = ground (arith, h.serial sid, eq_refl sid)

pub release_slot-Inv : (sid : String) (w : World) → Inv (some sid) w → Inv none (release_slot sid w)
unfolding release_slot
release_slot-Inv sid w h = maybe_start-Inv _ (go (get sid w.sessions) refl)
  where
    go :
        (o : Option SessionState)
        → get sid w.sessions ≡ o
        → Inv none (
            drop_slot
              (record (deactivate o sid w) { active_workers = remove sid w.active_workers }))
    go none e = cc (e, owed_active w sid h)
    go (some s) e =
        let same : session_of sid w ≡ s = rw e in
        give_back-Inv w sid h _ (remove sid w.active_workers) refl (rw (← same) (h.own sid))
          (rw same)

next_or_idle-Inv :
    (sid : String) (w : World) (s : SessionState) (ts : List QueuedTask) (workers : Dict QueuedTask)
    → Inv (some sid) w
    → get sid w.sessions ≡ some s
    → IsOwn sid ts
    → Inv none (next_or_idle sid s ts (record w { active_workers = workers }))
unfolding next_or_idle
next_or_idle-Inv sid w s [] workers h e own =
    let same : session_of sid w ≡ s = rw e in
    maybe_start-Inv _ (give_back-Inv w sid h _ workers refl (rw (← same) (h.own sid)) (rw same))
next_or_idle-Inv sid w s (t ∷ rest) workers h e own =
    let same : session_of sid w ≡ s = rw e in
    pass_on-Inv w sid h _ _ t (rw same) own.0 own.1 (rw same)

pub after_task-Inv : (sid : String) (w : World) → Inv (some sid) w → Inv none (after_task sid w)
unfolding after_task
after_task-Inv sid w h = go (get sid w.sessions) refl
  where
    go :
        (o : Option SessionState)
        → get sid w.sessions ≡ o
        → Inv none (elim o [
          | none ↦ w
          | some s ↦
              next_or_idle sid s
                (by_priority s.pending_tasks)
                (record w { active_workers = remove sid w.active_workers })
        ])
    go none e = cc (e, owed_active w sid h)
    go (some s) e =
        let same : session_of sid w ≡ s = rw e in
        next_or_idle-Inv sid w s (by_priority s.pending_tasks) _ h e
          (All-sort _ (λ t. t.session_id ≡ sid) s.pending_tasks (rw (← same) (h.own sid)))

-- A counter is written before the slot is given back.
counter-Inv :
    (w : World) (sid : String) (s : SessionState) (n : ℕ)
    → Inv (some sid) w
    → get sid w.sessions ≡ some s
    → n ≤ max_retries
    → Inv (some sid) (set_session sid (record s { retry_count = n }) w)
counter-Inv w sid s n h e few =
    let same : session_of sid w ≡ s = rw e in
    set_session-Inv w sid _ h (rw same) (rw (← same) (h.own sid)) few

pub handle_failure-Inv :
    (t : QueuedTask) (s : SessionState) (w : World)
    → Inv (some t.session_id) w
    → get t.session_id w.sessions ≡ some s
    → Inv none (handle_failure t s w)
unfolding handle_failure
handle_failure-Inv t s w h e =
    if_ind (Inv none) (ltb max_retries (s.retry_count + 1))
      (λ over. after_task-Inv t.session_id _ (counter-Inv w t.session_id s 0 h e (omega arith)))
      (λ more. unseen-Inv none _ _ refl refl refl refl refl (
        release_slot-Inv t.session_id _
          (counter-Inv w t.session_id s (s.retry_count + 1) h e (ground arith))))

pub run_task-Inv :
    (t : QueuedTask) (o : Outcome) (w : World)
    → Inv (some t.session_id) w
    → Inv none (run_task t o w)
unfolding run_task
run_task-Inv t o w h = go (get t.session_id w.sessions) refl
  where
    go :
        (found : Option SessionState)
        → get t.session_id w.sessions ≡ found
        → Inv none (elim found [
          | none ↦ w
          | some s ↦
              if succeeded w t o
              then after_task t.session_id
                  (set_session t.session_id (record s { retry_count = 0 }) w)
              else handle_failure t s w
        ])
    go none e = cc (e, owed_active w t.session_id h)
    go (some s) e =
        if_ind (Inv none) (succeeded w t o)
          (λ _. after_task-Inv t.session_id _ (counter-Inv w t.session_id s 0 h e (omega arith)))
          (λ _. handle_failure-Inv t s w h e)

-- what `extract` takes out
abbrev pub Extracted : List QueuedTask → Option (QueuedTask × List QueuedTask) → Type 0
Extracted xs none = Unit
Extracted xs (some (x, rest)) =
    (length xs ≡ suc (length rest))
    × ((p : QueuedTask → Bool) → count p xs ≡ bit (p x) + count p rest)

pub extract-Extracted : (i : ℕ) (xs : List QueuedTask) → Extracted xs (extract i xs)
extract-Extracted i [] = tt
extract-Extracted zero (x ∷ xs) = (refl, λ p. refl)
extract-Extracted (suc i) (x ∷ xs) = skip (extract i xs) (extract-Extracted i xs)
  where
    skip :
        (o : Option (QueuedTask × List QueuedTask))
        → Extracted xs o
        → Extracted (x ∷ xs) (elim o [ none ↦ none | some (y, ys) ↦ some (y, x ∷ ys) ])
    skip none h = tt
    skip (some (y, ys)) h = (ap suc h.0, λ p. omega (arith, h.1 p))

pub finish_nth-Inv : (i : ℕ) (o : Outcome) (w : World) → Inv none w → Inv none (finish_nth i o w)
unfolding finish_nth
finish_nth-Inv i o w h = go (extract i w.running) (extract-Extracted i w.running)
  where
    go :
        (found : Option (QueuedTask × List QueuedTask))
        → Extracted w.running found
        → Inv none
            (elim found [ none ↦ w | some (t, rest) ↦ run_task t o (record w { running = rest }) ])
    go none p = h
    go (some (t, rest)) p = run_task-Inv t o _ (record {
      counted = omega (arith, p.0, h.counted);
      capped = h.capped;
      serial = λ j. omega (arith, p.1 (runs_for j), h.serial j);
      own = h.own;
      retries = h.retries;
    })

pub delayed_retry-Inv : (t : QueuedTask) (w : World) → Inv none w → Inv none (delayed_retry t w)
unfolding delayed_retry
delayed_retry-Inv t w h =
    if_ind (Inv none) w.shutting_down (λ _. h)
      (λ _. option_ind (Inv none) (retried t) (λ _. h) (λ u _. enqueue-Inv u w h))

pub wake_nth-Inv : (i : ℕ) (w : World) → Inv none w → Inv none (wake_nth i w)
unfolding wake_nth
wake_nth-Inv i w h = go (extract i w.delayed)
  where
    go :
        (found : Option (Retry × List Retry))
        → Inv none (elim found [
          | none ↦ w
          | some (r, rest) ↦ delayed_retry r.task (record w { delayed = rest })
        ])
    go none = h
    go (some (r, rest)) =
        delayed_retry-Inv r.task _ (unseen-Inv none w _ refl refl refl refl refl h)

pub cancel_nth-Inv : (i : ℕ) (w : World) → Inv none w → Inv none (cancel_nth i w)
unfolding cancel_nth
cancel_nth-Inv i w h = go (extract i w.running) (extract-Extracted i w.running)
  where
    go :
        (found : Option (QueuedTask × List QueuedTask))
        → Extracted w.running found
        → Inv none (elim found [
          | none ↦ w
          | some (t, rest) ↦ record w { running = rest; cancelled = t ∷ w.cancelled }
        ])
    go none p = h
    go (some (t, rest)) p = record {
      counted = omega (arith, p.0, h.counted);
      capped = h.capped;
      serial = λ j. omega (arith, p.1 (runs_for j), h.serial j);
      own = h.own;
      retries = h.retries;
    }
