-- ===== src/Queue/Priority.antt =====
-- Slots go by priority, within a session and between sessions; when an idle worker is asked to exit.
use module_agents_part.Prelude.{
  ℕ, ◌+◌, ◌≤◌, ◌<◌, ◌≡◌, refl, subst, String, Bool, true, false, Option, none, some, List, [], ◌∷◌,
  ◌++◌, arith, All, ltb, length, length-append, if◌then◌else◌, if_ind,
}
use module_agents_part.Prelude.Dict.{Dict, get}
use module_agents_part.Queue.Sort.{All-sort_inv, sort-IsSorted, IsSorted, length-sort}
use module_agents_part.Queue.State.{QueuedTask, SessionState, World, session_of}
use module_agents_part.Queue.Enqueue.{
  by_priority, append_pending, enqueue, wants_preemption, last_priority,
}
use module_agents_part.Queue.Finish.{is_free, pick, next_or_idle, after_task}

abbrev pub priority_of : QueuedTask → ℕ
priority_of t = t.priority

-- A picked task's priority number is at most that of every task that could have been picked.
abbrev IsBest : Dict SessionState → List QueuedTask → Option (QueuedTask × List QueuedTask) → Type 0
IsBest sessions ts none = Unit
IsBest sessions ts (some (t, rest)) =
    All (λ u. is_free sessions u ≡ true → t.priority ≤ u.priority) ts

pick-below :
    (sessions : Dict SessionState) (n : ℕ) (ts : List QueuedTask) (t : QueuedTask)
    (rest : List QueuedTask)
    → All (λ u. n ≤ u.priority) ts
    → pick sessions ts ≡ some (t, rest)
    → n ≤ t.priority
unfolding pick
pick-below sessions n [] t rest h e = cc
pick-below sessions n (u ∷ ts) t rest h e =
    go (is_free sessions u) (pick sessions ts) (pick-below sessions n ts) e
  where
    go :
        (b : Bool) (o : Option (QueuedTask × List QueuedTask))
        → ((v : QueuedTask) (r : List QueuedTask)
            → All (λ u. n ≤ u.priority) ts
            → o ≡ some (v, r)
            → n ≤ v.priority)
        → if◌then◌else◌ {A = Option (QueuedTask × List QueuedTask)} b
            (some (u, ts))
            (elim o [ none ↦ none | some (v, vs) ↦ some (v, u ∷ vs) ])
          ≡ some (t, rest)
        → n ≤ t.priority
    go true o ih e = ground (arith, h.0)
    go false none ih e = cc
    go false (some (v, vs)) ih e = ground (arith, ih v vs h.1 refl)

-- the head of a sorted list has the smallest key
head_le :
    (u : QueuedTask) (ts : List QueuedTask)
    → IsSorted priority_of (u ∷ ts)
    → All (λ v. u.priority ≤ v.priority) (u ∷ ts)
head_le u ts h = (omega arith, h.0)

-- When a task ends and its session has pending tasks, the session goes on with one of them at once,
-- and no pending task has a smaller priority number; its slot is not given back.
pending_by_priority :
    (sid : String) (w : World) (s : SessionState) (t : QueuedTask) (rest : List QueuedTask)
    → get sid w.sessions ≡ some s
    → by_priority s.pending_tasks ≡ t ∷ rest
    → ((after_task sid w).running ≡ t ∷ w.running)
      × ((after_task sid w).active_count ≡ w.active_count)
      × All (λ u. t.priority ≤ u.priority) s.pending_tasks
unfolding after_task next_or_idle
pending_by_priority sid w s t rest e f = (
  rw (e, after_task) (rw (f, next_or_idle)),
  rw (e, after_task) (rw (f, next_or_idle)),
  All-sort_inv priority_of (λ u. t.priority ≤ u.priority) s.pending_tasks
      (rw f (
        head_le t rest
          (subst (IsSorted priority_of) f (sort-IsSorted priority_of s.pending_tasks)))),
)

-- the last element's own priority number is below itself plus one
wants_preemption_any : (t : QueuedTask) (ts : List QueuedTask) → wants_preemption (t ∷ ts) ≡ true
unfolding wants_preemption
wants_preemption_any t [] = ground arith
wants_preemption_any t (u ∷ ts) =
    if_ind (λ b. b ≡ true) (ltb t.priority (last_priority (u ∷ ts) + 1)) (λ _. refl)
      (λ _. wants_preemption_any u ts)

preempts_nonempty : (ts : List QueuedTask) → 0 < length ts → wants_preemption ts ≡ true
preempts_nonempty [] h = elim h [ ]
preempts_nonempty (t ∷ ts) h = wants_preemption_any t ts

preempts_sorted :
    (t : QueuedTask) (ts : List QueuedTask) → wants_preemption (by_priority (ts ++ t ∷ [])) ≡ true
preempts_sorted t ts =
    preempts_nonempty (by_priority (ts ++ t ∷ []))
      (omega (arith, length-sort priority_of (ts ++ t ∷ []), length-append ts (t ∷ [])))

-- A task enqueued for a session whose worker is idle and registered makes the queue write the `_close`
-- sentinel once, whatever the priorities of the new task and of the others are.
pub idle_worker_preempted :
    (t : QueuedTask) (w : World) (dir : String)
    → w.shutting_down ≡ false
    → (session_of t.session_id w).active ≡ true
    → (session_of t.session_id w).idle_waiting ≡ true
    → (session_of t.session_id w).ipc_input_dir ≡ some dir
    → (enqueue t w).closes ≡ dir ∷ w.closes
unfolding enqueue
idle_worker_preempted t w dir up busy idle registered =
    rw (up, enqueue)
      (rw (busy, append_pending)
        (ground (arith, preempts_sorted t (session_of t.session_id w).pending_tasks)))
