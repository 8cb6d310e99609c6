-- ===== src/Queue/Invariant.antt =====
-- The invariant of a queue between two events, and that each event keeps it.
use module_agents_part.Prelude.{
  ℕ, ◌+◌, ◌≤◌, ◌<◌, ◌≡◌, String, true, false, Option, none, some, List, ◌∷◌, arith, eq_iff, ◌==◌,
  bit, length, All, if◌then◌else◌,
}
use module_agents_part.Prelude.Dict.{Dict, get, put, get-put}
use module_agents_part.Queue.State.{
  QueuedTask, SessionState, World, session_or_fresh, session_of, set_session, running_count,
  cancelled_count, max_retries,
}

-- the tasks of a session's list are its own
abbrev pub IsOwn : String → List QueuedTask → Type 0
IsOwn sid = All (λ t. t.session_id ≡ sid)

-- `sid` names a session whose coroutine has ended and has not given its slot back; `none` between
-- two events
abbrev pub owed : Option String → String → ℕ
owed none j = 0
owed (some sid) j = bit (sid == j)

abbrev pub slots_owed : Option String → ℕ
slots_owed none = 0
slots_owed (some _) = 1

pub record Inv (ending : Option String) (w : World) : Type 0 where
  -- `active_count` is the number of coroutines, those that were cancelled included
  pub counted : length w.running + length w.cancelled + slots_owed ending ≡ w.active_count
  pub capped : w.active_count ≤ w.max_concurrent
  -- a session is active while one coroutine runs for it or was cancelled, and there is never a second
  pub serial :
      (j : String)
      → running_count j w + cancelled_count j w + owed ending j ≡ bit (session_of j w).active
  pub own : (j : String) → IsOwn j (session_of j w).pending_tasks
  pub retries : (j : String) → (session_of j w).retry_count ≤ max_retries

pub session-put :
    (k j : String) (s : SessionState) (d : Dict SessionState)
    → session_or_fresh (get j (put k s d)) ≡ (if k == j then s else session_or_fresh (get j d))
session-put k j s d = ground (arith, get-put k j s d)

module _ {ending : Option String} (w : World) (sid : String) (s : SessionState) where
  -- Writing a session that is as active as before, with tasks of its own.
  pub set_session-Inv :
      Inv ending w
      → s.active ≡ (session_of sid w).active
      → IsOwn sid s.pending_tasks
      → s.retry_count ≤ max_retries
      → Inv ending (set_session sid s w)
  set_session-Inv h same own few = record {
    counted = h.counted;
    capped = h.capped;
    serial = λ j. ground (arith, session-put sid j s w.sessions, eq_iff sid j, h.serial j, same);
    own = λ j. ground (arith, session-put sid j s w.sessions, eq_iff sid j, h.own j, own);
    retries = λ j. ground (arith, session-put sid j s w.sessions, eq_iff sid j, h.retries j, few);
  }

-- Taking a slot for an idle session, with room under the cap; the rest of the state is free.
pub activate-Inv :
    (w w' : World) (t : QueuedTask) (s : SessionState)
    → Inv none w
    → (session_of t.session_id w).active ≡ false
    → w.active_count < w.max_concurrent
    → s.active ≡ true
    → s.pending_tasks ≡ (session_of t.session_id w).pending_tasks
    → s.retry_count ≡ (session_of t.session_id w).retry_count
    → w'.running ≡ t ∷ w.running
    → w'.cancelled ≡ w.cancelled
    → w'.active_count ≡ w.active_count + 1
    → w'.max_concurrent ≡ w.max_concurrent
    → w'.sessions ≡ put t.session_id s w.sessions
    → Inv none w'
activate-Inv w w' t s h free room on same few r x c m d = record {
  counted = rw (r, x, c) (omega (arith, h.counted));
  capped = rw (c, m) (omega arith);
  serial = λ j.
      rw (r, x, d)
        (ground (
          arith,
          session-put t.session_id j s w.sessions,
          eq_iff t.session_id j,
          h.serial j,
          h.serial t.session_id,
        ));
  own = λ j. rw d (
      ground (
        arith,
        session-put t.session_id j s w.sessions,
        eq_iff t.session_id j,
        h.own j,
        h.own t.session_id,
      ));
  retries = λ j. rw d (
      ground (
        arith,
        session-put t.session_id j s w.sessions,
        eq_iff t.session_id j,
        h.retries j,
        h.retries t.session_id,
      ));
}

-- A change that the invariant does not see.
pub unseen-Inv :
    (ending : Option String) (w w' : World)
    → w'.running ≡ w.running
    → w'.cancelled ≡ w.cancelled
    → w'.active_count ≡ w.active_count
    → w'.max_concurrent ≡ w.max_concurrent
    → w'.sessions ≡ w.sessions
    → Inv ending w
    → Inv ending w'
unseen-Inv ending w w' r x c m d h = record {
  counted = rw (r, x, c) h.counted;
  capped = rw (c, m) h.capped;
  serial = λ j. rw (r, x, d) (h.serial j);
  own = λ j. rw d (h.own j);
  retries = λ j. rw d (h.retries j);
}
