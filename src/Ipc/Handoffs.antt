-- ===== src/Ipc/Handoffs.antt =====
-- What the watcher dispatches.
use Prim.Native.String.{◌++◌ as concat}
use mathlib.Core.List.{Memᴰ}
use module_agents_part.Ipc.Names.{handoff_name}
use module_agents_part.Prelude.{
  subst, if◌then◌else◌, ℕ, ◌+◌, ◌≤◌, ◌≡◌, refl, sym, ap, ◌∙◌, String, Bool, true, false, none, some,
  List, [], ◌∷◌, ◌++◌, length, count, arith, if_ind,
}
use module_agents_part.Prelude.Dict.{put, get, get-put_self}
use module_agents_part.Prelude.Json.{Json}
use module_agents_part.Ipc.Consume.{
  Content, parsed, invalid_json, unreadable, undecodable, File, Reading, read_and_consume, consume,
  read_grace_ms,
}
use module_agents_part.Ipc.Delivery.{IsDue, undecodable_blocks}
use module_agents_part.Ipc.Watcher.{
  is_handoff, target_half, Dispatch, handoff, SessionFiles, Handlers, partition, quarantine_all,
  audit_name, when_set, consume_handoff, process_listed, process_handoffs, process_session,
  after_outputs,
}

-- how many handoff files there are
abbrev pub handoffs : List File → ℕ
handoffs fs = count is_handoff fs

length-partition : (fs : List File) → length (partition fs).0 ≡ handoffs fs
length-partition [] = refl
length-partition (f ∷ fs) = ground (arith, length-partition fs)

-- the files that are no handoffs
others-partition : (fs : List File) → handoffs (partition fs).1 ≡ 0
others-partition [] = refl
others-partition (f ∷ fs) = ground (arith, others-partition fs)

-- the first listed handoff is one of the files, and a handoff
listed_first :
    (f : File) (hs fs : List File) → (partition fs).0 ≡ f ∷ hs → Memᴰ f fs × (is_handoff f ≡ true)
listed_first f hs [] e = cc e
listed_first f hs (g ∷ fs) e = go (is_handoff g) refl (listed_first f hs fs) e
  where
    go :
        (b : Bool)
        → is_handoff g ≡ b
        → ((partition fs).0 ≡ f ∷ hs → Memᴰ f fs × (is_handoff f ≡ true))
        → (let r : List File × List File =
              if b
              then (g ∷ (partition fs).0, (partition fs).1)
              else ((partition fs).0, g ∷ (partition fs).1) in
            r.0)
          ≡ f ∷ hs
        → Memᴰ f (g ∷ fs) × (is_handoff f ≡ true)
    go true h ih e =
        let same : g ≡ f = cc e in (Memᴰ.head (sym same), subst (λ x. is_handoff x ≡ true) same h)
    go false h ih e = let (m, one) = ih e in (Memᴰ.tail m, one)

-- A dispatched handoff: a file of ipc/ names its target and holds its payload; it was the only handoff,
-- and its payload is in the audit log and no longer in ipc/.
pub record Handed (iso : String) (before after : SessionFiles) (target : String) (payload : Json)
    : Type 0 where
  pub file : File
  pub there : Memᴰ file before.ipc
  pub named : file.name ≡ concat "handoff_to_" (concat target ".json")
  pub holds : file.content ≡ parsed payload
  pub only : handoffs before.ipc ≡ 1
  pub gone : handoffs after.ipc ≡ 0
  pub archived : get (audit_name iso target) after.audit ≡ some payload

-- The account of _process_handoffs, by what it dispatched.
abbrev pub Fate : String → SessionFiles → SessionFiles × List Dispatch → Type 0
Fate iso before (after, []) = Unit
Fate iso before (after, handoff target payload ∷ []) = Handed iso before after target payload
Fate iso before (after, _) = ⊥

consume_handoff-Fate :
    (handlers : Handlers) (iso : String) (f : File) (s : SessionFiles) (c : Content)
    → f.content ≡ c
    → (partition s.ipc).0 ≡ f ∷ []
    → Fate iso s (consume_handoff handlers iso f (partition s.ipc).1 c s)
unfolding consume_handoff
consume_handoff-Fate handlers iso f s (parsed payload) same one =
    if_ind (Fate iso s) f.movable (λ _. sent handlers.on_handoff) (λ _. tt)
  where
    target : String
    target = target_half f

    after : SessionFiles
    after = record s {
      ipc = (partition s.ipc).1;
      audit = put (audit_name iso (target_half f)) payload s.audit;
    }

    sent : (b : Bool) → Fate iso s (after, when_set b (handoff (target_half f) payload))
    sent true = record {
      file = f;
      there = (listed_first f [] s.ipc one).0;
      named = handoff_name f (listed_first f [] s.ipc one).1;
      holds = same;
      only = sym (length-partition s.ipc) ∙ ap length one;
      gone = others-partition s.ipc;
      archived = get-put_self (audit_name iso (target_half f)) payload s.audit;
    }
    sent false = tt
consume_handoff-Fate handlers iso f s invalid_json same one =
    if_ind (Fate iso s) f.movable (λ _. tt) (λ _. tt)
consume_handoff-Fate handlers iso f s unreadable same one =
    if_ind (Fate iso s) f.movable (λ _. tt) (λ _. tt)
consume_handoff-Fate handlers iso f s undecodable same one =
    if_ind (Fate iso s) f.movable (λ _. tt) (λ _. tt)

-- Several handoff files at once: nothing is dispatched or logged as a handoff, a reason is written, and
-- every file is in ipc/ or among the malformed ones, as often as before.
pub record Refused (before : SessionFiles) (r : SessionFiles × List Dispatch) : Type 0 where
  pub nothing : r.1 ≡ []
  pub same_audit : r.0.audit ≡ before.audit
  pub reason : r.0.reasons ≡ before.reasons + 1
  pub conserved :
      (p : File → Bool)
      → count p r.0.ipc + count p r.0.malformed ≡ count p before.ipc + count p before.malformed

-- What quarantine_all leaves of the other fields, and where the files are.
record Quarantined (fs : List File) (before after : SessionFiles) : Type 0 where
  same_audit : after.audit ≡ before.audit
  same_reasons : after.reasons ≡ before.reasons
  conserved :
      (p : File → Bool)
      → count p after.ipc + count p after.malformed
        ≡ count p fs + count p before.ipc + count p before.malformed

quarantine_all-Quarantined :
    (fs : List File) (s : SessionFiles) → Quarantined fs s (quarantine_all fs s)
unfolding quarantine_all
quarantine_all-Quarantined [] s = record {
  same_audit = refl;
  same_reasons = refl;
  conserved = λ p. omega arith;
}
quarantine_all-Quarantined (f ∷ fs) s =
    let q = quarantine_all-Quarantined fs s in
    if_ind (Quarantined (f ∷ fs) s) f.movable
      (λ _. record {
        same_audit = q.same_audit;
        same_reasons = q.same_reasons;
        conserved = λ p. omega (arith, q.conserved p);
      })
      (λ _. record {
        same_audit = q.same_audit;
        same_reasons = q.same_reasons;
        conserved = λ p. omega (arith, q.conserved p);
      })

count-partition :
    (p : File → Bool) (fs : List File)
    → count p (partition fs).0 + count p (partition fs).1 ≡ count p fs
count-partition p [] = omega arith
count-partition p (f ∷ fs) = ground (arith, count-partition p fs)

-- the account of _process_handoffs
pub record Protocol (iso : String) (before : SessionFiles) (r : SessionFiles × List Dispatch)
    : Type 0 where
  pub fate : Fate iso before r
  pub several : 2 ≤ handoffs before.ipc → Refused before r
  pub none_there : handoffs before.ipc ≡ 0 → r ≡ (before, [])

process_listed-Protocol :
    (handlers : Handlers) (iso : String) (s : SessionFiles) (hs : List File)
    → (partition s.ipc).0 ≡ hs
    → Protocol iso s (process_listed handlers iso hs (partition s.ipc).1 s)
unfolding process_listed
process_listed-Protocol handlers iso s [] e = record {
  fate = tt;
  several = λ h. absurd (omega (arith, length-partition s.ipc, ap length e, h));
  none_there = λ _. refl;
}
process_listed-Protocol handlers iso s (f ∷ []) e = record {
  fate = consume_handoff-Fate handlers iso f s f.content refl e;
  several = λ h. absurd (omega (arith, length-partition s.ipc, ap length e, h));
  none_there = λ h. absurd (omega (arith, length-partition s.ipc, ap length e, h));
}
process_listed-Protocol handlers iso s (f ∷ g ∷ fs) e =
    let q = quarantine_all-Quarantined (f ∷ g ∷ fs) (record s { ipc = (partition s.ipc).1 }) in
    record {
      fate = tt;
      several = λ _. record {
        nothing = refl;
        same_audit = q.same_audit;
        reason = ap (λ n. n + 1) q.same_reasons;
        conserved = λ p. omega (arith, q.conserved p, count-partition p s.ipc, ap (count p) e);
      };
      none_there = λ h. absurd (omega (arith, length-partition s.ipc, ap length e, h));
    }

-- The handoff protocol. A poll dispatches at most one handoff, and only one that was alone in ipc/: its
-- target is what the file's name has between "handoff_to_" and ".json", its payload is what the file
-- holds, which is then in the audit log under its target, and no handoff file is left. If several are there,
-- none is dispatched or logged, a reason is written, and every file stays or becomes malformed. If none
-- is there, nothing changes.
pub process_handoffs-Protocol :
    (handlers : Handlers) (iso : String) (s : SessionFiles)
    → Protocol iso s (process_handoffs handlers iso s)
unfolding process_handoffs
process_handoffs-Protocol handlers iso s =
    process_listed-Protocol handlers iso s (partition s.ipc).0 refl

-- A due file in ipc/output that is not valid UTF-8 starves its session, where outputs are handled: a
-- poll dispatches nothing at all, and leaves handoffs and completion in place.
pub undecodable_starves :
    (handlers : Handlers) (now_ms : ℕ) (iso : String) (s : SessionFiles) (before after : List File)
    (f : File)
    → handlers.on_output ≡ true
    → s.outputs ≡ some (before ++ f ∷ after)
    → IsDue now_ms read_grace_ms f
    → f.content ≡ undecodable
    → let r = process_session handlers now_ms iso s in
      (r.1 ≡ []) × (r.0.ipc ≡ s.ipc) × (r.0.completion ≡ s.completion)
unfolding process_session
undecodable_starves handlers now_ms iso s before after f on there due bad =
    let blocked = undecodable_blocks now_ms read_grace_ms before after f due bad in
    rw (there, process_session)
      (rw (on, process_session)
        (unfold read_and_consume in
          starved (consume now_ms read_grace_ms (before ++ f ∷ after)) blocked.0))
  where
    starved :
        (r : Reading)
        → r.0 ≡ none
        → let a = after_outputs handlers iso s r in
          (a.1 ≡ []) × (a.0.ipc ≡ s.ipc) × (a.0.completion ≡ s.completion)
    starved (none, c) h = unfold after_outputs in (refl, refl, refl)
    starved (some out, c) h = cc
