-- ===== src/Ipc/Deciding.antt =====
-- What recording and finding decisions on approvals give.
use module_agents_part.Prelude.{
  ◌≡◌, ◌≢◌, ◌⊎◌, inl, inr, refl, sym, subst, String, true, false, none, some, [], ◌∷◌, ◌++◌, ◌==◌,
  if◌then◌else◌, option_ind,
}
use module_agents_part.Prelude.Dict.{Dict, get, put, get-put_self}
use module_agents_part.Prelude.Json.{Json, str}
use module_agents_part.Session.State.{ok}
use module_agents_part.Ipc.Consume.{Content, parsed, invalid_json, unreadable, undecodable}
use module_agents_part.Ipc.Approval.{
  ApprovalRequest, request_to_dict, request_from_dict, ApprovalResponse, response_to_dict,
  checked_decision, response_from_dict, Boxes, Request, request, no_request, request_raises,
  read_request, listed, list_pending_approvals, merged, write_target, write_log, Recorded, recorded,
  not_pending, unreadable_request, record_parsed, record_decision, Look, decided, goes_on, look_at,
  find_decision,
}

-- A request that is written to a file reads back as it was.
request_from_dict-to_dict : (r : ApprovalRequest) → request_from_dict (request_to_dict r) ≡ ok r
unfolding request_from_dict request_to_dict
request_from_dict-to_dict r = refl

abbrev pub IsDecision : String → Type 0
IsDecision s = (s ≡ "granted") ⊎ (s ≡ "denied")

checked : (s : String) → IsDecision s → checked_decision (str s) ≡ ok s
checked s (inl e) = subst (λ x. checked_decision (str x) ≡ ok x) (sym e) refl
checked s (inr e) = subst (λ x. checked_decision (str x) ≡ ok x) (sym e) refl

response_from_dict-to_dict :
    (r : ApprovalResponse) → IsDecision r.decision → response_from_dict (response_to_dict r) ≡ ok r
unfolding response_from_dict response_to_dict
response_from_dict-to_dict r d = rw (checked r.decision d, response_from_dict) refl

merged-decided :
    (v : Json) (r : ApprovalResponse)
    → IsDecision r.decision
    → look_at (some (parsed (merged v r))) ≡ decided r
unfolding look_at
merged-decided v r d = rw (response_from_dict-to_dict r d, look_at) refl

-- the box that a decision goes to
abbrev pub target_of : ApprovalResponse → Boxes → Dict Content
target_of r b = if r.decision == "granted" then b.granted else b.denied

-- boxes with the same files but for those of one request
pub record SameElsewhere (id : String) (b b' : Boxes) : Type 0 where
  pub awaiting : (j : String) → (id == j) ≡ false → get j b'.awaiting ≡ get j b.awaiting
  pub granted : (j : String) → (id == j) ≡ false → get j b'.granted ≡ get j b.granted
  pub denied : (j : String) → (id == j) ≡ false → get j b'.denied ≡ get j b.denied
  pub logs : (j : String) → (id == j) ≡ false → get j b'.logs ≡ get j b.logs

-- a request that is pending as the value v, and its decision as well
abbrev pub Both : ApprovalResponse → Json → Boxes → Type 0
Both r v b =
    (get r.request_id b.awaiting ≡ some (parsed v))
    × (look_at (get r.request_id (target_of r b)) ≡ decided r)

-- What record_decision does to the boxes, for a request that is pending as the value v.
pub record Records (b : Boxes) (r : ApprovalResponse) (v : Json) (b' : Boxes) : Type 0 where
  pub pending_gone : get r.request_id b'.awaiting ≡ none
  pub found : look_at (get r.request_id (target_of r b')) ≡ decided r
  pub logged : get r.request_id b'.logs ≡ some (merged v r)
  pub elsewhere : SameElsewhere r.request_id b b'
  -- after the first write, and after the second
  pub between :
      Both r v (write_target (merged v r) r b)
      × Both r v (write_log (merged v r) r (write_target (merged v r) r b))

abbrev pub Decides : Boxes → ApprovalResponse → Recorded → Type 0
Decides b r (recorded b') =
    (v : Json) × (get r.request_id b.awaiting ≡ some (parsed v)) × Records b r v b'
Decides b r (not_pending id) = (id ≡ r.request_id) × (get r.request_id b.awaiting ≡ none)
Decides b r unreadable_request =
    (c : Content) × (get r.request_id b.awaiting ≡ some c) × ((v : Json) → c ≢ parsed v)

-- What find_decision gives for a request whose decision was recorded.
pub record Finds (b : Boxes) (r : ApprovalResponse) (found : Look) : Type 0 where
  pub granted : r.decision ≡ "granted" → found ≡ decided r
  -- an older grant under the same id hides a denial
  pub denied :
      r.decision ≡ "denied"
      → ((look_at (get r.request_id b.granted) ≡ goes_on → found ≡ decided r)
          × ((old : ApprovalResponse)
              → look_at (get r.request_id b.granted) ≡ decided old
              → found ≡ decided old))

abbrev pub FindsAfter : Boxes → ApprovalResponse → Recorded → Type 0
FindsAfter b r (recorded b') = Finds b r (find_decision b' r.request_id)
FindsAfter b r (not_pending id) = Unit
FindsAfter b r unreadable_request = Unit

record_parsed-FindsAfter :
    (b : Boxes) (r : ApprovalResponse) (c : Content) → FindsAfter b r (record_parsed r b c)
unfolding find_decision
record_parsed-FindsAfter b r (parsed v) = record {
  granted = λ e.
      let this = subst (λ x. (x == "granted") ≡ true) (sym e) refl in
      rw (this) (
        rw (get-put_self r.request_id (parsed (merged v r)) b.granted)
          (rw (merged-decided v r (inl e)) refl));
  denied = λ e.
      let hit : look_at (get r.request_id (put r.request_id (parsed (merged v r)) b.denied))
          ≡ decided r =
        rw (get-put_self r.request_id (parsed (merged v r)) b.denied)
          (merged-decided v r (inr e)) in
      let other = subst (λ x. (x == "granted") ≡ false) (sym e) refl in
      ((λ free. rw (other) (rw (free) hit)), (λ old earlier. rw (other) (rw (earlier) refl)));
}
record_parsed-FindsAfter b r invalid_json = tt
record_parsed-FindsAfter b r unreadable = tt
record_parsed-FindsAfter b r undecodable = tt

-- After record_decision, find_decision finds a grant for its request. It finds a denial if there was no
-- grant under the same id before; where there was one, it still finds that one, and the denial is masked.
pub find_decision-FindsAfter :
    (b : Boxes) (r : ApprovalResponse) → FindsAfter b r (record_decision b r)
unfolding record_decision
find_decision-FindsAfter b r =
    option_ind (λ (o : Recorded). FindsAfter b r o) (get r.request_id b.awaiting) (λ _. tt)
      (λ c _. record_parsed-FindsAfter b r c)

listed-none : (x : Request) → listed x none ≡ none
listed-none (request r) = refl
listed-none no_request = refl
listed-none request_raises = refl

-- One file that is not valid UTF-8 makes list_pending_approvals raise, wherever it stands among the
-- requests, although files that cannot be read or parsed are skipped.
undecodable_hides_requests :
    (before after : Dict Content) (name : String)
    → list_pending_approvals (before ++ (name, undecodable) ∷ after) ≡ none
unfolding list_pending_approvals read_request
undecodable_hides_requests [] after name = refl
undecodable_hides_requests ((n, c) ∷ before) after name =
    rw (undecodable_hides_requests before after name) (listed-none (read_request c))
