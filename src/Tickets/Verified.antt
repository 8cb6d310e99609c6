-- ===== src/Tickets/Verified.antt =====
-- No ticket succeeds without a manifest that verified at that moment.
use mathlib.Core.List.{Memᴰ}
use module_agents_part.Prelude.{
  ◌≡◌, refl, sym, ap, ◌∙◌, subst, String, true, false, some, List, [], ◌∷◌, arith, if_ind,
  Bool-cases, inl, inr,
}
use module_agents_part.Tickets.State.{success, is_terminal, is_ticket_transition_allowed}
use module_agents_part.Tickets.Manifest.{Manifest, Files, Time, verify}
use module_agents_part.Tickets.Ticket.{
  Ticket, Outcome, Call, create, start, succeed, skip, fail, call, calls, is_blank, record_success,
}
use module_agents_part.Tickets.Lifecycle.{calls-terminal}

-- The accepted call of `succeed` behind a successful ticket.
abbrev pub Evidence : (String → String) → List Call → Ticket → Type 0
Evidence sha256 cs t =
    (files : Files) × (now : Time) × (m : Manifest) × (summary : String) × Memᴰ
      (Call.succeed_with files now m summary) cs
    × (verify sha256 files m ≡ true)
    × (is_blank summary ≡ false)
    × (t.manifest_file ≡ some m)
    × (t.summary_file ≡ some summary)

-- What one call must have been if it took an unfinished ticket to success.
succeed-Evidence :
    (sha256 : String → String) (files : Files) (now : Time) (m : Manifest) (summary : String)
    (t : Ticket) (cs : List Call)
    → is_terminal t.state ≡ false
    → (succeed sha256 files now m summary t).0.state ≡ success
    → Evidence sha256
        (Call.succeed_with files now m summary ∷ cs)
        (succeed sha256 files now m summary t).0
unfolding succeed
succeed-Evidence sha256 files now m summary t cs open_ =
    if_ind Good (is_ticket_transition_allowed t.state success)
      (λ _.
        if_ind Good (is_blank summary) (λ _. not_yet)
          (λ filled.
            if_ind Good (verify sha256 files m)
              (λ verified _.
                unfold record_success in
                (files, now, m, summary, Memᴰ.head refl, verified, filled, refl, refl))
              (λ _. not_yet)))
      (λ _. not_yet)
  where
    Good : Ticket × Outcome → Type 0
    Good r = r.0.state ≡ success → Evidence sha256 (Call.succeed_with files now m summary ∷ cs) r.0

    not_yet : t.state ≡ success → Evidence sha256 (Call.succeed_with files now m summary ∷ cs) t
    not_yet e = cc (subst (λ s. is_terminal s ≡ false) e open_)

one_call :
    (sha256 : String → String) (c : Call) (t : Ticket) (cs : List Call)
    → is_terminal t.state ≡ false
    → (call sha256 c t).0.state ≡ success
    → Evidence sha256 (c ∷ cs) (call sha256 c t).0
unfolding call
one_call sha256 (Call.start_at now) t cs o e = absurd (unfold start in ground arith)
one_call sha256 (Call.succeed_with files now m summary) t cs o e =
    succeed-Evidence sha256 files now m summary t cs o e
one_call sha256 (Call.skip_for now reason) t cs o e = absurd (unfold skip in ground arith)
one_call sha256 (Call.fail_with now error_code message) t cs o e =
    absurd (unfold fail in ground arith)

weaken :
    (sha256 : String → String) (c : Call) (cs : List Call) (t : Ticket)
    → Evidence sha256 cs t
    → Evidence sha256 (c ∷ cs) t
weaken sha256 c cs t (files, now, m, summary, mem, v, b, x, y) =
    (files, now, m, summary, Memᴰ.tail mem, v, b, x, y)

calls-Evidence :
    (sha256 : String → String) (cs : List Call) (t : Ticket)
    → is_terminal t.state ≡ false
    → (calls sha256 cs t).state ≡ success
    → Evidence sha256 cs (calls sha256 cs t)
unfolding calls
calls-Evidence sha256 [] t o e = cc (subst (λ s. is_terminal s ≡ false) e o)
calls-Evidence sha256 (c ∷ cs) t o e = elim (Bool-cases (is_terminal (call sha256 c t).0.state)) [
  | inl ended ↦
      let same = calls-terminal sha256 cs (call sha256 c t).0 ended in
      subst (Evidence sha256 (c ∷ cs)) (sym same)
        (one_call sha256 c t cs o (ap (λ (x : Ticket). x.state) (sym same) ∙ e))
  | inr going ↦
      weaken sha256 c cs (calls sha256 cs (call sha256 c t).0)
        (calls-Evidence sha256 cs (call sha256 c t).0 going e)
]

-- If a new ticket is in state success after any calls, then one of the calls was a `succeed` whose
-- manifest verified against the files of that moment and whose summary was not blank; the ticket's
-- manifest and summary files hold those two.
pub success_verified :
    (sha256 : String → String) (ticket_id operation : String) (cs : List Call)
    → (calls sha256 cs (create ticket_id operation)).state ≡ success
    → Evidence sha256 cs (calls sha256 cs (create ticket_id operation))
success_verified sha256 ticket_id operation cs =
    calls-Evidence sha256 cs (create ticket_id operation) (unfold create in refl)
