-- ===== src/Executor/Pool.antt =====
-- Calls that leave the state as it is: run concurrently, in whatever order, they give what they give one
-- after the other.
use module_agents_part.Prelude.{
  ℕ, zero, suc, ◌+◌, ◌≡◌, refl, sym, ap, ◌∙◌, subst, String, Bool, List, [], ◌∷◌, ◌++◌, map, All,
  count, count-append, arith,
}
use module_agents_part.Prelude.Json.{Fields}
use module_agents_part.Executor.Tool.{Registry}
use module_agents_part.Executor.Dispatch.{
  ToolCall, ToolOutput, TraceEvent, Effect, Slot, pending, finished, invoke_tool, run_nth, run_rest,
  gather,
}

-- Both give the same outputs and the same state, and the same events, in whatever order.
pub record Agrees {W R : Type 0} (e f : Effect R W) : Type 0 where
  pub same_outputs : e.outputs ≡ f.outputs
  pub same_events : (p : TraceEvent → Bool) → count p e.events ≡ count p f.events
  pub same_state : e.world ≡ f.world

module _ {W : Type 0} (preview : Fields → String) (tools : Registry W) where
  -- the calls one after the other: each sees what the ones before it left
  unfoldable pub sequential : List ToolCall → W → Effect (List ToolOutput) W
  sequential [] w = record { outputs = []; events = []; world = w }
  sequential (c ∷ cs) w =
      let e = invoke_tool preview tools c w in
      let rest = sequential cs e.world in
      record {
        outputs = e.outputs ∷ rest.outputs;
        events = e.events ++ rest.events;
        world = rest.world;
      }

  abbrev pub KeepsWorld : ToolCall → Type 0
  KeepsWorld c = (w : W) → (invoke_tool preview tools c w).world ≡ w

  -- the slots of the calls, some of which have run in the state w
  abbrev Matches : W → List ToolCall → List Slot → Type 0
  Matches w [] [] = Unit
  Matches w (c ∷ cs) (pending d ∷ slots) = (c ≡ d) × Matches w cs slots
  Matches w (c ∷ cs) (finished o ∷ slots) =
      (o ≡ (invoke_tool preview tools c w).outputs) × Matches w cs slots
  Matches w _ _ = ⊥

  -- how many of the events to come pass the test
  abbrev owed : (TraceEvent → Bool) → W → List Slot → ℕ
  owed p w [] = 0
  owed p w (pending c ∷ slots) = count p (invoke_tool preview tools c w).events + owed p w slots
  owed p w (finished o ∷ slots) = owed p w slots

  record Kept (w : W) (cs : List ToolCall) (slots : List Slot) (e : Effect (List Slot) W)
      : Type 0 where
    same_world : e.world ≡ w
    matches : Matches w cs e.outputs
    owes : (p : TraceEvent → Bool) → count p e.events + owed p w e.outputs ≡ owed p w slots

  run_nth-Kept :
      (n : ℕ) (cs : List ToolCall) (slots : List Slot) (w : W)
      → All KeepsWorld cs
      → Matches w cs slots
      → Kept w cs slots (run_nth preview tools n slots w)
  unfolding run_nth
  run_nth-Kept n [] [] w keeps m = record {
    same_world = refl;
    matches = tt;
    owes = λ p. omega arith;
  }
  run_nth-Kept n [] (_ ∷ slots) w keeps m = elim m [ ]
  run_nth-Kept zero (c ∷ cs) [] w keeps m = elim m [ ]
  run_nth-Kept (suc n) (c ∷ cs) [] w keeps m = elim m [ ]
  run_nth-Kept zero (c ∷ cs) (pending d ∷ slots) w keeps m = record {
    same_world = ap (λ x. (invoke_tool preview tools x w).world) (sym m.0) ∙ keeps.0 w;
    matches = (ap (λ x. (invoke_tool preview tools x w).outputs) (sym m.0), m.1);
    owes = λ p. refl;
  }
  run_nth-Kept zero (c ∷ cs) (finished o ∷ slots) w keeps m = record {
    same_world = refl;
    matches = m;
    owes = λ p. omega arith;
  }
  run_nth-Kept (suc n) (c ∷ cs) (pending d ∷ slots) w keeps m =
      let k = run_nth-Kept n cs slots w keeps.1 m.1 in
      record {
        same_world = k.same_world;
        matches = (m.0, k.matches);
        owes = λ p. omega (arith, k.owes p);
      }
  run_nth-Kept (suc n) (c ∷ cs) (finished o ∷ slots) w keeps m =
      let k = run_nth-Kept n cs slots w keeps.1 m.1 in
      record { same_world = k.same_world; matches = (m.0, k.matches); owes = k.owes }

  record Ended (w : W) (cs : List ToolCall) (slots : List Slot) (e : Effect (List ToolOutput) W)
      : Type 0 where
    same_world : e.world ≡ w
    results : e.outputs ≡ map (λ c. (invoke_tool preview tools c w).outputs) cs
    owes : (p : TraceEvent → Bool) → count p e.events ≡ owed p w slots

  run_rest-Ended :
      (cs : List ToolCall) (slots : List Slot) (w : W)
      → All KeepsWorld cs
      → Matches w cs slots
      → Ended w cs slots (run_rest preview tools slots w)
  unfolding run_rest
  run_rest-Ended [] [] w keeps m = record { same_world = refl; results = refl; owes = λ p. refl }
  run_rest-Ended [] (_ ∷ slots) w keeps m = elim m [ ]
  run_rest-Ended (c ∷ cs) [] w keeps m = elim m [ ]
  run_rest-Ended (c ∷ cs) (pending d ∷ slots) w keeps m =
      let same = ap (λ x. (invoke_tool preview tools x w).world) (sym m.0) ∙ keeps.0 w in
      let k = run_rest-Ended cs slots w keeps.1 m.1 in
      subst (λ v. Ended w (c ∷ cs) (pending d ∷ slots) (after d v)) (sym same)
        (record {
          same_world = k.same_world;
          results = rw (sym m.0, k.results);
          owes = λ p.
              count-append p (invoke_tool preview tools d w).events
                (run_rest preview tools slots w).events
              ∙ ap (λ n. count p (invoke_tool preview tools d w).events + n) (k.owes p);
        })
    where
      after : ToolCall → W → Effect (List ToolOutput) W
      after x v = record {
        outputs =
            (invoke_tool preview tools x w).outputs ∷ (run_rest preview tools slots v).outputs;
        events = (invoke_tool preview tools x w).events ++ (run_rest preview tools slots v).events;
        world = (run_rest preview tools slots v).world;
      }
  run_rest-Ended (c ∷ cs) (finished o ∷ slots) w keeps m =
      let k = run_rest-Ended cs slots w keeps.1 m.1 in
      record { same_world = k.same_world; results = rw (m.0, k.results); owes = k.owes }

  gather-Ended :
      (picks : List ℕ) (cs : List ToolCall) (slots : List Slot) (w : W)
      → All KeepsWorld cs
      → Matches w cs slots
      → Ended w cs slots (gather preview tools picks slots w)
  unfolding gather
  gather-Ended [] cs slots w keeps m = run_rest-Ended cs slots w keeps m
  gather-Ended (n ∷ picks) cs slots w keeps m =
      let k = run_nth-Kept n cs slots w keeps m in
      let e = run_nth preview tools n slots w in
      subst (λ v. Ended w cs slots (after e v)) (sym k.same_world)
        (let g = gather-Ended picks cs e.outputs w keeps k.matches in
          record {
            same_world = g.same_world;
            results = g.results;
            owes = λ p.
                count-append p e.events (gather preview tools picks e.outputs w).events
                ∙ ap (λ n. count p e.events + n) (g.owes p)
                ∙ k.owes p;
          })
    where
      after : Effect (List Slot) W → W → Effect (List ToolOutput) W
      after e v = record {
        outputs = (gather preview tools picks e.outputs v).outputs;
        events = e.events ++ (gather preview tools picks e.outputs v).events;
        world = (gather preview tools picks e.outputs v).world;
      }

  all_pending : (cs : List ToolCall) (w : W) → Matches w cs (map pending cs)
  all_pending [] w = tt
  all_pending (c ∷ cs) w = (refl, all_pending cs w)

  -- none picked: the calls run in the order of the list
  run_rest-sequential :
      (cs : List ToolCall) (w : W) → run_rest preview tools (map pending cs) w ≡ sequential cs w
  unfolding run_rest sequential
  run_rest-sequential [] w = refl
  run_rest-sequential (c ∷ cs) w = rw (run_rest-sequential cs (invoke_tool preview tools c w).world)

  -- A concurrent run of calls that keep the state agrees with the calls one after the other, whatever
  -- order the environment picks.
  pub gather-Agrees :
      (picks : List ℕ) (cs : List ToolCall) (w : W)
      → All KeepsWorld cs
      → Agrees (gather preview tools picks (map pending cs) w) (sequential cs w)
  gather-Agrees picks cs w keeps =
      let g = gather-Ended picks cs (map pending cs) w keeps (all_pending cs w) in
      let r = run_rest-Ended cs (map pending cs) w keeps (all_pending cs w) in
      subst (Agrees (gather preview tools picks (map pending cs) w)) (run_rest-sequential cs w)
        (record {
          same_outputs = g.results ∙ sym r.results;
          same_events = λ p. g.owes p ∙ sym (r.owes p);
          same_state = g.same_world ∙ sym r.same_world;
        })
