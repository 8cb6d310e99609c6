-- ===== src/Executor/Sequential.antt =====
-- What a dispatched turn comes to: the calls one after the other.
use module_agents_part.Prelude.{
  ℕ, suc, ◌≡◌, refl, sym, ap, ◌∙◌, subst, String, Option, none, some, List, [], ◌∷◌, ◌++◌, map,
  length, All, count, count-append, arith, ◌⊎◌, inl, inr,
}
use module_agents_part.Prelude.Json.{Fields}
use module_agents_part.Executor.Tool.{Registry}
use module_agents_part.Executor.Dispatch.{
  ToolCall, ToolOutput, Effect, Indexed, Policy, invoke_tool, perform, perform_all, dispatch, store,
  store_at, blanks, populated, enumerate, runs_of, gather, pending,
}
use module_agents_part.Executor.Batching.{joined, joined-runs_of, append_assoc}
use module_agents_part.Executor.Pool.{sequential, KeepsWorld, Agrees, gather-Agrees}

abbrev pub call_of : Indexed → ToolCall
call_of x = x.1

-- storing one by one
pub store-append :
    (xs ys : List Indexed) (os ps : List ToolOutput) (outs : List (Option ToolOutput))
    → length os ≡ length xs
    → store (xs ++ ys) (os ++ ps) outs ≡ store ys ps (store xs os outs)
unfolding store
store-append [] ys [] ps outs h = refl
store-append [] ys (o ∷ os) ps outs h = absurd (omega (arith, h))
store-append (x ∷ xs) ys [] ps outs h = absurd (omega (arith, h))
store-append ((i, c) ∷ xs) ys (o ∷ os) ps outs h =
    store-append xs ys os ps (store_at i o outs) (omega (arith, h))

store_at-append :
    (pre rest : List (Option ToolOutput)) (o : ToolOutput) (b : Option ToolOutput)
    → store_at (length pre) o (pre ++ b ∷ rest) ≡ pre ++ some o ∷ rest
unfolding store_at
store_at-append [] rest o b = refl
store_at-append (x ∷ pre) rest o b = ap (λ r. x ∷ r) (store_at-append pre rest o b)

length-snoc :
    (pre : List (Option ToolOutput)) (x : Option ToolOutput)
    → length (pre ++ x ∷ []) ≡ suc (length pre)
length-snoc [] x = refl
length-snoc (y ∷ pre) x = ap suc (length-snoc pre x)

-- every slot is stored once
pub store-enumerate :
    (cs : List ToolCall) (os : List ToolOutput) (pre : List (Option ToolOutput))
    → length os ≡ length cs
    → store (enumerate (length pre) cs) os (pre ++ blanks cs) ≡ pre ++ map some os
unfolding store enumerate blanks
store-enumerate [] [] pre h = refl
store-enumerate [] (o ∷ os) pre h = absurd (omega (arith, h))
store-enumerate (c ∷ cs) [] pre h = absurd (omega (arith, h))
store-enumerate (c ∷ cs) (o ∷ os) pre h =
    ap (store (enumerate (suc (length pre)) cs) os)
      (store_at-append pre (blanks cs) o none ∙ sym (append_assoc pre (some o ∷ []) (blanks cs)))
    ∙ ap (λ n. store (enumerate n cs) os ((pre ++ some o ∷ []) ++ blanks cs))
        (sym (length-snoc pre (some o)))
    ∙ store-enumerate cs os (pre ++ some o ∷ []) (omega (arith, h))
    ∙ append_assoc pre (some o ∷ []) (map some os)

pub populated-some : (os : List ToolOutput) → populated (map some os) ≡ some os
unfolding populated
populated-some [] = refl
populated-some (o ∷ os) = rw (populated-some os)

calls_of-enumerate : (i : ℕ) (cs : List ToolCall) → map call_of (enumerate i cs) ≡ cs
unfolding enumerate
calls_of-enumerate i [] = refl
calls_of-enumerate i (c ∷ cs) = ap (λ r. c ∷ r) (calls_of-enumerate (suc i) cs)

map-append : (xs ys : List Indexed) → map call_of (xs ++ ys) ≡ map call_of xs ++ map call_of ys
map-append [] ys = refl
map-append (x ∷ xs) ys = ap (λ r. x.1 ∷ r) (map-append xs ys)

length-calls_of : (xs : List Indexed) → length (map call_of xs) ≡ length xs
length-calls_of [] = refl
length-calls_of (x ∷ xs) = ap suc (length-calls_of xs)

module _ {W : Type 0} (preview : Fields → String) (tools : Registry W) where
  length-sequential :
      (cs : List ToolCall) (w : W) → length (sequential preview tools cs w).outputs ≡ length cs
  unfolding sequential
  length-sequential [] w = refl
  length-sequential (c ∷ cs) w = ap suc (length-sequential cs (invoke_tool preview tools c w).world)

  -- effects of one list, then of another
  abbrev then_ :
      Effect (List ToolOutput) W → Effect (List ToolOutput) W → Effect (List ToolOutput) W
  then_ e f = record {
    outputs = e.outputs ++ f.outputs;
    events = e.events ++ f.events;
    world = f.world;
  }

  sequential-append :
      (xs ys : List ToolCall) (w : W)
      → sequential preview tools (xs ++ ys) w
        ≡ then_
            (sequential preview tools xs w)
            (sequential preview tools ys (sequential preview tools xs w).world)
  unfolding sequential
  sequential-append [] ys w = refl
  sequential-append (c ∷ cs) ys w =
      let e = invoke_tool preview tools c w in
      let first = sequential preview tools cs e.world in
      let second = sequential preview tools ys first.world in
      rw (sequential-append cs ys e.world, append_assoc e.events first.events second.events)

  -- a run that does what its calls do one after the other
  abbrev pub IsOrderly : List Indexed → Type 0
  IsOrderly run = (length run ≡ 1) ⊎ All (KeepsWorld preview tools) (map call_of run)

  pub perform-Agrees :
      (picks : List ℕ) (run : List Indexed) (w : W)
      → IsOrderly run
      → Agrees (perform preview tools picks run w) (sequential preview tools (map call_of run) w)
  unfolding perform sequential
  perform-Agrees picks [] w h = gather-Agrees preview tools picks [] w tt
  perform-Agrees picks ((i, c) ∷ []) w h = record {
    same_outputs = refl;
    same_events = λ p. omega (arith, count-append p (invoke_tool preview tools c w).events []);
    same_state = refl;
  }
  perform-Agrees picks (x ∷ y ∷ run) w (inl h) = absurd (omega (arith, h))
  perform-Agrees picks (x ∷ y ∷ run) w (inr h) =
      subst
        (λ cs.
          Agrees (gather preview tools picks cs w)
            (sequential preview tools (map call_of (x ∷ y ∷ run)) w))
        (slots (x ∷ y ∷ run)) (gather-Agrees preview tools picks (map call_of (x ∷ y ∷ run)) w h)
    where
      slots :
          (xs : List Indexed) → map pending (map call_of xs) ≡ map (λ (x : Indexed). pending x.1) xs
      slots [] = refl
      slots (x ∷ xs) = ap (λ r. pending x.1 ∷ r) (slots xs)

  -- all the stores of the loop, as one
  abbrev stored :
      List (List Indexed) → List (Option ToolOutput) → W → Effect (List (Option ToolOutput)) W
  stored runs outs w =
      let e = sequential preview tools (map call_of (joined runs)) w in
      record { outputs = store (joined runs) e.outputs outs; events = e.events; world = e.world }

  perform_all-Agrees :
      (schedule : List Indexed → W → List ℕ) (runs : List (List Indexed))
      (outs : List (Option ToolOutput)) (w : W)
      → All IsOrderly runs
      → Agrees (perform_all preview tools schedule runs outs w) (stored runs outs w)
  unfolding perform_all
  perform_all-Agrees schedule [] outs w ok =
      unfold sequential store in
      record { same_outputs = refl; same_events = λ p. refl; same_state = refl }
  perform_all-Agrees schedule (run ∷ runs) outs w ok =
      let e = perform preview tools (schedule run w) run w in
      let s = sequential preview tools (map call_of run) w in
      let a = perform-Agrees (schedule run w) run w ok.0 in
      let outs' = store run e.outputs outs in
      let p = perform_all preview tools schedule runs outs' e.world in
      let rest =
        subst (λ v. Agrees p (stored runs (store run s.outputs outs) v)) a.same_state
          (subst (λ os. Agrees p (stored runs (store run os outs) e.world)) a.same_outputs
            (perform_all-Agrees schedule runs outs' e.world ok.1)) in
      let t = sequential preview tools (map call_of (joined runs)) s.world in
      let split =
        ap (λ cs. sequential preview tools cs w) (map-append run (joined runs))
        ∙ sequential-append (map call_of run) (map call_of (joined runs)) w in
      subst
        (λ (f : Effect (List ToolOutput) W).
          Agrees (perform_all preview tools schedule (run ∷ runs) outs w) (record {
            outputs = store (run ++ joined runs) f.outputs outs;
            events = f.events;
            world = f.world;
          }))
        (sym split)
        (record {
          same_outputs =
              rest.same_outputs
              ∙ sym (
                  store-append run (joined runs) s.outputs t.outputs outs
                    (length-sequential (map call_of run) w ∙ length-calls_of run));
          same_events = λ test. omega (
            arith,
            count-append test e.events p.events,
            count-append test s.events t.events,
            a.same_events test,
            rest.same_events test,
          );
          same_state = rest.same_state;
        })

  -- what the turn comes to, when every run is orderly
  abbrev pub done_in_order : List ToolCall → W → Effect (Option (List ToolOutput)) W
  done_in_order calls w =
      let e = sequential preview tools calls w in
      record { outputs = some e.outputs; events = e.events; world = e.world }

  pub dispatch-Agrees :
      (schedule : List Indexed → W → List ℕ) (policy : Policy) (calls : List ToolCall) (w : W)
      → All IsOrderly (runs_of preview tools policy calls)
      → Agrees (dispatch preview tools schedule policy calls w) (done_in_order calls w)
  unfolding dispatch
  dispatch-Agrees schedule policy [] w ok =
      unfold sequential in
      record { same_outputs = refl; same_events = λ p. refl; same_state = refl }
  dispatch-Agrees schedule policy (c ∷ cs) w ok =
      let calls = c ∷ cs in
      let s = sequential preview tools calls w in
      let a =
        subst
          (λ xs.
            Agrees
              (perform_all preview tools schedule (runs_of preview tools policy calls)
                (blanks calls) w)
              (record {
                outputs =
                    store xs (sequential preview tools (map call_of xs) w).outputs (blanks calls);
                events = (sequential preview tools (map call_of xs) w).events;
                world = (sequential preview tools (map call_of xs) w).world;
              }))
          (joined-runs_of preview tools policy calls)
          (perform_all-Agrees schedule (runs_of preview tools policy calls) (blanks calls) w ok) in
      let plain = ap (λ ds. sequential preview tools ds w) (calls_of-enumerate 0 calls) in
      record {
        same_outputs =
            ap populated (
              a.same_outputs
              ∙ ap
                  (λ (f : Effect (List ToolOutput) W).
                    store (enumerate 0 calls) f.outputs (blanks calls))
                  plain
              ∙ store-enumerate calls s.outputs [] (length-sequential calls w))
            ∙ populated-some s.outputs;
        same_events = λ test.
            a.same_events test ∙ ap (λ (f : Effect (List ToolOutput) W). count test f.events) plain;
        same_state = a.same_state ∙ ap (λ (f : Effect (List ToolOutput) W). f.world) plain;
      }
