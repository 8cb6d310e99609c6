-- ===== src/Executor/Batching.antt =====
-- How _dispatch_tool_calls groups the calls of a turn into runs.
use module_agents_part.Prelude.{
  ◌≡◌, refl, sym, ap, ◌∙◌, String, true, List, [], ◌∷◌, ◌++◌, map, length, All, All-append, ◌⊎◌,
  inl, inr, if_ind,
}
use module_agents_part.Prelude.Json.{Fields}
use module_agents_part.Executor.Tool.{Registry}
use module_agents_part.Executor.Dispatch.{
  ToolCall, Indexed, Policy, never, always, respect_tool_flags, enumerate, is_parallel_safe, flush,
  group_one, group, runs_of,
}

abbrev pub joined {ℓ} : {A : Type ℓ} → List (List A) → List A
joined [] = []
joined (xs ∷ xss) = xs ++ joined xss

pub append-nil {ℓ} : {A : Type ℓ} (xs : List A) → xs ++ [] ≡ xs
append-nil [] = refl
append-nil (x ∷ xs) = ap (λ r. x ∷ r) (append-nil xs)

pub append_assoc {ℓ} : {A : Type ℓ} (xs ys zs : List A) → (xs ++ ys) ++ zs ≡ xs ++ (ys ++ zs)
append_assoc [] ys zs = refl
append_assoc (x ∷ xs) ys zs = ap (λ r. x ∷ r) (append_assoc xs ys zs)

joined_singletons {ℓ} : {A : Type ℓ} (xs : List A) → joined (map (λ x. x ∷ []) xs) ≡ xs
joined_singletons [] = refl
joined_singletons (x ∷ xs) = ap (λ r. x ∷ r) (joined_singletons xs)

module _ {W : Type 0} (preview : Fields → String) (tools : Registry W) where
  joined-append : (xss yss : List (List Indexed)) → joined (xss ++ yss) ≡ joined xss ++ joined yss
  joined-append [] yss = refl
  joined-append (xs ∷ xss) yss =
      ap (λ r. xs ++ r) (joined-append xss yss) ∙ sym (append_assoc xs (joined xss) (joined yss))

  -- the calls that the loop has taken so far, in order
  abbrev taken : List (List Indexed) × List Indexed → List Indexed
  taken s = joined s.0 ++ s.1

  joined-flush :
      (runs : List (List Indexed)) (current : List Indexed)
      → joined (flush preview tools runs current) ≡ joined runs ++ current
  joined-flush runs [] = sym (append-nil (joined runs))
  joined-flush runs (c ∷ cs) =
      joined-append runs ((c ∷ cs) ∷ []) ∙ ap (λ r. joined runs ++ r) (append-nil (c ∷ cs))

  taken-group_one :
      (x : Indexed) (s : List (List Indexed) × List Indexed)
      → taken (group_one preview tools x s) ≡ taken s ++ x ∷ []
  unfolding group_one
  taken-group_one (i, c) (runs, current) =
      if_ind (λ s. taken s ≡ (joined runs ++ current) ++ (i, c) ∷ [])
        (is_parallel_safe preview tools c.name)
        (λ _. sym (append_assoc (joined runs) current ((i, c) ∷ [])))
        (λ _.
          append-nil (joined (flush preview tools runs current ++ ((i, c) ∷ []) ∷ []))
          ∙ joined-append (flush preview tools runs current) (((i, c) ∷ []) ∷ [])
          ∙ ap (λ r. r ++ (i, c) ∷ []) (joined-flush runs current))

  joined-group :
      (xs : List Indexed) (s : List (List Indexed) × List Indexed)
      → joined (group preview tools xs s) ≡ taken s ++ xs
  unfolding group
  joined-group [] s = joined-flush s.0 s.1 ∙ sym (append-nil (taken s))
  joined-group (x ∷ xs) s =
      joined-group xs (group_one preview tools x s)
      ∙ ap (λ r. r ++ xs) (taken-group_one x s)
      ∙ append_assoc (taken s) (x ∷ []) xs

  -- Under every policy the runs, one after the other, are the calls of the turn with their indices: no
  -- call is lost or doubled, and none overtakes another.
  pub joined-runs_of :
      (policy : Policy) (calls : List ToolCall)
      → joined (runs_of preview tools policy calls) ≡ enumerate 0 calls
  unfolding runs_of
  joined-runs_of never calls = joined_singletons (enumerate 0 calls)
  joined-runs_of always calls = append-nil (enumerate 0 calls)
  joined-runs_of respect_tool_flags calls = joined-group (enumerate 0 calls) ([], [])

  abbrev pub IsSafe : Indexed → Type 0
  IsSafe x = is_parallel_safe preview tools x.1.name ≡ true

  -- a call alone, or safe calls only
  abbrev pub IsSafeRun : List Indexed → Type 0
  IsSafeRun run = (length run ≡ 1) ⊎ All IsSafe run

  flush-IsSafeRun :
      (runs : List (List Indexed)) (current : List Indexed)
      → All IsSafeRun runs
      → All IsSafe current
      → All IsSafeRun (flush preview tools runs current)
  flush-IsSafeRun runs [] ok safe = ok
  flush-IsSafeRun runs (c ∷ cs) ok safe =
      All-append IsSafeRun runs ((c ∷ cs) ∷ []) ok (inr safe, tt)

  abbrev IsGrouped : List (List Indexed) × List Indexed → Type 0
  IsGrouped s = All IsSafeRun s.0 × All IsSafe s.1

  group_one-IsGrouped :
      (x : Indexed) (s : List (List Indexed) × List Indexed)
      → IsGrouped s
      → IsGrouped (group_one preview tools x s)
  unfolding group_one
  group_one-IsGrouped (i, c) (runs, current) h =
      if_ind IsGrouped (is_parallel_safe preview tools c.name)
        (λ e. (h.0, All-append IsSafe current ((i, c) ∷ []) h.1 (e, tt)))
        (λ _. (
          All-append IsSafeRun (flush preview tools runs current) (((i, c) ∷ []) ∷ [])
              (flush-IsSafeRun runs current h.0 h.1) (inl refl, tt),
          tt,
        ))

  group-IsSafeRun :
      (xs : List Indexed) (s : List (List Indexed) × List Indexed)
      → IsGrouped s
      → All IsSafeRun (group preview tools xs s)
  unfolding group
  group-IsSafeRun [] s h = flush-IsSafeRun s.0 s.1 h.0 h.1
  group-IsSafeRun (x ∷ xs) s h =
      group-IsSafeRun xs (group_one preview tools x s) (group_one-IsGrouped x s h)

  -- Under the default policy a run of other than one call holds only calls of tools that are registered
  -- as safe to run in parallel.
  pub runs_of-IsSafeRun :
      (calls : List ToolCall) → All IsSafeRun (runs_of preview tools respect_tool_flags calls)
  unfolding runs_of
  runs_of-IsSafeRun calls = group-IsSafeRun (enumerate 0 calls) ([], []) (tt, tt)
