-- ===== src/Ipc/Names.antt =====
-- The names of handoff files: what ipc/watcher.py takes out of a name is what its prefix and suffix enclose.
use Prim.Native.String.{◌++◌ as concat}
use Prim.Native.String.append
use Prim.Native.Char.{Char, code}
use text.Mathlib.Text.{starts_with}
use text.Mathlib.TextEquality.{starts_with_iff}
use module_agents_part.Prelude.{
  ℕ, ◌≡◌, refl, sym, ap, ◌∙◌, subst, String, Bool, true, false, eqb, ◌==◌, eq_iff, arith,
  if◌then◌else◌, Bool-cases, inl, inr,
}
use module_agents_part.Ipc.Consume.{File}
use module_agents_part.Ipc.Watcher.{
  ends_with, remove_prefix, remove_suffix, is_handoff, target_half,
}

-- the first character's number, 0 of the empty text
unfoldable head_code : String → ℕ
head_code String.[] = 0
head_code (String.◌∷◌ c s) = code c

-- no character of the text is a dot
unfoldable dotless : String → Bool
dotless String.[] = true
dotless (String.◌∷◌ c p) = let rest = dotless p in if eqb (code c) 46 then false else rest

no_dot_first :
    (c : Char) (x : String) → eqb (code c) 46 ≡ false → (String.◌∷◌ c x == ".json") ≡ false
unfolding head_code
no_dot_first c x h = elim (Bool-cases (String.◌∷◌ c x == ".json")) [
  | inl same ↦
      let dot : code c ≡ 46 = ap head_code ((eq_iff (String.◌∷◌ c x) ".json").0 same) in
      absurd (ground (arith, dot))
  | inr other ↦ other
]

-- the name of a text that ends in the suffix
remove_suffix-append : (t s : String) → ends_with s t ≡ true → concat (remove_suffix t s) t ≡ s
unfolding ends_with remove_suffix
remove_suffix-append t String.[] h = append.nil t ∙ sym ((eq_iff String.[] t).0 h)
remove_suffix-append t (String.◌∷◌ c s) h =
    go (String.◌∷◌ c s == t) refl (remove_suffix-append t s) h
  where
    go :
        (b : Bool)
        → (String.◌∷◌ c s == t) ≡ b
        → (ends_with s t ≡ true → concat (remove_suffix t s) t ≡ s)
        → (if b then true else ends_with s t) ≡ true
        → concat (if b then String.[] else String.◌∷◌ c (remove_suffix t s)) t ≡ String.◌∷◌ c s
    go true e ih h = append.nil t ∙ sym ((eq_iff (String.◌∷◌ c s) t).0 e)
    go false e ih h = append.cons c (remove_suffix t s) t ∙ ap (λ v. String.◌∷◌ c v) (ih h)

remove_prefix-append : (p v : String) → remove_prefix p (concat p v) ≡ v
unfolding remove_prefix
remove_prefix-append String.[] v = rw (append.nil v) (go v)
  where
    go : (v : String) → remove_prefix String.[] v ≡ v
    go v = refl
remove_prefix-append (String.◌∷◌ c p) v =
    ap (remove_prefix (String.◌∷◌ c p)) (append.cons c p v) ∙ remove_prefix-append p v

-- before a dotless text the suffix is taken off as without it
remove_suffix-dotless :
    (p u : String)
    → dotless p ≡ true
    → remove_suffix ".json" (concat p u) ≡ concat p (remove_suffix ".json" u)
unfolding dotless remove_suffix
remove_suffix-dotless String.[] u h =
    ap (remove_suffix ".json") (append.nil u) ∙ sym (append.nil (remove_suffix ".json" u))
remove_suffix-dotless (String.◌∷◌ c p) u h =
    let first : eqb (code c) 46 ≡ false = ground arith in
    let later : dotless p ≡ true = ground arith in
    ap (remove_suffix ".json") (append.cons c p u)
    ∙ (rw (no_dot_first c (concat p u) first)
        (ap (λ v. String.◌∷◌ c v) (remove_suffix-dotless p u later)))
    ∙ sym (append.cons c p (remove_suffix ".json" u))

ends_with-dotless :
    (p u : String)
    → dotless p ≡ true
    → ends_with (concat p u) ".json" ≡ true
    → ends_with u ".json" ≡ true
unfolding dotless ends_with
ends_with-dotless String.[] u h e = subst (λ v. ends_with v ".json" ≡ true) (append.nil u) e
ends_with-dotless (String.◌∷◌ c p) u h e =
    let first : eqb (code c) 46 ≡ false = ground arith in
    let later : dotless p ≡ true = ground arith in
    let whole = subst (λ v. ends_with v ".json" ≡ true) (append.cons c p u) e in
    ends_with-dotless p u later (
      subst (λ b. (if b then true else ends_with (concat p u) ".json") ≡ true)
        (no_dot_first c (concat p u) first) whole)

-- A handoff's name is the prefix, its target, and the suffix.
pub handoff_name :
    (f : File)
    → is_handoff f ≡ true
    → f.name ≡ concat "handoff_to_" (concat (target_half f) ".json")
unfolding is_handoff target_half dotless
handoff_name f h =
    let begins : starts_with f.name "handoff_to_" ≡ true = ground arith in
    let ends : ends_with f.name ".json" ≡ true = ground arith in
    let (u, e) = (starts_with_iff f.name "handoff_to_").0 begins in
    let tail =
      ends_with-dotless "handoff_to_" u refl
        (subst (λ n. ends_with n ".json" ≡ true) (sym e) ends) in
    let target : target_half f ≡ remove_suffix ".json" u =
      ap (λ n. remove_prefix "handoff_to_" (remove_suffix ".json" n)) (sym e)
      ∙ ap (remove_prefix "handoff_to_") (remove_suffix-dotless "handoff_to_" u refl)
      ∙ remove_prefix-append "handoff_to_" (remove_suffix ".json" u) in
    sym e
    ∙ ap (concat "handoff_to_")
        (sym (remove_suffix-append ".json" u tail) ∙ ap (λ v. concat v ".json") (sym target))
