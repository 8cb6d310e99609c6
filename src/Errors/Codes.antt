-- ===== src/Errors/Codes.antt =====
-- The canonical codes of errors.py and the check of SovereignError.
use module_agents_part.Prelude.{
  ◌≡◌, refl, sym, subst, String, Bool, true, List, [], ◌∷◌, All, is_some, inl, inr,
}
use text.Mathlib.Text.{starts_with}
use module_agents_part.Session.State.{elem}
use module_agents_part.Session.Transitions.{elem_head}
use module_agents_part.Errors.{
  ErrorCategory, sys, val, io, ext, tool, category_value, expected_prefix, sovereign_error,
  canonical_codes,
}

elem_all :
    (p : String → Bool) (x : String) (xs : List String)
    → All (λ y. p y ≡ true) xs
    → elem x xs ≡ true
    → p x ≡ true
elem_all p x [] a e = cc e
elem_all p x (y ∷ ys) a e = elim (elem_head x y ys e) [
  | inl same ↦ subst (λ z. p z ≡ true) (sym same) a.0
  | inr later ↦ elem_all p x ys a.1 later
]

prefixed :
    (c : ErrorCategory)
    → All (λ code. starts_with code (expected_prefix c) ≡ true) (canonical_codes c)
unfolding canonical_codes category_value
prefixed sys = (refl, (refl, (refl, (refl, (refl, tt)))))
prefixed val = (refl, (refl, (refl, (refl, (refl, (refl, (refl, tt)))))))
prefixed io = (refl, (refl, (refl, (refl, (refl, (refl, (refl, tt)))))))
prefixed ext = (refl, (refl, (refl, (refl, (refl, tt)))))
prefixed tool = (refl, (refl, (refl, (refl, tt))))

-- An error can be made with every canonical code of its category.
canonical-accepted :
    (c : ErrorCategory) (code message : String) (retriable : Bool)
    → elem code (canonical_codes c) ≡ true
    → is_some (sovereign_error code c message retriable) ≡ true
unfolding sovereign_error
canonical-accepted c code message retriable h =
    rw
      (
        elem_all (λ x. starts_with x (expected_prefix c)) code (canonical_codes c) (prefixed c) h,
        sovereign_error,
      )
      refl
