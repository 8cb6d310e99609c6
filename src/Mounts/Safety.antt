-- ===== src/Mounts/Safety.antt =====
-- Which mounts are granted.
use mathlib.Core.List.{Memᴰ}
use module_agents_part.Prelude.{
  ◌≡◌, refl, ap, String, Bool, true, false, not, some, List, [], ◌∷◌, ◌++◌, All, arith, if_ind,
  option_ind,
}
use module_agents_part.Mounts.Allowlist.{
  MountAllowlist, AllowedRoot, AdditionalMount, FileSystem, Look, absent, unresolvable, resolves,
  Parts, MountValidationResult, contains, any_blocked, is_under, matching_root, validate_resolved,
  validate_look, validate_mount, effective_blocked, default_blocked_patterns,
}

-- `root` is the first of the roots that the path is under
abbrev pub IsFirstRoot : FileSystem → Parts → List AllowedRoot → AllowedRoot → Type 0
IsFirstRoot fs ps roots root =
    (before : List AllowedRoot) × (after : List AllowedRoot) × (roots ≡ before ++ root ∷ after)
    × All (λ r. is_under ps (fs.resolve r.path) ≡ false) before
    × (is_under ps (fs.resolve root.path) ≡ true)

-- What a granted mount needs.
pub record Grant (fs : FileSystem) (requested : AdditionalMount) (al : MountAllowlist)
    (readonly : Bool) : Type 0 where
  pub parts : Parts
  pub resolved : fs.look requested.host_path ≡ resolves parts
  pub unblocked : All (λ p. contains p (effective_blocked al) ≡ false) parts
  pub root : AllowedRoot
  pub first : IsFirstRoot fs parts al.allowed_roots root
  pub mode : readonly ≡ not root.allow_read_write

none_blocked :
    (blocked : List String) (ps : Parts)
    → any_blocked blocked ps ≡ false
    → All (λ p. contains p blocked ≡ false) ps
unfolding any_blocked
none_blocked blocked [] h = tt
none_blocked blocked (p ∷ ps) h = (ground (arith, h), none_blocked blocked ps (ground (arith, h)))

found_root :
    (fs : FileSystem) (ps : Parts) (roots : List AllowedRoot) (root : AllowedRoot)
    → matching_root fs ps roots ≡ some root
    → IsFirstRoot fs ps roots root
unfolding matching_root
found_root fs ps [] root = λ e. cc
found_root fs ps (r ∷ rs) root =
    if_ind (λ o. o ≡ some root → IsFirstRoot fs ps (r ∷ rs) root) (is_under ps (fs.resolve r.path))
      (λ under e. ([], rs, cc, tt, cc))
      (λ outside e.
        let (before, after, split, skipped, under) = found_root fs ps rs root e in
        (r ∷ before, after, ap (λ xs. r ∷ xs) split, (outside, skipped), under))

granted :
    (fs : FileSystem) (requested : AdditionalMount) (al : MountAllowlist) (ps : Parts)
    → fs.look requested.host_path ≡ resolves ps
    → (validate_resolved fs al ps).allowed ≡ true
    → Grant fs requested al (validate_resolved fs al ps).readonly
unfolding validate_resolved
granted fs requested al ps resolved =
    if_ind Good (any_blocked (effective_blocked al) ps) (λ _ e. cc)
      (λ free.
        option_ind Good (matching_root fs ps al.allowed_roots) (λ _ e. cc)
          (λ root found _. record {
            parts = ps;
            resolved = resolved;
            unblocked = none_blocked (effective_blocked al) ps free;
            root = root;
            first = found_root fs ps al.allowed_roots root found;
            mode = refl;
          }))
  where
    Good : MountValidationResult → Type 0
    Good r = r.allowed ≡ true → Grant fs requested al r.readonly

look_granted :
    (fs : FileSystem) (requested : AdditionalMount) (al : MountAllowlist) (l : Look)
    → fs.look requested.host_path ≡ l
    → (validate_look fs al requested.host_path l).allowed ≡ true
    → Grant fs requested al (validate_look fs al requested.host_path l).readonly
unfolding validate_look
look_granted fs requested al absent e h = cc
look_granted fs requested al (unresolvable text) e h = cc
look_granted fs requested al (resolves ps) e h = granted fs requested al ps e h

-- If a mount is allowed, then its host path exists and resolves, no component of the resolved path is in
-- the default or the user's blocked patterns, and it is under an allowed root; it is read-only exactly
-- if the first such root of the list does not allow writing.
pub allowed-Grant :
    (fs : FileSystem) (requested : AdditionalMount) (al : MountAllowlist)
    → (validate_mount fs requested al).allowed ≡ true
    → Grant fs requested al (validate_mount fs requested al).readonly
unfolding validate_mount
allowed-Grant fs requested al h = look_granted fs requested al (fs.look requested.host_path) refl h

contains-append :
    (x : String) (xs ys : List String) → contains x xs ≡ true → contains x (xs ++ ys) ≡ true
unfolding contains
contains-append x [] ys = λ h. cc
contains-append x (z ∷ xs) ys = ground (arith, contains-append x xs ys)

blocked_by :
    (blocked : List String) (p : String) (ps : Parts)
    → Memᴰ p ps
    → contains p blocked ≡ true
    → any_blocked blocked ps ≡ true
unfolding any_blocked
blocked_by blocked p [] m h = elim m [ ]
blocked_by blocked p (q ∷ ps) (Memᴰ.head e) h = ground (arith, e, h)
blocked_by blocked p (q ∷ ps) (Memᴰ.tail m) h = ground (arith, blocked_by blocked p ps m h)

-- A path with a component in the default patterns is refused under every allowlist: a user can add to
-- the blocklist and cannot take from it.
default_blocked :
    (fs : FileSystem) (requested : AdditionalMount) (al : MountAllowlist) (ps : Parts) (p : String)
    → fs.look requested.host_path ≡ resolves ps
    → Memᴰ p ps
    → contains p default_blocked_patterns ≡ true
    → (validate_mount fs requested al).allowed ≡ false
unfolding validate_mount validate_look validate_resolved
default_blocked fs requested al ps p e m h = rw (
  e,
  blocked_by (effective_blocked al) p ps m
      (contains-append p default_blocked_patterns al.blocked_patterns h),
)
