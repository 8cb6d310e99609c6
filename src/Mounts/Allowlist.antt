-- ===== src/Mounts/Allowlist.antt =====
-- orchestrator/mounts.py: the allowlist and validate_mount. A resolved path is the list of its
-- components. The file system is a parameter; which one of several blocked components a refusal names
-- depends on the order of a set, and is left out.
use module_agents_part.Prelude.{
  String, Bool, true, false, Option, none, some, List, [], ◌∷◌, ◌++◌, not, ◌||◌, ◌==◌,
  if◌then◌else◌,
}

-- DEFAULT_BLOCKED_PATTERNS
abbrev pub default_blocked_patterns : List String
default_blocked_patterns =
    ".ssh" ∷ ".gnupg" ∷ ".gpg" ∷ ".aws" ∷ ".azure" ∷ ".gcloud" ∷ ".kube" ∷ ".docker" ∷ "credentials"
    ∷ ".env" ∷ ".netrc" ∷ ".npmrc" ∷ ".pypirc" ∷ "id_rsa" ∷ "id_ed25519" ∷ "private_key" ∷ ".secret"
    ∷ ".pki" ∷ []

pub record AllowedRoot : Type 0 where
  pub path : String
  pub allow_read_write : Bool
  pub description : String

pub record MountAllowlist : Type 0 where
  pub allowed_roots : List AllowedRoot
  pub blocked_patterns : List String
  pub non_main_read_only : Bool

-- MountAllowlist.effective_blocked
abbrev pub effective_blocked : MountAllowlist → List String
effective_blocked al = default_blocked_patterns ++ al.blocked_patterns

pub record AdditionalMount : Type 0 where
  pub host_path : String
  pub container_path : String

abbrev pub Parts : Type 0
Parts = List String

-- What the file system says of the host path, its `~` expanded.
pub data Look : Type 0 where
  absent : Look
  unresolvable : String → Look
  resolves : Parts → Look

pub record FileSystem : Type 0 where
  pub look : String → Look
  -- root.path.resolve().parts, which never fails
  pub resolve : String → Parts

pub data Reason : Type 0 where
  ok : Reason
  does_not_exist : String → Reason
  does_not_resolve : String → Reason
  blocked_component : Reason
  outside_roots : Reason

pub record MountValidationResult : Type 0 where
  pub allowed : Bool
  pub reason : Reason
  pub resolved_host : Option Parts
  pub readonly : Bool

-- part in blocked
unfoldable pub contains : String → List String → Bool
contains x [] = false
contains x (y ∷ ys) = (x == y) || contains x ys

-- the loop over the components
unfoldable pub any_blocked : List String → Parts → Bool
unfolding contains
any_blocked blocked [] = false
any_blocked blocked (p ∷ ps) = contains p blocked || any_blocked blocked ps

-- resolved.relative_to(root) does not raise
unfoldable pub is_under : Parts → Parts → Bool
is_under ps [] = true
is_under [] (r ∷ rs) = false
is_under (p ∷ ps) (r ∷ rs) = let rest = is_under ps rs in if p == r then rest else false

-- the loop over the roots
unfoldable pub matching_root : FileSystem → Parts → List AllowedRoot → Option AllowedRoot
unfolding is_under
matching_root fs ps [] = none
matching_root fs ps (r ∷ rs) =
    let rest = matching_root fs ps rs in if is_under ps (fs.resolve r.path) then some r else rest

abbrev pub refused : Reason → Option Parts → MountValidationResult
refused reason resolved = record {
  allowed = false;
  reason = reason;
  resolved_host = resolved;
  readonly = true;
}

-- validate_mount, once the path is resolved
unfoldable pub validate_resolved : FileSystem → MountAllowlist → Parts → MountValidationResult
unfolding any_blocked matching_root
validate_resolved fs al ps =
    if any_blocked (effective_blocked al) ps
    then refused blocked_component (some ps)
    else elim (matching_root fs ps al.allowed_roots) [
      | none ↦ refused outside_roots (some ps)
      | some root ↦ record {
        allowed = true;
        reason = ok;
        resolved_host = some ps;
        readonly = not root.allow_read_write;
      }
    ]

-- validate_mount, from the look at the host path
unfoldable pub validate_look : FileSystem → MountAllowlist → String → Look → MountValidationResult
unfolding validate_resolved
validate_look fs al host absent = refused (does_not_exist host) none
validate_look fs al host (unresolvable text) = refused (does_not_resolve text) none
validate_look fs al host (resolves ps) = validate_resolved fs al ps

unfoldable pub validate_mount :
    FileSystem → AdditionalMount → MountAllowlist → MountValidationResult
unfolding validate_look
validate_mount fs requested al =
    validate_look fs al requested.host_path (fs.look requested.host_path)

-- require_mount, with the allowlist given: the result, or the ValidationError with the reason
unfoldable pub require_mount :
    FileSystem → AdditionalMount → MountAllowlist → MountValidationResult × Option Reason
unfolding validate_mount
require_mount fs requested al =
    let result = validate_mount fs requested al in
    if result.allowed then (result, none) else (result, some result.reason)
