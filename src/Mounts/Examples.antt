-- ===== src/Mounts/Examples.antt =====
-- The theorems about mounts at a concrete file system.
use module_agents_part.Prelude.{◌≡◌, refl, true, false, [], ◌∷◌, if◌then◌else◌, ◌==◌}
use module_agents_part.Mounts.Allowlist.{
  MountAllowlist, AdditionalMount, FileSystem, absent, resolves, Parts, validate_mount, contains,
  any_blocked, is_under, matching_root,
}
use module_agents_part.Mounts.Safety.{Grant, allowed-Grant}

abbrev data_dir : Parts
data_dir = "/" ∷ "srv" ∷ "data" ∷ []

abbrev keys : Parts
keys = "/" ∷ "srv" ∷ "data" ∷ ".ssh" ∷ "id_rsa" ∷ []

abbrev fs : FileSystem
fs = record {
  look = λ p.
      if p == "/srv/data"
      then resolves data_dir
      else if p == "/srv/keys"
      then resolves keys
      else absent;
  resolve = λ p. "/" ∷ "srv" ∷ [];
}

abbrev allowlist : MountAllowlist
allowlist = record {
  allowed_roots = record { path = "/srv"; allow_read_write = true; description = "" } ∷ [];
  blocked_patterns = [];
  non_main_read_only = false;
}

abbrev data_mount : AdditionalMount
data_mount = record { host_path = "/srv/data"; container_path = "/data" }

abbrev key_mount : AdditionalMount
key_mount = record { host_path = "/srv/keys"; container_path = "/keys" }

allowed : (validate_mount fs data_mount allowlist).allowed ≡ true
unfolding validate_mount contains any_blocked is_under matching_root
allowed = refl

allowed-Grant_example :
    Grant fs data_mount allowlist (validate_mount fs data_mount allowlist).readonly
allowed-Grant_example = allowed-Grant fs data_mount allowlist allowed
