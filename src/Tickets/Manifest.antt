-- ===== src/Tickets/Manifest.antt =====
-- tickets/manifest.py. Files are a dictionary from paths to contents; SHA-256 is a parameter.
use module_agents_part.Prelude.{
  ℕ, ◌≡◌, refl, ◌↔◌, String, Bool, true, false, Option, none, some, List, [], ◌∷◌, arith, All, ◌==◌,
  eq_iff, if◌then◌else◌,
}
use module_agents_part.Prelude.Dict.{Dict, get}
use module_agents_part.Prelude.Json.{Json}

pub record OutputRecord : Type 0 where
  pub path : String
  pub sha256 : String
  pub size_bytes : ℕ
  pub content_type : String

abbrev pub Time : Type 0
Time = ℕ

pub record Manifest : Type 0 where
  pub ticket_id : String
  pub operation : String
  pub started_at : Time
  pub completed_at : Time
  pub duration_ms : ℕ
  pub outputs : List OutputRecord
  pub metrics : Json

-- the contents of the files
abbrev pub Files : Type 0
Files = Dict String

module _ (sha256 : String → String) where
  -- the body of the loop: the file exists and its digest is the recorded one
  abbrev pub record_ok : Files → OutputRecord → Bool
  record_ok files r = elim (get r.path files) [
    | none ↦ false
    | some content ↦ sha256 content == r.sha256
  ]

  -- the loop of `verify`
  unfoldable pub verify_outputs : Files → List OutputRecord → Bool
  verify_outputs files [] = true
  verify_outputs files (r ∷ rs) =
      let rest = verify_outputs files rs in if record_ok files r then rest else false

  -- Manifest.verify
  unfoldable pub verify : Files → Manifest → Bool
  unfolding verify_outputs
  verify files m = verify_outputs files m.outputs

  -- what a verified manifest promises of each output
  abbrev pub IsIntact : Files → OutputRecord → Type 0
  IsIntact files r =
      (content : String) × (get r.path files ≡ some content) × (sha256 content ≡ r.sha256)

  intact :
      (files : Files) (r : OutputRecord) (o : Option String)
      → get r.path files ≡ o
      → (elim o [ none ↦ false | some content ↦ sha256 content == r.sha256 ]) ≡ true
      → IsIntact files r
  intact files r none e h = cc
  intact files r (some c) e h = (c, e, (eq_iff (sha256 c) r.sha256).0 h)

  verified_outputs :
      (files : Files) (rs : List OutputRecord)
      → verify_outputs files rs ≡ true
      → All (IsIntact files) rs
  unfolding verify_outputs
  verified_outputs files [] h = tt
  verified_outputs files (r ∷ rs) h = (
    intact files r (get r.path files) refl (ground (arith, h)),
    verified_outputs files rs (ground (arith, h)),
  )

  pub intact_verified :
      (files : Files) (rs : List OutputRecord)
      → All (IsIntact files) rs
      → verify_outputs files rs ≡ true
  unfolding verify_outputs
  intact_verified files [] h = refl
  intact_verified files (r ∷ rs) h =
      let (c, e, d) = h.0 in
      ground (arith, e, eq_iff (sha256 c) r.sha256, intact_verified files rs h.1)

  -- A manifest verifies exactly when each listed output exists and has the recorded digest.
  verify_iff :
      (files : Files) (m : Manifest) → (verify files m ≡ true) ↔ All (IsIntact files) m.outputs
  unfolding verify
  verify_iff files m = (verified_outputs files m.outputs, intact_verified files m.outputs)
