-- ===== src/Prelude/Json.antt =====
-- JSON values, as `json.load` gives them; the program's documents hold no floats.
use Prim.Native.String.{String}
use mathlib.Core.Bool.{Bool, true, false, not}
use mathlib.Core.Option.{Option, none, some}
use text.Mathlib.Text.{◌==◌}
use module_agents_part.Prelude.Tests.{if◌then◌else◌, eqb}
use module_agents_part.Prelude.Int.{ℤ, pos, negsuc}

mutual
  pub data Json : Type 0 where
    null : Json
    bool : Bool → Json
    num : ℤ → Json
    str : String → Json
    arr : Items → Json
    obj : Fields → Json

  pub data Items : Type 0 where
    nil : Items
    cons : Json → Items → Items

  pub data Fields : Type 0 where
    end : Fields
    field : String → Json → Fields → Fields

-- d.get(k)
unfoldable pub member : String → Fields → Option Json
member k end = none
member k (field j v d) = if j == k then some v else member k d

-- null for None
abbrev pub optional_str : Option String → Json
optional_str none = null
optional_str (some s) = str s

-- bool(v)
unfoldable pub truthy : Json → Bool
truthy null = false
truthy (bool b) = b
truthy (num (pos n)) = not (eqb n 0)
truthy (num (negsuc n)) = true
truthy (str s) = not (s == "")
truthy (arr nil) = false
truthy (arr (cons v vs)) = true
truthy (obj end) = false
truthy (obj (field k v d)) = true
