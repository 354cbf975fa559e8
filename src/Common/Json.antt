-- ===== src/Common/Json.antt =====
-- JSON documents as Python reads them, and a dictionary's `get`.
use Prim.Native.Nat.{ℕ}
use Prim.Native.String.{String}
use mathlib.Core.Bool.{Bool, true, false}
use mathlib.Core.List.{List, [], ◌∷◌}
use mathlib.Core.Option.{Option, none, some}
use text.Mathlib.Text.{◌==◌ as str_eq}
use data_service.Common.Tests.{if◌then◌else◌}
use data_service.Common.Int.{ℤ, pos}

-- `float n k` is n / 2^k, as every finite double is.
mutual
  pub data Json : Type 0 where
    null : Json
    bool : Bool → Json
    int : ℤ → Json
    float : ℤ → ℕ → Json
    str : String → Json
    arr : Items → Json
    obj : Fields → Json

  pub data Items : Type 0 where
    nil : Items
    cons : Json → Items → Items

  pub data Fields : Type 0 where
    end : Fields
    field : String → Json → Fields → Fields

-- what `json.loads` makes of some bytes; `none` is an error
abbrev pub Document : Type 0
Document = Option Json

abbrev pub elements : Items → List Json
elements nil = []
elements (cons j js) = j ∷ elements js

abbrev pub of_elements : List Json → Items
of_elements [] = nil
of_elements (j ∷ js) = cons j (of_elements js)

abbrev pub get : String → Fields → Option Json
get k end = none
get k (field j v fs) = if str_eq j k then some v else get k fs

-- `isinstance(j, dict)`, and the dictionary
abbrev pub as_dict : Json → Option Fields
as_dict (obj fs) = some fs
as_dict _ = none

-- `isinstance(j, list)`, and the list
abbrev pub as_list : Json → Option (List Json)
as_list (arr js) = some (elements js)
as_list _ = none

-- `isinstance(j, str)`, and the text
abbrev pub as_str : Json → Option String
as_str (str s) = some s
as_str _ = none

-- `isinstance(j, int)`, and the number: a bool is one
abbrev pub as_int : Json → Option ℤ
as_int (int n) = some n
as_int (bool true) = some (pos 1)
as_int (bool false) = some (pos 0)
as_int _ = none

-- `d.get(k)`, which is `None` for a key that is not there
abbrev pub get_or_null : String → Fields → Json
get_or_null k fs = elim (get k fs) [ none ↦ null | some j ↦ j ]
