-- ===== src/Core/Variable/Merge.antt =====
-- The precedence of the three variable tables, and of variables over built-in values.
use rust_fox.Prelude.{◌≡◌, [], Option, list_eq, nat_eq, arith}
use rust_fox.Prelude.Dict.{get, extend, or_else, IsMap, get-extend, extend-IsMap}
use rust_fox.Prelude.Text.{Text}
use rust_fox.Core.Variable.{VariableMap, merge_variables}

-- The merged table has one entry for each name, and gives a name the value of the runtime table,
-- or else that of the environment, or else that of the project.
pub get-merge_variables :
    (runtime environment project : VariableMap) (name : Text)
    → IsMap runtime
    → IsMap environment
    → IsMap project
    → IsMap (merge_variables runtime environment project)
      × (get name (merge_variables runtime environment project)
          ≡ or_else (get name runtime) (or_else (get name environment) (get name project)))
unfolding merge_variables
get-merge_variables runtime environment project name r e p = (
  extend-IsMap (extend (extend [] project) environment) runtime
      (extend-IsMap (extend [] project) environment (extend-IsMap [] project tt)),
  rw (get-extend name _ runtime r, get-extend name _ environment e, get-extend name _ project p)
      (or_else_nil (get name runtime) (get name environment) (get name project)),
)
  where
    or_else_nil :
        (a b c : Option Text)
        → or_else a (or_else b (or_else c (get name []))) ≡ or_else a (or_else b c)
    or_else_nil a b c = unfold get in ground arith
