-- ===== src/Audit/Scopes.antt =====
-- The resolution of an identifier in hardhat/tasks/audit/check-deploy-selectors.ts: `resolveMapArrowParam`,
-- `resolveConstBinding` and what they call. The walk along `parent` is a walk along the frames above a
-- node, from the inside out.
pub mod Binding
use rayls_sovereign_contract.Base.{
  ℕ, ◌≡◌, Bool, true, false, Option, none, some, List, [], ◌∷◌, map, contains, take, if◌then◌else◌,
  ◌===◌, or_else,
}
use rayls_sovereign_contract.Base.Text.{Text, codes, text_eq, text_beq}
use rayls_sovereign_contract.Audit.Syntax.{
  BindingName, named, array_pattern, other_pattern, Node, node, Syntax, identifier, string_literal,
  property_access, call_expression, await_expression, array_literal, arrow_function, block,
  source_file, variable_statement, declaration, other, Nodes, end, next, Initializer, absent,
  initial, syntax, line_of, list_of,
}

-- A node above, and which of its children the walk came from.
pub record Frame : Type 0 where
  pub parent : Node
  pub child : ℕ

-- `{ values, lines }`, as one list.
abbrev pub Literals : Type 0
Literals = List (Text × ℕ)

abbrev cons_literal : Text → ℕ → Option Literals → Option Literals
cons_literal value line none = none
cons_literal value line (some vs) = some ((value, line) ∷ vs)

unfoldable pub extract_string_array_elements : List Node → Option Literals
extract_string_array_elements [] = some []
extract_string_array_elements (node line text (string_literal value) ∷ ns) =
    cons_literal value line (extract_string_array_elements ns)
extract_string_array_elements (n ∷ ns) = none

-- The statements of a node that is a scope.
abbrev pub statements : Syntax → List Node
statements (block ns) = list_of ns
statements (source_file ns) = list_of ns
statements s = []

-- A declaration of one name.
pub record Declared : Type 0 where
  pub name : Text
  pub initializer : Initializer

abbrev pub declared_names : List Node → List Declared
declared_names [] = []
declared_names (node line text (declaration (named name) children init) ∷ ns) =
    record { name = name; initializer = init } ∷ declared_names ns
declared_names (n ∷ ns) = declared_names ns

-- The names that a statement declares by `const`.
abbrev pub constants : Syntax → List Declared
constants (variable_statement true ns) = declared_names (list_of ns)
constants s = []

abbrev pub declared_as : Text → List Declared → Option Initializer
declared_as name [] = none
declared_as name (d ∷ ds) =
    let rest = declared_as name ds in if text_beq d.name name then some d.initializer else rest

-- `for (const stmt of statements)`, up to the statement of the use
unfoldable pub in_statements : Text → List Node → Option Initializer
in_statements name [] = none
in_statements name (stmt ∷ stmts) =
    or_else (declared_as name (constants (syntax stmt))) (in_statements name stmts)

-- The initializer of the declaration that the walk stops at; `none` if it stops at none.
unfoldable pub const_initializer : Text → List Frame → Option Initializer
unfolding in_statements
const_initializer name [] = none
const_initializer name (f ∷ fs) =
    or_else (in_statements name (take f.child (statements (syntax f.parent))))
      (const_initializer name fs)

abbrev pub string_of : Option Initializer → Option Text
string_of (some (initial (node line text (string_literal value)))) = some value
string_of _ = none

abbrev pub elements_of : Option Initializer → Option (List Node)
elements_of (some (initial (node line text (array_literal ns)))) = some (list_of ns)
elements_of _ = none

unfoldable pub resolve_const_binding : Text → List Frame → Option Text
unfolding const_initializer
resolve_const_binding name fs = string_of (const_initializer name fs)

unfoldable pub resolve_const_array_binding : Text → List Frame → Option (List Node)
unfolding const_initializer
resolve_const_array_binding name fs = elements_of (const_initializer name fs)

abbrev extract_some : Option (List Node) → Option Literals
extract_some none = none
extract_some (some ns) = extract_string_array_elements ns

-- The receiver of a call, and the frames above that call.
unfoldable pub resolve_literal_array_receiver : Syntax → List Frame → Option Literals
unfolding extract_string_array_elements resolve_const_array_binding
resolve_literal_array_receiver (array_literal ns) fs = extract_string_array_elements (list_of ns)
resolve_literal_array_receiver (identifier name) fs =
    extract_some (resolve_const_array_binding name fs)
resolve_literal_array_receiver _ fs = none

-- What stands above the arrow function that binds the name: a call of `map`, or nothing of use.
abbrev map_callback : Syntax → List Frame → Option Literals
map_callback (call_expression (node line text (property_access recv name)) args) fs =
    if text_beq name (codes "map") then resolve_literal_array_receiver (syntax recv) fs else none
map_callback _ fs = none

abbrev above_arrow : List Frame → Option Literals
above_arrow [] = none
above_arrow (f ∷ fs) = map_callback (syntax f.parent) fs

abbrev pub binds : Text → List (Option Text) → Bool
binds name [] = false
binds name (none ∷ ps) = binds name ps
binds name (some p ∷ ps) = if text_beq p name then true else binds name ps

-- Whether a node is an arrow function with such a parameter.
abbrev pub is_binder : Text → Syntax → Bool
is_binder name (arrow_function params children) = binds name params
is_binder name _ = false

unfoldable pub resolve_map_arrow_param : Text → List Frame → Option Literals
unfolding resolve_literal_array_receiver
resolve_map_arrow_param name [] = none
resolve_map_arrow_param name (f ∷ fs) =
    let rest = resolve_map_arrow_param name fs in
    if is_binder name (syntax f.parent) then above_arrow fs else rest
