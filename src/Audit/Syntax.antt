-- ===== src/Audit/Syntax.antt =====
-- The TypeScript syntax trees that hardhat/tasks/audit/check-deploy-selectors.ts reads, with the kinds
-- of node that it tells apart. The parser is a parameter of the lint.
use rayls_sovereign_contract.Base.{ℕ, Bool, Option, List, [], ◌∷◌}
use rayls_sovereign_contract.Base.Text.{Text}

-- The name of a declaration. An array pattern has a name or none (a hole, or a nested pattern) at each
-- place.
pub data BindingName : Type 0 where
  named : Text → BindingName
  array_pattern : List (Option Text) → BindingName
  other_pattern : BindingName

mutual
  -- A node has the line that it starts on, from 1, and its text.
  pub data Node : Type 0 where
    node : ℕ → Text → Syntax → Node

  -- `other` is any other kind, with its children.
  pub data Syntax : Type 0 where
    identifier : Text → Syntax
    string_literal : Text → Syntax
    property_access : Node → Text → Syntax
    call_expression : Node → Nodes → Syntax
    await_expression : Node → Syntax
    array_literal : Nodes → Syntax
    -- the names of the parameters, where they are identifiers; then the children
    arrow_function : List (Option Text) → Nodes → Syntax
    block : Nodes → Syntax
    source_file : Nodes → Syntax
    -- whether it is a `const`, and its declarations
    variable_statement : Bool → Nodes → Syntax
    -- the name, the children of the name and of the type, and the initializer
    declaration : BindingName → Nodes → Initializer → Syntax
    other : Nodes → Syntax

  pub data Nodes : Type 0 where
    end : Nodes
    next : Node → Nodes → Nodes

  pub data Initializer : Type 0 where
    absent : Initializer
    initial : Node → Initializer

abbrev pub syntax : Node → Syntax
syntax (node line text s) = s

abbrev pub line_of : Node → ℕ
line_of (node line text s) = line

abbrev pub text_of : Node → Text
text_of (node line text s) = text

abbrev pub list_of : Nodes → List Node
list_of end = []
list_of (next n ns) = n ∷ list_of ns
