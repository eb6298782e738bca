-- ===== src/Audit/Bindings.antt =====
-- `collectBindings` of hardhat/tasks/audit/check-deploy-selectors.ts, and the order in which a tree is
-- visited.
use rayls_sovereign_contract.Base.{ℕ, suc, Option, none, some, List, [], ◌∷◌, ◌++◌, if◌then◌else◌}
use rayls_sovereign_contract.Base.Text.{Text, codes, text_eq, text_beq}
use rayls_sovereign_contract.Base.Dict.{Dict, put}
use rayls_sovereign_contract.Audit.Syntax.{
  named, array_pattern, Node, node, Syntax, identifier, string_literal, property_access,
  call_expression, await_expression, array_literal, arrow_function, block, source_file,
  variable_statement, declaration, other, Nodes, end, next, Initializer, absent, initial, syntax,
  list_of,
}
use rayls_sovereign_contract.Audit.Scopes.{Frame}

-- A node, and the frames above it.
abbrev pub Visit : Type 0
Visit = Node × List Frame

-- `visit`: a node, then its children in the order of `ts.forEachChild`.
unfoldable mutual
  pub visit : Node → List Frame → List Visit
  visit (node line text s) fs = (node line text s, fs) ∷ visit_children s (node line text s) fs

  pub visit_children : Syntax → Node → List Frame → List Visit
  visit_children (identifier name) parent fs = []
  visit_children (string_literal value) parent fs = []
  visit_children (property_access n name) parent fs =
      visit n (record { parent = parent; child = 0 } ∷ fs)
  visit_children (call_expression n ns) parent fs =
      visit n (record { parent = parent; child = 0 } ∷ fs) ++ visit_all 1 ns parent fs
  visit_children (await_expression n) parent fs =
      visit n (record { parent = parent; child = 0 } ∷ fs)
  visit_children (array_literal ns) parent fs = visit_all 0 ns parent fs
  visit_children (arrow_function params ns) parent fs = visit_all 0 ns parent fs
  visit_children (block ns) parent fs = visit_all 0 ns parent fs
  visit_children (source_file ns) parent fs = visit_all 0 ns parent fs
  visit_children (variable_statement is_const ns) parent fs = visit_all 0 ns parent fs
  visit_children (declaration name ns init) parent fs =
      visit_all 1 ns parent fs ++ visit_initializer init parent fs
  visit_children (other ns) parent fs = visit_all 0 ns parent fs

  pub visit_all : ℕ → Nodes → Node → List Frame → List Visit
  visit_all i end parent fs = []
  visit_all i (next n ns) parent fs =
      visit n (record { parent = parent; child = i } ∷ fs) ++ visit_all (suc i) ns parent fs

  pub visit_initializer : Initializer → Node → List Frame → List Visit
  visit_initializer absent parent fs = []
  visit_initializer (initial n) parent fs = visit n (record { parent = parent; child = 0 } ∷ fs)

abbrev literal_text : List Node → Option Text
literal_text (node line text (string_literal value) ∷ args) = some value
literal_text _ = none

unfoldable pub get_factory_name_arg : Syntax → List Node → Option Text
get_factory_name_arg (property_access n name) args =
    if text_beq name (codes "getContractFactory") then literal_text args else none
get_factory_name_arg _ args = none

abbrev called_factory : Syntax → Option Text
called_factory (call_expression f args) = get_factory_name_arg (syntax f) (list_of args)
called_factory _ = none

unfoldable pub is_awaited_get_contract_factory : Syntax → Option Text
unfolding get_factory_name_arg
is_awaited_get_contract_factory (await_expression n) = called_factory (syntax n)
is_awaited_get_contract_factory s = called_factory s

pub record Bindings : Type 0 where
  pub factories : Dict Text Text
  pub aliases : Dict Text Text

abbrev set_factory : Text → Option Text → Bindings → Bindings
set_factory var none b = b
set_factory var (some []) b = b
set_factory var (some (c ∷ name)) b = record b { factories = put b.factories var (c ∷ name) }

abbrev set_alias : Text → Syntax → Bindings → Bindings
set_alias var (property_access (node line text (identifier name)) prop) b =
    if text_beq prop (codes "interface") then record b { aliases = put b.aliases var name } else b
set_alias var _ b = b

-- `decl.name.elements.forEach((bindingEl, i) => …)`, with `arr.elements[i]`
abbrev destructure : List (Option Text) → List Node → Bindings → Bindings
destructure [] items b = b
destructure (var ∷ vars) [] b = b
destructure (none ∷ vars) (item ∷ items) b = destructure vars items b
destructure (some var ∷ vars) (item ∷ items) b =
    destructure vars items (set_factory var (is_awaited_get_contract_factory (syntax item)) b)

abbrev first_array : List Node → List Node
first_array (node line text (array_literal ns) ∷ args) = list_of ns
first_array _ = []

-- The elements of `await Promise.all([…])`.
abbrev awaited_all : Syntax → List Node
awaited_all
      (await_expression (node l t (call_expression (node k u (property_access n name)) args))) =
    if text_beq name (codes "all") then first_array (list_of args) else []
awaited_all _ = []

unfoldable pub bind_declaration : Syntax → Bindings → Bindings
unfolding is_awaited_get_contract_factory put
bind_declaration (declaration (named var) ns (initial n)) b =
    set_alias var (syntax n) (set_factory var (is_awaited_get_contract_factory (syntax n)) b)
bind_declaration (declaration (array_pattern vars) ns (initial n)) b =
    destructure vars (awaited_all (syntax n)) b
bind_declaration _ b = b

abbrev bind_declarations : List Node → Bindings → Bindings
bind_declarations [] b = b
bind_declarations (d ∷ ds) b = bind_declarations ds (bind_declaration (syntax d) b)

abbrev bind_node : Syntax → Bindings → Bindings
bind_node (variable_statement is_const ns) b = bind_declarations (list_of ns) b
bind_node _ b = b

unfoldable pub bind_visits : List Visit → Bindings → Bindings
unfolding bind_declaration
bind_visits [] b = b
bind_visits ((n, fs) ∷ vs) b = bind_visits vs (bind_node (syntax n) b)

unfoldable pub collect_bindings : Node → Bindings
unfolding bind_visits visit
collect_bindings file = bind_visits (visit file []) (record { factories = []; aliases = [] })
