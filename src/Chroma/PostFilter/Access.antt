-- ===== src/Chroma/PostFilter/Access.antt =====
-- langchain-chromadb/src/postFilter.ts: the operators over texts, lists, maps, hierarchies and the
-- clock, and the conditional.
use query_plan_adapters.Base.{
  true, false, not, Option, none, some, List, [], ◌∷◌, Text, any, text_eq,
}
use query_plan_adapters.Value.{str}
use query_plan_adapters.Plan.{Op, Operand, value, variable, expression}
use query_plan_adapters.Regex.{
  SafeRegexPattern, parse_safe_regex_pattern, matches_safe_regex_pattern,
}
use query_plan_adapters.Chroma.Outcome.{
  Attempt, done, raise, unsupported, plain, ◌>>=◌, demand, struct_entry, map_key, unsafe_pattern,
  get_field_name, hierarchy_operands,
}
use query_plan_adapters.Chroma.PostFilter.Values.{
  CelValue, error, flag, string, list, items_of, dict, CelFields, no_fields, field, as_boolean,
  own_field,
}
use query_plan_adapters.Chroma.PostFilter.Types.{duration, other, unknown, join_types}
use query_plan_adapters.Chroma.PostFilter.Operations.{
  index_value, since, to_hierarchy, to_hierarchy_by,
}
use query_plan_adapters.Chroma.PostFilter.Compiler.{
  Compiled, Context, compiled, then_run, Node, Nodes, no_nodes, below, operand_of, nodes_below,
  compile_node, exactly_two, exactly_three, compile_one, compile_each, run_all, run_one, run_two,
}

abbrev pub safe_pattern : Operand → Option SafeRegexPattern
safe_pattern (value (str s)) = parse_safe_regex_pattern s
safe_pattern _ = none

abbrev pub matched : SafeRegexPattern → CelValue → CelValue
matched pattern (string s) = flag (matches_safe_regex_pattern s pattern)
matched pattern _ = error

abbrev pub match_with : Option SafeRegexPattern → Node → Context → Attempt Compiled
match_with none receiver ctx = raise (unsupported (some Op.matches) unsafe_pattern)
match_with (some pattern) receiver ctx = compile_node receiver ctx >>= λ c.
    done (compiled other (run_one (λ v. some (matched pattern v)) c))

-- "matches"
unfoldable pub matches : Nodes → Context → Attempt Compiled
unfolding exactly_two parse_safe_regex_pattern matches_safe_regex_pattern run_one
matches ns ctx = exactly_two ns >>= λ pair. match_with (safe_pattern (operand_of pair.1)) pair.0 ctx

abbrev pub as_list : Option (Option (List CelValue)) → Option CelValue
as_list none = none
as_list (some none) = some error
as_list (some (some vs)) = some (list (items_of vs))

-- "list"
unfoldable pub list_literal : Nodes → Context → Attempt Compiled
unfolding compile_each run_all
list_literal ns ctx =
    compile_each ns ctx >>= λ cs. done (compiled other (λ env. as_list (run_all cs env)))

abbrev with_keys : List Text → List CelValue → CelFields
with_keys (k ∷ ks) (v ∷ vs) = field k v (with_keys ks vs)
with_keys _ _ = no_fields

abbrev as_dict : List Text → Option (Option (List CelValue)) → Option CelValue
as_dict ks none = none
as_dict ks (some none) = some error
as_dict ks (some (some vs)) = some (dict (with_keys ks vs))

abbrev entry_key : Operand → List Text → Attempt Text
entry_key (value (str k)) keys =
    demand (not (any (text_eq k) keys)) (unsupported (some Op.struct) map_key) >>= λ fresh. done k
entry_key e keys = raise (unsupported (some Op.struct) map_key)

abbrev entry_parts : Operand → Nodes → Attempt (Node × Node)
entry_parts (expression Op.set_field es) ns = exactly_two ns
entry_parts e ns = raise (unsupported (some Op.struct) struct_entry)

-- The entries of `compileMapLiteral`: their keys and their values.
unfoldable pub compile_entries : Nodes → List Text → Context → Attempt (List Text × List Compiled)
unfolding exactly_two
compile_entries no_nodes keys ctx = done ([], [])
compile_entries (below n ns) keys ctx = entry_parts (operand_of n) (nodes_below n) >>= λ pair.
    entry_key (operand_of pair.0) keys >>= λ key.
    compile_node pair.1 (record ctx { parent = Op.set_field }) >>= λ c.
    compile_entries ns (key ∷ keys) ctx >>= λ rest. done (key ∷ rest.0, c ∷ rest.1)

-- `compileMapLiteral`
unfoldable pub compile_map_literal : Nodes → Context → Attempt Compiled
unfolding compile_entries run_all
compile_map_literal entries ctx = compile_entries entries [] ctx >>= λ parts.
    done (compiled other (λ env. as_dict parts.0 (run_all parts.1 env)))

abbrev pub indexed : Operand → Node → Context → Attempt Compiled
indexed (expression Op.struct es) n ctx = compile_map_literal (nodes_below n) ctx
indexed e n ctx = compile_node n ctx

-- "index"
unfoldable pub index : Nodes → Context → Attempt Compiled
unfolding exactly_two compile_map_literal run_two index_value
index ns ctx = exactly_two ns >>= λ pair. indexed (operand_of pair.0) pair.0 ctx >>= λ collection.
    compile_node pair.1 ctx >>= λ key. done (compiled unknown (run_two index_value collection key))

abbrev pub field_name : Operand → Attempt Text
field_name (variable name) = done name
field_name (value (str s)) = done s
field_name _ = raise (plain get_field_name)

-- "get-field"
unfoldable pub get_field : Nodes → Context → Attempt Compiled
unfolding exactly_two own_field run_one
get_field ns ctx = exactly_two ns >>= λ pair. field_name (operand_of pair.1) >>= λ name.
    compile_node pair.0 ctx >>= λ target.
    done (compiled unknown (run_one (λ v. some (own_field name v)) target))

abbrev pub chosen : CelValue → Option CelValue → Option CelValue → Option CelValue
chosen (flag true) consequent otherwise = consequent
chosen (flag false) consequent otherwise = otherwise
chosen _ consequent otherwise = some error

-- "if"
unfoldable pub conditional : Nodes → Context → Attempt Compiled
unfolding exactly_three join_types
conditional ns ctx = exactly_three ns >>= λ three. compile_node three.0 ctx >>= λ condition.
    compile_node three.1 ctx >>= λ consequent. compile_node three.2 ctx >>= λ otherwise. done (
      compiled (join_types consequent.type otherwise.type) (λ env.
        then_run (condition.run env)
          (λ v. chosen (as_boolean v) (consequent.run env) (otherwise.run env))))

-- "hierarchy"
unfoldable pub hierarchy_call : Nodes → Context → Attempt Compiled
unfolding run_one run_two to_hierarchy to_hierarchy_by
hierarchy_call (below a no_nodes) ctx =
    compile_node a ctx >>= λ c. done (compiled other (run_one (λ v. some (to_hierarchy v)) c))
hierarchy_call (below a (below b no_nodes)) ctx = compile_node a ctx >>= λ c.
    compile_node b ctx >>= λ delimiter. done (compiled other (run_two to_hierarchy_by c delimiter))
hierarchy_call ns ctx = raise (plain hierarchy_operands)

-- "timeSince"
unfoldable pub time_since : Nodes → Context → Attempt Compiled
unfolding compile_one run_one since
time_since ns ctx =
    compile_one ns ctx >>= λ c. done (compiled duration (run_one (λ v. some (since ctx.now v)) c))
