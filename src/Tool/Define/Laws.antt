-- ===== src/Tool/Define/Laws.antt =====
-- Which tool definitions validateToolDefinition accepts, and with which descriptor.
use gall_lib.Common.{
  String, ◌≡◌, ◌↔◌, refl, sym, ap, ◌∙◌, Bool, true, false, ◌&&◌, ◌||◌, not, some, ◌==◌, arith,
}
use gall_lib.Common.Results.{Result, ok, err, ◌>>◌, >>=-eq-ok}
use gall_lib.Text.{trim_space}
use gall_lib.Tool.{Schema, Descriptor, Tool, ErrorKind, Error, Reason}
use gall_lib.Tool.Schemas.{Checked, type_of, validate_input_schema, validate_output_schema}
use gall_lib.Tool.Schemas.Laws.{
  accepts, accepts-then, accept_laws, well_formed, accepts-validate_schema, clone_schema_lem,
}
use gall_lib.Tool.Checks.{matches, validate_toolkit_name, effective_name}
use gall_lib.Tool.Checks.Names.{accepts-validate_name}
use gall_lib.Tool.Define.{
  clone_descriptor, Origin, because, unless_empty, require, check_descriptor, drafted,
  validate_tool,
}

-- Names by the pattern, a description, the effective name made of the namespace and the local name,
-- and two well formed schemas, the one of the input an object's.
abbrev pub is_descriptor : Descriptor → Bool
is_descriptor d =
    matches d.local_name
    && not (d.description == "")
    && (d.toolkit == "" || matches d.toolkit)
    && (d.namespace == "" || matches d.namespace)
    && d.name == effective_name d.namespace d.local_name
    && type_of d.input_schema == "object"
    && well_formed d.input_schema
    && not (trim_space (type_of d.output_schema) == "")
    && well_formed d.output_schema

accepts-because :
    (k : ErrorKind) (name : String) (d : Descriptor) (c : Checked)
    → accepts (because k name d c) ≡ accepts c
accepts-because k name d (ok tt) = refl
accepts-because k name d (err e) = refl

accepts-unless_empty :
    (s : String) (c : Checked) → accepts (unless_empty s c) ≡ (s == "" || accepts c)
accepts-unless_empty s c = grind arith

accepts-require : (b : Bool) (r : Reason) → accepts (require b r) ≡ b
accepts-require true r = refl
accepts-require false r = refl

accepts-validate_toolkit_name :
    (name : String) → accepts (validate_toolkit_name name) ≡ matches name
unfolding validate_toolkit_name
accepts-validate_toolkit_name name = accepts-validate_name name "toolkit name"

accepts-validate_input_schema :
    (s : Schema) → accepts (validate_input_schema s) ≡ (type_of s == "object" && well_formed s)
unfolding validate_input_schema
accepts-validate_input_schema s = grind (arith, accept_laws, accepts-validate_schema s "input")

accepts-validate_output_schema :
    (s : Schema)
    → accepts (validate_output_schema s) ≡ (not (trim_space (type_of s) == "") && well_formed s)
unfolding validate_output_schema
accepts-validate_output_schema s = grind (arith, accept_laws, accepts-validate_schema s "output")

ruleset check_laws = (
  accepts-then, accepts-because, accepts-unless_empty, accepts-require,
  accepts-validate_toolkit_name, accepts-validate_name, accepts-validate_input_schema,
  accepts-validate_output_schema,
)

accepts-check_descriptor : (d : Descriptor) → accepts (check_descriptor d) ≡ is_descriptor d
unfolding check_descriptor
accepts-check_descriptor d = grind (arith, check_laws)

accepted : {A : Type 0} (c : Result Error (Unit {0})) (a : A) → accepts c ≡ true → c >> ok a ≡ ok a
accepted (ok tt) a h = refl
accepted (err e) a h = cc

-- A tool is accepted with a descriptor exactly if the descriptor is the tool's draft for that
-- origin and keeps the rules: names by the pattern, a description, an effective name made of the
-- namespace and the local name, an object's input schema, and two well formed schemas.
pub validate_tool-ok :
    {W : Type 0} (t : Tool W) (origin : Origin) (d : Descriptor)
    → (validate_tool (some t) origin ≡ ok d) ↔ ((d ≡ drafted t origin) × (is_descriptor d ≡ true))
unfolding validate_tool
validate_tool-ok t origin d = (λ h. there h, λ h. back h)
  where
    there :
        check_descriptor (drafted t origin) >> ok (drafted t origin) ≡ ok d
        → (d ≡ drafted t origin) × (is_descriptor d ≡ true)
    there h =
        let (u, checked, same) = >>=-eq-ok (check_descriptor (drafted t origin)) _ h in
        let d_same : drafted t origin ≡ d = cc in
        (
          sym d_same,
          rw (sym d_same) (sym (accepts-check_descriptor (drafted t origin)) ∙ ap accepts checked),
        )

    back :
        (d ≡ drafted t origin) × (is_descriptor d ≡ true)
        → check_descriptor (drafted t origin) >> ok (drafted t origin) ≡ ok d
    back (same, good) =
        accepted _ _
          (accepts-check_descriptor (drafted t origin) ∙ ap is_descriptor (sym same) ∙ good)
        ∙ ap ok (sym same)

pub clone_descriptor_lem : (d : Descriptor) → clone_descriptor d ≡ d
unfolding clone_descriptor
clone_descriptor_lem d = rw (clone_schema_lem d.input_schema, clone_schema_lem d.output_schema) refl
