-- ===== src/Tool/Registry.antt =====
-- pkg/tool/registry.go: the registry of tools and toolkits. Each locked method is one step on the two
-- maps, which a method that fails leaves as they were.
pub mod Laws
pub mod Toolkits
pub mod Listing
pub mod Resolved
use Prim.Native.String.{compare}
use Prim.Native.Nat.{Ordering}
use gall_lib.Common.{
  ℕ, String, Bool, true, false, ◌&&◌, ◌||◌, not, Option, none, some, List, [], ◌∷◌, ◌++◌, ◌==◌,
  if◌then◌else◌, length,
}
use gall_lib.Common.Dict.{Dict, get, put, is_some}
use gall_lib.Common.Results.{Result, ok, err, ◌>>=◌, ◌>>◌}
use gall_lib.Text.{contains}
use gall_lib.Tool.{
  Descriptor, ToolkitDescriptor, Tool, Toolkit, ErrorKind, Sentinel, Reason, Cause, Error,
  new_error,
}
use gall_lib.Tool.Schemas.{clone_schema, Checked}
use gall_lib.Tool.Checks.{validate_name, validate_toolkit_name}
use gall_lib.Tool.Define.{Origin, nil_tool, no_origin, clone_descriptor, validate_tool}

module _ {W : Type 0} where
  -- resolvedTool: the tool under the descriptor that was checked.
  unfoldable pub resolved_tool : Descriptor → Tool W → Tool W
  resolved_tool d t = record {
    name = d.local_name;
    description = d.description;
    input_schema = clone_schema d.input_schema;
    output_schema = clone_schema d.output_schema;
    call = t.call;
    described = some (clone_descriptor d);
  }

pub record Entry (W : Type 0) : Type 0 where
  pub tool : Tool W
  pub descriptor : Descriptor

pub record Registry (W : Type 0) : Type 0 where
  pub tools : Dict (Entry W)
  pub toolkits : Dict ToolkitDescriptor

unfoldable pub clone_toolkit_descriptor : ToolkitDescriptor → ToolkitDescriptor
clone_toolkit_descriptor d = record {
  name = d.name;
  description = d.description;
  namespace = d.namespace;
  tool_count = d.tool_count;
}

unfoldable pub clone_toolkit_descriptors : Dict ToolkitDescriptor → Dict ToolkitDescriptor
unfolding clone_toolkit_descriptor
clone_toolkit_descriptors [] = []
clone_toolkit_descriptors ((k, d) ∷ ds) =
    (k, clone_toolkit_descriptor d) ∷ clone_toolkit_descriptors ds

abbrev pub register_op : String
register_op = "register"

abbrev pub toolkits_op : String
toolkits_op = "register_toolkits"

-- newNameConflictError; the text depends on which of the names are set.
unfoldable pub name_conflict_error : String → String → String → String → Error
name_conflict_error op tool toolkit existing =
    new_error ErrorKind.name_conflict op tool toolkit ""
      (Cause.marked Sentinel.err_name_conflict (Reason.conflict tool toolkit existing))

unfoldable pub invalid_toolkit : String → String → Cause → Error
invalid_toolkit tool toolkit c = new_error ErrorKind.invalid_toolkit toolkits_op tool toolkit "" c

abbrev pub bad_toolkit : Reason → Cause
bad_toolkit r = Cause.marked Sentinel.err_invalid_toolkit r

-- An error of a check, wrapped as the toolkit's.
abbrev pub because_toolkit : String → Checked → Result Error (Unit {0})
because_toolkit toolkit (ok _) = ok tt
because_toolkit toolkit (err c) = err (invalid_toolkit "" toolkit c)

abbrev pub nested_error : {A : Type 0} → String → String → Result Error A → Result Error A
nested_error tool toolkit (ok a) = ok a
nested_error tool toolkit (err e) = err (invalid_toolkit tool toolkit (Cause.nested e))

abbrev pub when : Bool → Error → Result Error (Unit {0})
when true e = err e
when false e = ok tt

module _ {W : Type 0} where
  abbrev pub empty_registry : Registry W
  empty_registry = record { tools = []; toolkits = [] }

  unfoldable pub clone_entries : Dict (Entry W) → Dict (Entry W)
  clone_entries [] = []
  clone_entries ((k, e) ∷ es) =
      (k, record { tool = e.tool; descriptor = clone_descriptor e.descriptor }) ∷ clone_entries es

  unfoldable pub new_entry : Option (Tool W) → Origin → Result Error (Entry W)
  new_entry none origin = err (nil_tool origin)
  new_entry (some t) origin = do
    d ← validate_tool (some t) origin
    ok (record { tool = resolved_tool d t; descriptor = d })

  -- Adds an entry, unless its name is taken.
  unfoldable pub add_entry : Entry W → Dict (Entry W) → Result Error (Dict (Entry W))
  add_entry e tools = elim (get e.descriptor.name tools) [
    | none ↦ ok (put e.descriptor.name e tools)
    | some other ↦ err (
        name_conflict_error register_op e.descriptor.name e.descriptor.toolkit
          other.descriptor.toolkit)
  ]

  -- The loop of Register.
  unfoldable pub register_all :
      List (Option (Tool W)) → Dict (Entry W) → Result Error (Dict (Entry W))
  register_all [] next = ok next
  register_all (candidate ∷ candidates) next = do
    entry ← new_entry candidate no_origin
    more ← add_entry entry next
    register_all candidates more

  -- A result, and the registry after it: r.tools and r.toolkits are assigned at the end.
  abbrev pub assign :
      {A : Type 0}
      → Registry W
      → Result Error A
      → (A → Registry W)
      → Result Error (Unit {0}) × Registry W
  assign r (ok a) f = (ok tt, f a)
  assign r (err e) f = (err e, r)

  unfoldable pub register :
      List (Option (Tool W)) → Registry W → Result Error (Unit {0}) × Registry W
  register tools r =
      assign r (register_all tools (clone_entries r.tools)) (λ next. record r { tools = next })

  -- The loop of buildToolkitEntries, with the local names so far.
  unfoldable pub build_entries :
      Origin → List String → List (Option (Tool W)) → Result Error (List (Entry W))
  build_entries origin names [] = ok []
  build_entries origin names (none ∷ tools) =
      err (invalid_toolkit "" origin.name (bad_toolkit Reason.nil_tool))
  build_entries origin names (some t ∷ tools) = do
    when (contains names t.name)
        (invalid_toolkit t.name origin.name (bad_toolkit (Reason.duplicate_tool t.name)))
    entry ← nested_error t.name origin.name (new_entry (some t) origin)
    entries ← build_entries origin (t.name ∷ names) tools
    ok (entry ∷ entries)

  abbrev pub check_toolkit : Toolkit W → Result Error (Unit {0})
  check_toolkit k = do
    because_toolkit k.name (validate_toolkit_name k.name)
    when (k.description == "") (invalid_toolkit "" k.name (bad_toolkit Reason.description_required))
    because_toolkit k.name
        (if k.namespace == "" then ok tt else validate_name k.namespace "namespace")

  abbrev pub with_count : Toolkit W → List (Entry W) → ToolkitDescriptor × List (Entry W)
  with_count k entries = (
    record {
      name = k.name;
      description = k.description;
      namespace = k.namespace;
      tool_count = length entries;
    },
    entries,
  )

  unfoldable pub build_toolkit :
      Option (Toolkit W) → Result Error (ToolkitDescriptor × List (Entry W))
  build_toolkit none = err (invalid_toolkit "" "" (bad_toolkit Reason.toolkit_nil))
  build_toolkit (some k) = do
    check_toolkit k
    entries ← build_entries (record { name = k.name; namespace = k.namespace }) [] k.tools
    ok (with_count k entries)

  -- The first entry whose name is taken.
  unfoldable pub check_conflicts :
      String → List (Entry W) → Dict (Entry W) → Result Error (Unit {0})
  check_conflicts toolkit [] tools = ok tt
  check_conflicts toolkit (e ∷ es) tools = elim (get e.descriptor.name tools) [
    | none ↦ check_conflicts toolkit es tools
    | some other ↦
        err (name_conflict_error toolkits_op e.descriptor.name toolkit other.descriptor.toolkit)
  ]

  unfoldable pub put_all : List (Entry W) → Dict (Entry W) → Dict (Entry W)
  put_all [] tools = tools
  put_all (e ∷ es) tools = put_all es (put e.descriptor.name e tools)

  -- Adds a toolkit whose own name is free, and none of whose tools' names is taken.
  unfoldable pub admit : ToolkitDescriptor → List (Entry W) → Registry W → Result Error (Registry W)
  admit d entries next =
      when (is_some (get d.name next.toolkits)) (name_conflict_error toolkits_op "" d.name d.name)
      >> check_conflicts d.name entries next.tools
      >> ok (record { tools = put_all entries next.tools; toolkits = put d.name d next.toolkits })

  -- The loop of RegisterToolkits.
  unfoldable pub register_all_toolkits :
      List (Option (Toolkit W)) → Registry W → Result Error (Registry W)
  register_all_toolkits [] next = ok next
  register_all_toolkits (candidate ∷ candidates) next = do
    built ← build_toolkit candidate
    more ← admit built.0 built.1 next
    register_all_toolkits candidates more

  abbrev pub copied : Registry W → Registry W
  copied r = record {
    tools = clone_entries r.tools;
    toolkits = clone_toolkit_descriptors r.toolkits;
  }

  unfoldable pub register_toolkits :
      List (Option (Toolkit W)) → Registry W → Result Error (Unit {0}) × Registry W
  register_toolkits toolkits r = assign r (register_all_toolkits toolkits (copied r)) (λ next. next)

  unfoldable pub resolve : String → Registry W → Result Error (Tool W)
  resolve name r = elim (get name r.tools) [
    | some e ↦ ok e.tool
    | none ↦ err (
        new_error ErrorKind.not_found "resolve" name "" ""
          (Cause.marked Sentinel.err_tool_not_found (Reason.unregistered name)))
  ]

-- The order of Go's strings.
abbrev pub before : String → String → Bool
before s t = elim (compare s t) [ Ordering.lt ↦ true | _ ↦ false ]

-- sort.Slice by the name.
module _ {A : Type 0} (name : A → String) where
  unfoldable pub insert : A → List A → List A
  insert a [] = a ∷ []
  insert a (b ∷ bs) =
      let rest = insert a bs in if before (name a) (name b) then a ∷ b ∷ bs else b ∷ rest

  unfoldable pub sort : List A → List A
  sort [] = []
  sort (a ∷ as') = insert a (sort as')

unfoldable pub toolkit_descriptors : Dict ToolkitDescriptor → List ToolkitDescriptor
toolkit_descriptors [] = []
toolkit_descriptors ((k, d) ∷ ds) = clone_toolkit_descriptor d ∷ toolkit_descriptors ds

module _ {W : Type 0} where
  unfoldable pub descriptors : Dict (Entry W) → List Descriptor
  descriptors [] = []
  descriptors ((k, e) ∷ es) = clone_descriptor e.descriptor ∷ descriptors es

  unfoldable pub list : Registry W → List Descriptor
  list r = sort (λ d. d.name) (descriptors r.tools)

  unfoldable pub list_toolkits : Registry W → List ToolkitDescriptor
  list_toolkits r = sort (λ d. d.name) (toolkit_descriptors r.toolkits)
