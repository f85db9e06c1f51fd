-- ===== src/Tool/Schemas/Laws.antt =====
-- What validateSchema accepts, and that copies of schemas are equal to what they copy.
use gall_lib.Common.{
  String, ◌≡◌, refl, ap, Bool, true, false, ◌&&◌, not, Option, none, some, List, [], ◌∷◌, ◌==◌,
  arith, eq_iff, all,
}
use gall_lib.Common.Results.{Result, ok, err, ◌>>◌}
use gall_lib.Text.{trim_space, contains}
use gall_lib.Tool.{
  Schema, Properties, Element, schema, no_more, property, unset, of, Reason, Cause, Sentinel,
}
use gall_lib.Tool.Schemas.{
  copy, clone_schema, clone_properties, clone_element, Kind, kind_of, text, by_kind, Checked,
  refuse_if, declared, validate_required, validate_enum, validate_schema, validate_properties,
  validate_items,
}
use Prim.Native.String.{◌++◌ as text_append}

copy_lem : (ss : List String) → copy ss ≡ ss
copy_lem [] = refl
copy_lem (s ∷ ss) = ap (λ rest. s ∷ rest) (copy_lem ss)

mutual
  unfolding clone_schema clone_properties clone_element

  pub clone_schema_lem : (s : Schema) → clone_schema s ≡ s
  clone_schema_lem (schema t d ps es rs xs a) =
      rw (clone_properties_lem ps, clone_element_lem es, copy_lem rs, copy_lem xs) refl

  clone_properties_lem : (ps : Properties) → clone_properties ps ≡ ps
  clone_properties_lem no_more = refl
  clone_properties_lem (property k s ps) = rw (clone_schema_lem s, clone_properties_lem ps) refl

  clone_element_lem : (es : Element) → clone_element es ≡ es
  clone_element_lem unset = refl
  clone_element_lem (of s) = rw (clone_schema_lem s) refl

abbrev pub accepts : {E A : Type 0} → Result E A → Bool
accepts (ok _) = true
accepts (err _) = false

pub accepts-then :
    {E A : Type 0} (a : Result E (Unit {0})) (b : Result E A)
    → accepts (a >> b) ≡ (accepts a && accepts b)
accepts-then (ok tt) b = refl
accepts-then (err e) b = refl

pub accepts-refuse_if : (b : Bool) (e : Cause) → accepts (refuse_if b (err e)) ≡ not b
accepts-refuse_if true e = refl
accepts-refuse_if false e = refl

pub ruleset accept_laws = (accepts-then, accepts-refuse_if)

abbrev pub no_duplicate : List String → Bool
no_duplicate [] = true
no_duplicate (s ∷ ss) = not (contains ss s) && no_duplicate ss

abbrev pub implies : Bool → Bool → Bool
implies true b = b
implies false b = true

-- A list of names that are distinct, and are declared.
abbrev pub required_ok : List String → Properties → Bool
required_ok rs ps = no_duplicate rs && all (λ k. declared k ps) rs

-- Only strings may have an enumeration, and no text of it is empty.
abbrev pub enum_ok : String → List String → Bool
enum_ok t [] = true
enum_ok t (x ∷ xs) = t == "string" && not (contains (x ∷ xs) "")

abbrev pub is_supported : String → Bool
is_supported t =
    contains ("array" ∷ "boolean" ∷ "integer" ∷ "null" ∷ "number" ∷ "object" ∷ "string" ∷ []) t

-- The rules for schemas: a known type, an enumeration only of strings, the required names of an
-- object distinct and declared, its properties named and well formed, as the items of an array.
unfoldable mutual
  pub well_formed : Schema → Bool
  well_formed (schema t d ps es rs xs a) =
      is_supported t
      && enum_ok t xs
      && implies (t == "object") (required_ok rs ps && well_formed_properties ps)
      && implies (t == "array") (well_formed_element es)

  well_formed_properties : Properties → Bool
  well_formed_properties no_more = true
  well_formed_properties (property name s ps) =
      not (trim_space name == "") && well_formed s && well_formed_properties ps

  well_formed_element : Element → Bool
  well_formed_element unset = true
  well_formed_element (of s) = well_formed s

-- No name of the list was seen before.
abbrev fresh : List String → List String → Bool
fresh seen [] = true
fresh seen (s ∷ ss) = not (contains seen s) && fresh seen ss

fresh-push :
    (s : String) (seen ss : List String)
    → fresh (s ∷ seen) ss ≡ (not (contains ss s) && fresh seen ss)
unfolding contains
fresh-push s seen [] = refl
fresh-push s seen (t ∷ ss) = ground (arith, eq_iff s t, eq_iff t s, fresh-push s seen ss)

accepts-validate_required :
    (seen rs : List String) (ps : Properties) (path : String)
    → accepts (validate_required seen rs ps path)
      ≡ (fresh seen rs && no_duplicate rs && all (λ k. declared k ps) rs)
unfolding validate_required
accepts-validate_required seen [] ps path = refl
accepts-validate_required seen (r ∷ rs) ps path =
    grind
      (arith, accept_laws, fresh-push r seen rs, accepts-validate_required (r ∷ seen) rs ps path)

fresh-nil : (rs : List String) → fresh [] rs ≡ true
unfolding contains
fresh-nil [] = refl
fresh-nil (r ∷ rs) = fresh-nil rs

accepts-validate_enum :
    (t : String) (xs : List String) (path : String)
    → accepts (validate_enum t xs path) ≡ enum_ok t xs
unfolding validate_enum contains
accepts-validate_enum t [] path = refl
accepts-validate_enum t (x ∷ xs) path = grind (arith, accept_laws)

pub kind_of-text : (t : String) (k : Kind) → kind_of t ≡ some k → t ≡ text k
unfolding kind_of
kind_of-text t k h = ground (
  arith,
  eq_iff t "array",
  eq_iff t "boolean",
  eq_iff t "integer",
  eq_iff t "null",
  eq_iff t "number",
  eq_iff t "object",
  eq_iff t "string",
)

kind_of-none : (t : String) → kind_of t ≡ none → is_supported t ≡ false
unfolding kind_of contains
kind_of-none t h = ground (
  arith,
  eq_iff t "array",
  eq_iff "array" t,
  eq_iff t "boolean",
  eq_iff "boolean" t,
  eq_iff t "integer",
  eq_iff "integer" t,
  eq_iff t "null",
  eq_iff "null" t,
  eq_iff t "number",
  eq_iff "number" t,
  eq_iff t "object",
  eq_iff "object" t,
  eq_iff t "string",
  eq_iff "string" t,
)

accepts-by_kind :
    (t : String) (o : Option Kind) (e : Cause) (as_object as_array : Checked)
    → kind_of t ≡ o
    → accepts (by_kind o (err e) as_object as_array) ≡ (
        is_supported t
        && implies (t == "object") (accepts as_object)
        && implies (t == "array") (accepts as_array))
accepts-by_kind t none e as_object as_array h = rw (kind_of-none t h) refl
accepts-by_kind t (some k) e as_object as_array h = rw (kind_of-text t k h) (known k)
  where
    known :
        (k : Kind)
        → accepts (by_kind (some k) (err e) as_object as_array) ≡ (
            is_supported (text k)
            && implies (text k == "object") (accepts as_object)
            && implies (text k == "array") (accepts as_array))
    known Kind.array = unfold contains in refl
    known Kind.boolean = unfold contains in refl
    known Kind.integer = unfold contains in refl
    known Kind.null = unfold contains in refl
    known Kind.number = unfold contains in refl
    known Kind.object = unfold contains in ground arith
    known Kind.string = unfold contains in refl

mutual
  unfolding validate_schema validate_properties validate_items well_formed well_formed_properties
      well_formed_element

  pub accepts-validate_schema :
      (s : Schema) (path : String) → accepts (validate_schema s path) ≡ well_formed s
  accepts-validate_schema (schema t d ps es rs xs a) path = grind (
    arith,
    accept_laws,
    accepts-by_kind t _ (Cause.marked Sentinel.err_invalid_schema (Reason.unsupported path t))
        (validate_required [] rs ps path >> validate_properties ps path) (validate_items es path)
        refl,
    accepts-validate_required [] rs ps path,
    fresh-nil rs,
    accepts-validate_properties ps path,
    accepts-validate_items es path,
    accepts-validate_enum t xs path,
  )

  accepts-validate_properties :
      (ps : Properties) (path : String)
      → accepts (validate_properties ps path) ≡ well_formed_properties ps
  accepts-validate_properties no_more path = refl
  accepts-validate_properties (property name s ps) path = grind (
    arith,
    accept_laws,
    accepts-validate_schema s (text_append path (text_append "." name)),
    accepts-validate_properties ps path,
  )

  accepts-validate_items :
      (es : Element) (path : String) → accepts (validate_items es path) ≡ well_formed_element es
  accepts-validate_items unset path = refl
  accepts-validate_items (of s) path = accepts-validate_schema s (text_append path "[]")

-- At every path, validateSchema accepts a schema exactly if it is well formed: a known type, an
-- enumeration only of a string and without the empty text, the required names of an object
-- distinct and declared, its properties named and well formed, and the items of an array well
-- formed.
pub validate_schema_lem :
    (s : Schema) (path : String) → accepts (validate_schema s path) ≡ well_formed s
validate_schema_lem s path = accepts-validate_schema s path
