-- ===== src/Workflow/Ids.antt =====
-- normalizeID of pkg/workflow/builder.go; pkg/agent/agent.go has the same function with another
-- word for the empty identifier.
pub mod Laws
use Prim.Native.Char.{Char, code}
use Prim.Native.String.{[] as nil, ◌∷◌ as cons}
use gall_lib.Common.{
  String, ◌≡◌, refl, Bool, true, false, ◌&&◌, ◌||◌, ◌==◌, leb, eqb, if◌then◌else◌,
}
use gall_lib.Text.{
  to_lower, lower_char, translate, trim, trim_space, trim_left, trim_right, is_space,
}

-- The class [a-z0-9].
abbrev pub is_id_char : Char → Bool
is_id_char c = let n = code c in (leb 97 n && leb n 122) || (leb 48 n && leb n 57)

abbrev pub is_dash : Char → Bool
is_dash c = eqb (code c) 45

-- ReplaceAllString of [^a-z0-9]+ by "-": each run of other characters becomes one dash. The flag
-- says that a run is under way.
unfoldable pub sanitize : Bool → String → String
sanitize in_run nil = nil
sanitize in_run (cons c s) =
    let kept = cons c (sanitize false s) in
    let rest = sanitize true s in
    if is_id_char c then kept else if in_run then rest else cons "-" rest

unfoldable pub or_default : String → String → String
or_default fallback id = if id == "" then fallback else id

unfoldable pub normalize_id : String → String → String
normalize_id fallback name =
    or_default fallback (trim is_dash (sanitize false (to_lower (trim_space name))))

abbrev pub workflow_id : String → String
workflow_id = normalize_id "workflow"

normalize_id_test : workflow_id "  Order  ÜPDATE/2K -" ≡ "order-pdate-2k"
unfolding normalize_id sanitize or_default trim_space trim trim_left trim_right is_space to_lower
    lower_char translate
normalize_id_test = refl
