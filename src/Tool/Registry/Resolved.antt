-- ===== src/Tool/Registry/Resolved.antt =====
-- Resolve and Invoke together: a resolved tool stands for the entry it was registered under.
use gall_lib.Common.{
  String, ◌≡◌, refl, sym, ap, ◌∙◌, true, false, ◌||◌, ◌==◌, arith, eq_iff, inl, inr, Option-cases,
}
use gall_lib.Common.Dict.{get}
use gall_lib.Common.Results.{ok}
use gall_lib.Text.{trim_space}
use gall_lib.Text.Laws.{trim_space_idem}
use gall_lib.Tool.{Descriptor, Tool}
use gall_lib.Tool.Schemas.Laws.{clone_schema_lem}
use gall_lib.Tool.Checks.{effective_name, matches}
use gall_lib.Tool.Checks.Names.{effective_name-nothing}
use gall_lib.Tool.Define.{no_origin, clone_descriptor, descriptor_of, drafted}
use gall_lib.Tool.Define.Laws.{is_descriptor}
use gall_lib.Tool.Registry.{resolved_tool, Entry, Registry, resolve}
use gall_lib.Tool.Registry.Laws.{IsEntry, IsTools}

is_descriptor-name : (d : Descriptor) → is_descriptor d ≡ true → (d.name == "") ≡ false
is_descriptor-name d h =
    let local : matches d.local_name ≡ true = ground arith in
    let space : (d.namespace == "" || matches d.namespace) ≡ true = ground arith in
    ground (
      arith,
      effective_name-nothing d.namespace d.local_name local space,
      eq_iff d.name (effective_name d.namespace d.local_name),
    )

module _ {W : Type 0} where
  drafted-resolved_tool :
      (d : Descriptor) (t : Tool W)
      → is_descriptor d ≡ true
      → trim_space d.description ≡ d.description
      → drafted (resolved_tool d t) no_origin ≡ d
  unfolding drafted descriptor_of resolved_tool clone_descriptor
  drafted-resolved_tool d t h trimmed =
      rw
        (
          clone_schema_lem d.input_schema,
          clone_schema_lem d.output_schema,
          clone_schema_lem d.input_schema,
          clone_schema_lem d.output_schema,
          is_descriptor-name d h,
          is_descriptor-name d h,
          trimmed,
        )
        refl

  entry-drafted : (e : Entry W) → IsEntry e → drafted e.tool no_origin ≡ e.descriptor
  entry-drafted e good =
      let trimmed : trim_space e.descriptor.description ≡ e.descriptor.description =
        ap (λ d. trim_space d.description) good.draft
        ∙ unfold drafted in
          trim_space_idem good.candidate.description ∙ ap (λ d. d.description) (sym good.draft) in
      ap (λ t. drafted t no_origin) good.frozen
      ∙ drafted-resolved_tool e.descriptor good.candidate good.rules trimmed

  -- In a registry whose tools stand under the names of their accepted descriptors, the tool that
  -- Resolve returns for a name passes the definition rules again without its toolkit, and its
  -- effective name is that name.
  pub resolve-drafted :
      (r : Registry W) (name : String) (t : Tool W)
      → IsTools r.tools
      → resolve name r ≡ ok t
      → ((drafted t no_origin).name ≡ name) × (is_descriptor (drafted t no_origin) ≡ true)
  unfolding resolve
  resolve-drafted r name t inv h = elim (Option-cases (get name r.tools)) [
    | inl e ↦ ground arith
    | inr (e, found) ↦
        let same : e.tool ≡ t = ground arith in
        let (named, good) = inv.entry name e found in
        let draft : drafted t no_origin ≡ e.descriptor =
          ap (λ u. drafted u no_origin) (sym same) ∙ entry-drafted e good in
        (ap (λ d. d.name) draft ∙ named, ap is_descriptor draft ∙ good.rules)
  ]
