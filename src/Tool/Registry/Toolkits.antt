-- ===== src/Tool/Registry/Toolkits.antt =====
-- RegisterToolkits: what it leaves of the invariant and of the tools that were there.
use mathlib.Core.Path.{subst}
use gall_lib.Common.{
  String, ◌≡◌, sym, Option, none, some, List, [], ◌∷◌, arith, eq_iff, inl, inr, Option-cases,
}
use gall_lib.Common.Dict.{Dict, get, put, is_some, get-put}
use gall_lib.Common.Results.{Result, ok, err, ◌>>◌, >>=-cases}
use gall_lib.Tool.{ToolkitDescriptor, Tool, Toolkit, Error, Reason}
use gall_lib.Tool.Define.{Origin}
use gall_lib.Tool.Registry.{
  Entry, Registry, new_entry, when, check_toolkit, admit, build_entries, build_toolkit,
  check_conflicts, put_all, copied, register_all_toolkits, register_toolkits, nested_error,
  bad_toolkit, invalid_toolkit,
}
use gall_lib.Tool.Registry.Laws.{
  IsEntry, IsTools, Grows, Grows-trans, assign-Grows, put-IsTools, new_entry-IsEntry,
  clone_entries_lem,
}
use gall_lib.Text.{contains}

nested_error-ok :
    {A : Type 0} (tool toolkit : String) (x : Result Error A) (a : A)
    → nested_error tool toolkit x ≡ ok a
    → x ≡ ok a
nested_error-ok tool toolkit (ok b) a h = h
nested_error-ok tool toolkit (err e) a h = cc

module _ {W : Type 0} where
  abbrev AllEntries : List (Entry W) → Type 0
  AllEntries [] = Unit
  AllEntries (e ∷ es) = IsEntry e × AllEntries es

  -- The names of the entries are not taken.
  abbrev AllFree : Dict (Entry W) → List (Entry W) → Type 0
  AllFree tools [] = Unit
  AllFree tools (e ∷ es) = (get e.descriptor.name tools ≡ none) × AllFree tools es

  build_entries-AllEntries :
      (origin : Origin) (names : List String) (ts : List (Option (Tool W))) (es : List (Entry W))
      → build_entries origin names ts ≡ ok es
      → AllEntries es
  unfolding build_entries
  build_entries-AllEntries origin names [] es h =
      let same : [] ≡ es = cc in subst AllEntries same tt
  build_entries-AllEntries origin names (none ∷ ts) es h = cc
  build_entries-AllEntries origin names (some t ∷ ts) es h =
      >>=-cases
        (when (contains names t.name)
          (invalid_toolkit t.name origin.name (bad_toolkit (Reason.duplicate_tool t.name))))
        _ h
        (λ _ _ h1.
          >>=-cases (nested_error t.name origin.name (new_entry (some t) origin)) _ h1 (λ e made h2.
            >>=-cases (build_entries origin (t.name ∷ names) ts) _ h2 (λ rest built h3.
              let same : e ∷ rest ≡ es = cc in
              subst AllEntries same (
                new_entry-IsEntry (some t) origin e (nested_error-ok t.name origin.name _ e made),
                build_entries-AllEntries origin (t.name ∷ names) ts rest built,
              ))))

  build_toolkit-AllEntries :
      (k : Option (Toolkit W)) (built : ToolkitDescriptor × List (Entry W))
      → build_toolkit k ≡ ok built
      → AllEntries built.1
  unfolding build_toolkit
  build_toolkit-AllEntries none built h = cc
  build_toolkit-AllEntries (some k) built h = >>=-cases (check_toolkit k) _ h (λ _ _ h'.
      >>=-cases (build_entries (record { name = k.name; namespace = k.namespace }) [] k.tools) _ h'
        (λ es made same.
          let found : es ≡ built.1 = cc in
          subst AllEntries found (build_entries-AllEntries _ [] k.tools es made)))

  check_conflicts-AllFree :
      (toolkit : String) (es : List (Entry W)) (tools : Dict (Entry W))
      → check_conflicts toolkit es tools ≡ ok tt
      → AllFree tools es
  unfolding check_conflicts
  check_conflicts-AllFree toolkit [] tools h = tt
  check_conflicts-AllFree toolkit (e ∷ es) tools h =
      elim (Option-cases (get e.descriptor.name tools)) [
        | inl free ↦ (free, check_conflicts-AllFree toolkit es tools (ground arith))
        | inr (other, taken) ↦ ground arith
      ]

  put_all-Grows :
      (base : Dict (Entry W)) (es : List (Entry W)) (tools : Dict (Entry W))
      → AllEntries es
      → AllFree base es
      → Grows base tools
      → Grows base (put_all es tools)
  unfolding put_all
  put_all-Grows base [] tools good free g = g
  put_all-Grows base (e ∷ es) tools good free g =
      put_all-Grows base es (put e.descriptor.name e tools) good.1 free.1 (record {
        kept = λ k f p. grind (
          arith,
          get-put e.descriptor.name k e tools,
          eq_iff e.descriptor.name k,
          g.kept k f p,
          free.0,
        );
        inv = put-IsTools e tools good.0 g.inv;
      })

  admit-Grows :
      (d : ToolkitDescriptor) (es : List (Entry W)) (r next : Registry W)
      → AllEntries es
      → IsTools r.tools
      → admit d es r ≡ ok next
      → Grows r.tools next.tools
  unfolding admit
  admit-Grows d es r next good inv h =
      >>=-cases (when (is_some (get d.name r.toolkits)) _ >> check_conflicts d.name es r.tools) _ h
        (λ _ checked same.
          >>=-cases (when (is_some (get d.name r.toolkits)) _) _ checked (λ _ _ free.
            let found : put_all es r.tools ≡ next.tools = cc in
            subst (Grows r.tools) found (
              put_all-Grows r.tools es r.tools good (check_conflicts-AllFree d.name es r.tools free)
                (record { kept = λ j e p. p; inv = inv }))))

  register_all_toolkits-Grows :
      (ks : List (Option (Toolkit W))) (r next : Registry W)
      → IsTools r.tools
      → register_all_toolkits ks r ≡ ok next
      → Grows r.tools next.tools
  unfolding register_all_toolkits
  register_all_toolkits-Grows [] r next inv h =
      let same : r ≡ next = cc in
      subst (λ n. Grows r.tools n.tools) same (record { kept = λ k e p. p; inv = inv })
  register_all_toolkits-Grows (k ∷ ks) r next inv h =
      >>=-cases (build_toolkit k) _ h (λ built made h'.
        >>=-cases (admit built.0 built.1 r) _ h' (λ more added rest.
          let grown =
            admit-Grows built.0 built.1 r more (build_toolkit-AllEntries k built made) inv added in
          Grows-trans _ _ _ grown (register_all_toolkits-Grows ks more next grown.inv rest)))

  -- If the tools of a registry stand each under the name of its descriptor, once, and were
  -- accepted by the definition rules, then so do the tools after RegisterToolkits, for any
  -- toolkits, nil ones and invalid ones included and whether it fails or not; and every tool that
  -- was registered before is still there, unchanged.
  pub register_toolkits-Grows :
      (ks : List (Option (Toolkit W))) (r : Registry W)
      → IsTools r.tools
      → Grows r.tools (register_toolkits ks r).1.tools
  unfolding register_toolkits
  register_toolkits-Grows ks r inv =
      assign-Grows r (register_all_toolkits ks (copied r)) (λ next. next) inv
        (λ next h.
          let same = clone_entries_lem r.tools in
          subst (λ tools. Grows tools next.tools) same
            (register_all_toolkits-Grows ks (copied r) next (subst IsTools (sym same) inv) h))
