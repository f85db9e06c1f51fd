-- ===== src/Tool/Registry/Laws.antt =====
-- The invariant of the registry: an entry stands under the name of its descriptor, which was checked.
use mathlib.Core.Path.{subst}
use gall_lib.Common.{
  String, ◌≡◌, refl, sym, true, Option, none, some, List, [], ◌∷◌, ◌==◌, arith, eq_iff, inl, inr,
  Bool-cases,
}
use gall_lib.Common.Dict.{Dict, get, put, get-put, IsMap, put-IsMap}
use gall_lib.Common.Results.{Result, ok, err, >>=-eq-ok}
use gall_lib.Tool.{ToolkitDescriptor, Tool, Error}
use gall_lib.Tool.Define.{Origin, no_origin, drafted, validate_tool}
use gall_lib.Tool.Define.Laws.{is_descriptor, validate_tool-ok, clone_descriptor_lem}
use gall_lib.Tool.Registry.{
  resolved_tool, Entry, Registry, clone_entries, clone_toolkit_descriptor,
  clone_toolkit_descriptors, new_entry, add_entry, register_all, assign, register,
}

pub clone_entries_lem : {W : Type 0} (es : Dict (Entry W)) → clone_entries es ≡ es
unfolding clone_entries
clone_entries_lem [] = refl
clone_entries_lem ((k, e) ∷ es) = rw (clone_descriptor_lem e.descriptor, clone_entries_lem es) refl

clone_toolkit_descriptors_lem : (ds : Dict ToolkitDescriptor) → clone_toolkit_descriptors ds ≡ ds
unfolding clone_toolkit_descriptors clone_toolkit_descriptor
clone_toolkit_descriptors_lem [] = refl
clone_toolkit_descriptors_lem ((k, d) ∷ ds) = rw (clone_toolkit_descriptors_lem ds) refl

module _ {W : Type 0} where
  -- An entry: a tool frozen under the descriptor that it was accepted with.
  pub record IsEntry (e : Entry W) : Type 0 where
    pub candidate : Tool W
    pub origin : Origin
    pub draft : e.descriptor ≡ drafted candidate origin
    pub rules : is_descriptor e.descriptor ≡ true
    pub frozen : e.tool ≡ resolved_tool e.descriptor candidate

  pub record IsTools (tools : Dict (Entry W)) : Type 0 where
    pub is_map : IsMap tools
    pub entry :
        (k : String) (e : Entry W) → get k tools ≡ some e → (e.descriptor.name ≡ k) × IsEntry e

  -- What an operation leaves of the tools that it found: all of them.
  abbrev pub Extends : Dict (Entry W) → Dict (Entry W) → Type 0
  Extends old new = (k : String) (e : Entry W) → get k old ≡ some e → get k new ≡ some e

  pub new_entry-IsEntry :
      (t : Option (Tool W)) (origin : Origin) (e : Entry W) → new_entry t origin ≡ ok e → IsEntry e
  unfolding new_entry
  new_entry-IsEntry none origin e h = cc
  new_entry-IsEntry (some t) origin e h =
      let (d, valid, same) = >>=-eq-ok (validate_tool (some t) origin) _ h in
      let (draft, rules) = (validate_tool-ok t origin d).0 valid in
      let made : record { tool = resolved_tool d t; descriptor = d } ≡ e = cc in
      subst IsEntry made
        (record { candidate = t; origin = origin; draft = draft; rules = rules; frozen = refl })

  pub put-IsTools :
      (e : Entry W) (tools : Dict (Entry W))
      → IsEntry e
      → IsTools tools
      → IsTools (put e.descriptor.name e tools)
  put-IsTools e tools good inv = record {
    is_map = put-IsMap e.descriptor.name e tools inv.is_map;
    entry = λ k f h. elim (Bool-cases (e.descriptor.name == k)) [
      | inl same ↦
          let found : e ≡ f = ground (arith, get-put e.descriptor.name k e tools) in
          subst (λ g. (g.descriptor.name ≡ k) × IsEntry g) found
            ((eq_iff e.descriptor.name k).0 same, good)
      | inr other ↦ inv.entry k f (ground (arith, get-put e.descriptor.name k e tools))
    ];
  }

  pub put-Extends :
      (e : Entry W) (tools : Dict (Entry W))
      → get e.descriptor.name tools ≡ none
      → Extends tools (put e.descriptor.name e tools)
  put-Extends e tools fresh k f h =
      grind (arith, get-put e.descriptor.name k e tools, eq_iff e.descriptor.name k)

  -- One step of Register's loop.
  add_entry-ok :
      (e : Entry W) (tools next : Dict (Entry W))
      → add_entry e tools ≡ ok next
      → (get e.descriptor.name tools ≡ none) × (put e.descriptor.name e tools ≡ next)
  unfolding add_entry
  add_entry-ok e tools next h = ground arith

  -- The tools after an operation: well formed if they were, and the old ones among them.
  pub record Grows (old new : Dict (Entry W)) : Type 0 where
    pub kept : Extends old new
    pub inv : IsTools new

  pub Grows-trans : (a b c : Dict (Entry W)) → Grows a b → Grows b c → Grows a c
  Grows-trans a b c g h = record { kept = λ k e p. h.kept k e (g.kept k e p); inv = h.inv }

  put-Grows :
      (e : Entry W) (tools : Dict (Entry W))
      → IsEntry e
      → IsTools tools
      → get e.descriptor.name tools ≡ none
      → Grows tools (put e.descriptor.name e tools)
  put-Grows e tools good inv free = record {
    kept = put-Extends e tools free;
    inv = put-IsTools e tools good inv;
  }

  register_all-Grows :
      (ts : List (Option (Tool W))) (tools next : Dict (Entry W))
      → IsTools tools
      → register_all ts tools ≡ ok next
      → Grows tools next
  unfolding register_all
  register_all-Grows [] tools next inv h =
      subst (Grows tools) (cc) (record { kept = λ k e p. p; inv = inv })
  register_all-Grows (t ∷ ts) tools next inv h =
      let (e, made, h') = >>=-eq-ok (new_entry t no_origin) _ h in
      let (more, added, rest) = >>=-eq-ok (add_entry e tools) _ h' in
      let (free, same) = add_entry-ok e tools more added in
      let grown = put-Grows e tools (new_entry-IsEntry t no_origin e made) inv free in
      let inv' : IsTools more = subst IsTools same grown.inv in
      Grows-trans tools more next (subst (Grows tools) same grown)
        (register_all-Grows ts more next inv' rest)

  pub assign-Grows :
      {A : Type 0} (r : Registry W) (x : Result Error A) (f : A → Registry W)
      → IsTools r.tools
      → ((a : A) → x ≡ ok a → Grows r.tools (f a).tools)
      → Grows r.tools (assign r x f).1.tools
  assign-Grows r (ok a) f inv h = h a refl
  assign-Grows r (err e) f inv h = record { kept = λ k e' p. p; inv = inv }

  -- If the tools of a registry stand each under the name of its descriptor, once, and were
  -- accepted by the definition rules, then so do the tools after Register, for any tools, nil ones
  -- and invalid ones included and whether it fails or not; and every tool that was registered
  -- before is still there, unchanged.
  pub register-Grows :
      (tools : List (Option (Tool W))) (r : Registry W)
      → IsTools r.tools
      → Grows r.tools (register tools r).1.tools
  unfolding register
  register-Grows tools r inv =
      assign-Grows r _ _ inv (λ next h.
        register_all-Grows tools r.tools next inv (rw (sym (clone_entries_lem r.tools)) h))
