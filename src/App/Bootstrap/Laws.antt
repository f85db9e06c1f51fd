-- ===== src/App/Bootstrap/Laws.antt =====
-- What the materialization of agents and workflows makes of the registered ones.
use mathlib.Core.Path.{subst}
use gall_lib.Common.{
  ◌≡◌, refl, sym, ap, ◌∙◌, String, Bool, true, false, ◌&&◌, ◌||◌, Option, none, some, [], ◌∷◌, ◌==◌,
  arith, eq_iff, inl, inr, Bool-cases, Option-cases,
}
use gall_lib.Common.Dict.{Dict, get, put, get-put, is_some}
use gall_lib.Common.Results.{Result, ok, err, Result-cases}
use gall_lib.Context.{Fault}
use gall_lib.Tool.Registry.{insert, sort}
use gall_lib.App.{Handle, Factory, Error, Sim}
use gall_lib.App.Bootstrap.{shared_name, built, sorted_factories, build_all, materialize}

-- Every agent or workflow of a map is filed under its own name, apart from the ready ones, which
-- are filed under their trimmed name.
abbrev has_name : String → Dict Factory → Bool
has_name name factories = is_some (get name factories)

has_name-insert :
    (name : String) (f : String × Factory) (fs : Dict Factory)
    → has_name name (insert (λ entry. entry.0) f fs) ≡ (f.0 == name || has_name name fs)
unfolding insert get
has_name-insert name f [] = ground arith
has_name-insert name f (g ∷ fs) = ground (arith, has_name-insert name f fs)

has_name-sorted :
    (name : String) (fs : Dict Factory) → has_name name (sorted_factories fs) ≡ has_name name fs
unfolding sorted_factories sort get
has_name-sorted name [] = refl
has_name-sorted name (f ∷ fs) =
    has_name-insert name f (sort (λ entry. entry.0) fs) ∙ ground (arith, has_name-sorted name fs)

-- A factory's product that is accepted has the factory's name, which was free.
built-ok :
    (name : String) (duplicate : String → Error) (answer : Result Fault (Option Handle))
    (out more : Dict Handle)
    → built name duplicate answer out ≡ ok more
    → (h : Handle) × ((h.name == name) ≡ true)
      × (is_some (get name out) ≡ false)
      × (more ≡ put name h out)
built-ok name duplicate (err f) out more e = cc
built-ok name duplicate (ok none) out more e = cc
built-ok name duplicate (ok (some h)) out more e = (h, ground arith, ground arith, ground arith)

-- What a map is after the factories of a list were built into it.
record IsBuiltFrom (out : Dict Handle) (fs : Dict Factory) (name : String) (r : Dict Handle)
    : Type 0 where
  pub has : is_some (get name r) ≡ (is_some (get name out) || has_name name fs)
  pub old : is_some (get name out) ≡ true → get name r ≡ get name out
  pub named :
      (h : Handle) → is_some (get name out) ≡ false → get name r ≡ some h → (h.name == name) ≡ true

nothing_built : (out r : Dict Handle) (name : String) → out ≡ r → IsBuiltFrom out [] name r
unfolding get
nothing_built out r name same =
    subst (λ r. IsBuiltFrom out [] name r) same
      (record { has = ground arith; old = λ _. refl; named = λ h none' some'. ground arith })

shared_name-none :
    (ready : Dict Handle) (fs : Dict Factory) (name : String)
    → shared_name ready fs ≡ none
    → (is_some (get name ready) && has_name name fs) ≡ false
unfolding shared_name get
shared_name-none [] fs name = λ e. refl
shared_name-none ((k, h) ∷ ready) fs name = elim (Bool-cases (has_name k fs)) [
  | inl e ↦ rw (e, shared_name) (λ f. cc)
  | inr e ↦
      rw (e, shared_name)
        (λ f. elim (Bool-cases (k == name)) [
          | inl same ↦ rw same (ap (λ j. has_name j fs) (sym ((eq_iff k name).0 same)) ∙ e)
          | inr differs ↦ rw differs (shared_name-none ready fs name f)
        ])
]

module _ {W : Type 0} (build : Factory → Sim W → Result Fault (Option Handle) × Sim W)
    (duplicate : String → Error) where
  IsBuiltFrom-cons :
      (k : String) (f : Factory) (fs : Dict Factory) (out : Dict Handle) (h : Handle)
      (name : String) (r : Dict Handle)
      → (h.name == k) ≡ true
      → is_some (get k out) ≡ false
      → IsBuiltFrom (put k h out) fs name r
      → IsBuiltFrom out ((k, f) ∷ fs) name r
  unfolding get
  IsBuiltFrom-cons k f fs out h name r named free b = elim (Bool-cases (k == name)) [
    | inl e ↦ record {
      has = rw e (ground (arith, b.has, get-put k name h out, eq_iff k name));
      old = λ had.
          absurd
            (ground (arith, eq_iff k name, ap (λ j. is_some (get j out)) ((eq_iff k name).0 e)));
      named = λ h' none' some'. ground (
        arith,
        b.old,
        get-put k name h out,
        eq_iff k name,
        ap (λ j. h.name == j) ((eq_iff k name).0 e),
      );
    }
    | inr e ↦ record {
      has = rw e (ground (arith, b.has, get-put k name h out));
      old = λ had. ground (arith, b.old, get-put k name h out);
      named = λ h' none' some'. b.named h' (ground (arith, get-put k name h out)) some';
    }
  ]

  build_all-IsBuiltFrom :
      (fs : Dict Factory) (out : Dict Handle) (s : Sim W) (r : Dict Handle)
      → (build_all build duplicate fs out s).0 ≡ ok r
      → (name : String) → IsBuiltFrom out fs name r
  unfolding build_all
  build_all-IsBuiltFrom [] out s r = λ h name. nothing_built out r name cc
  build_all-IsBuiltFrom ((k, f) ∷ fs) out s r =
      elim (Result-cases (built k duplicate (build f s).0 out)) [
        | inl (x, e) ↦ rw (e, build_all) (λ h name. cc)
        | inr (more, e) ↦
            let b = built-ok k duplicate (build f s).0 out more e in
            let same : put k b.0 out ≡ more = sym b.3 in
            rw (e, build_all)
              (λ h name. IsBuiltFrom-cons k f fs out b.0 name r b.1 b.2 (
                subst (λ m. IsBuiltFrom m fs name r) b.3
                  (build_all-IsBuiltFrom fs more (build f s).1 r h name)))
      ]

  -- If the materialization of agents or workflows returns a map, then no name is both a ready
  -- object's and a factory's, the map holds exactly the names of both, the ready objects
  -- unchanged, and what it holds under a factory's name has that name.
  pub materialize-ok :
      (ready : Dict Handle) (fs : Dict Factory) (s : Sim W) (r : Dict Handle) (name : String)
      → (materialize build duplicate ready fs s).0 ≡ ok r
      → (is_some (get name r) ≡ (is_some (get name ready) || has_name name fs))
        × ((is_some (get name ready) && has_name name fs) ≡ false)
        × (is_some (get name ready) ≡ true → get name r ≡ get name ready)
        × ((h : Handle) → has_name name fs ≡ true → get name r ≡ some h → (h.name == name) ≡ true)
  unfolding materialize
  materialize-ok ready fs s r name = elim (Option-cases (shared_name ready fs)) [
    | inr (x, e) ↦ rw (e, materialize) (λ h. cc)
    | inl e ↦
        rw (e, materialize)
          (λ h.
            let b = build_all-IsBuiltFrom (sorted_factories fs) ready s r h name in
            let apart = shared_name-none ready fs name e in
            (
              b.has ∙ ap (λ t. is_some (get name ready) || t) (has_name-sorted name fs),
              apart,
              b.old,
              λ h listed found. b.named h (ground arith) found,
            ))
  ]
