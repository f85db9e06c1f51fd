-- ===== src/Workflow/Builder/Laws.antt =====
-- What Build guarantees of the chain that it returns.
use gall_lib.Common.{
  ℕ, suc, ◌<◌, String, ◌≡◌, refl, sym, ap, ◌∙◌, inl, inr, false, Option, none, some, List, [], ◌∷◌,
  ◌++◌, ◌==◌, eq_iff, eq_refl, arith, length, length-append, append-nil, get_elem?,
  get_elem?-concat, get_elem?-concat_self, get_elem?-concat_inv, Bool-cases,
}
use gall_lib.Common.Dict.{Dict, get, put, is_some, get-nil, get-put}
use gall_lib.Common.Results.{ok, >>=-eq-ok}
use gall_lib.Text.{trim_space}
use gall_lib.Workflow.{Step}
use gall_lib.Workflow.Builder.{
  Builder, Built, Chain, build, build_step, build_steps, no_built, is_nil, chain_of,
}

-- The index answers each position under the name of the step that stands there, and no other.
pub record IsIndexed {W : Type 0} (steps : List (Step W)) (index : Dict ℕ) : Type 0 where
  pub resolves :
      (name : String) (i : ℕ)
      → get name index ≡ some i
      → (step : Step W) × (get_elem? steps i ≡ some step) × (trim_space step.name ≡ name)
  pub indexed :
      (i : ℕ) (step : Step W)
      → get_elem? steps i ≡ some step
      → get (trim_space step.name) index ≡ some i

module _ {W : Type 0} where
  IsIndexed-nil : IsIndexed {W = W} [] []
  IsIndexed-nil = record {
    resolves = λ name i h. cc (get-nil {V = ℕ} name);
    indexed = λ i step h. cc;
  }

  resolves-concat :
      (steps : List (Step W)) (index : Dict ℕ) (step : Step W) (name : String) (i : ℕ)
      → IsIndexed steps index
      → get name (put (trim_space step.name) (length steps) index) ≡ some i
      → (step' : Step W) × (get_elem? (steps ++ step ∷ []) i ≡ some step')
        × (trim_space step'.name ≡ name)
  resolves-concat steps index step name i inv h = elim (Bool-cases (trim_space step.name == name)) [
    | inl e ↦
        let at_end : length steps ≡ i =
          ground (arith, get-put (trim_space step.name) name (length steps) index) in
        (step, rw (← at_end) (get_elem?-concat_self steps step), (eq_iff _ _).0 e)
    | inr e ↦
        let (step', here, named) =
          inv.resolves name i
            (ground (arith, get-put (trim_space step.name) name (length steps) index)) in
        (step', get_elem?-concat steps i step here, named)
  ]

  indexed-concat :
      (steps : List (Step W)) (index : Dict ℕ) (step : Step W) (i : ℕ) (step' : Step W)
      → IsIndexed steps index
      → is_some (get (trim_space step.name) index) ≡ false
      → get_elem? (steps ++ step ∷ []) i ≡ some step'
      → get (trim_space step'.name) (put (trim_space step.name) (length steps) index) ≡ some i
  indexed-concat steps index step i step' inv fresh h = elim (get_elem?-concat_inv steps i step h) [
    | inl old ↦ ground (
      arith,
      inv.indexed i step' old,
      get-put (trim_space step.name) (trim_space step'.name) (length steps) index,
      eq_iff (trim_space step.name) (trim_space step'.name),
    )
    | inr (here, same) ↦ rw (here, ← same, get-put, eq_refl) refl
  ]

  -- What an accepted step was, and what the loop's locals became.
  pub record Accepted (index : ℕ) (step : Step W) (acc acc' : Built W) : Type 0 where
    pub valid : step.validation_error ≡ none
    pub named : (trim_space step.name == "") ≡ false
    pub fresh : is_some (get (trim_space step.name) acc.index_by_name) ≡ false
    pub result : acc' ≡ record {
      steps = acc.steps ++ step ∷ [];
      index_by_name = put (trim_space step.name) index acc.index_by_name;
      descriptors =
          acc.descriptors ++ record { name = trim_space step.name; kind = step.kind } ∷ [];
    }

  build_step-Accepted :
      (index : ℕ) (step : Step W) (acc acc' : Built W)
      → build_step index (some step) acc ≡ ok acc'
      → Accepted index step acc acc'
  unfolding build_step
  build_step-Accepted index step acc acc' h = record {
    valid = ground arith;
    named = ground arith;
    fresh = ground arith;
    result = ground arith;
  }

  build_step-nil :
      (index : ℕ) (acc acc' : Built W) → build_step {W = W} index none acc ≡ ok acc' → ⊥
  unfolding build_step
  build_step-nil index acc acc' h = cc

  -- The loop's invariant, at the index of the next step.
  pub record LoopInv (index : ℕ) (acc : Built W) : Type 0 where
    pub count : length acc.steps ≡ index
    pub index_ok : IsIndexed acc.steps acc.index_by_name

  LoopInv-step :
      (index : ℕ) (step : Step W) (acc : Built W)
      → LoopInv index acc
      → is_some (get (trim_space step.name) acc.index_by_name) ≡ false
      → LoopInv (suc index) (record {
        steps = acc.steps ++ step ∷ [];
        index_by_name = put (trim_space step.name) index acc.index_by_name;
        descriptors =
            acc.descriptors ++ record { name = trim_space step.name; kind = step.kind } ∷ [];
      })
  LoopInv-step index step acc inv fresh = record {
    count = omega (arith, length-append acc.steps (step ∷ []), inv.count);
    index_ok = rw (← inv.count) (record {
      resolves = λ name i h. resolves-concat acc.steps acc.index_by_name step name i inv.index_ok h;
      indexed =
          λ i step' h. indexed-concat acc.steps acc.index_by_name step i step' inv.index_ok fresh h;
    });
  }

  -- All steps that were given, in their order, follow those that were there.
  abbrev pub as_given : List (Step W) → List (Option (Step W))
  as_given [] = []
  as_given (step ∷ steps) = some step ∷ as_given steps

  as_given-concat :
      (steps : List (Step W)) (step : Step W) (given : List (Option (Step W)))
      → as_given (steps ++ step ∷ []) ++ given ≡ as_given steps ++ (some step ∷ given)
  as_given-concat [] step given = refl
  as_given-concat (s ∷ steps) step given = ap (λ l. some s ∷ l) (as_given-concat steps step given)

  pub build_steps_sound :
      (index : ℕ) (given : List (Option (Step W))) (acc acc' : Built W)
      → LoopInv index acc
      → build_steps index given acc ≡ ok acc'
      → IsIndexed acc'.steps acc'.index_by_name
        × (as_given acc'.steps ≡ as_given acc.steps ++ given)
  unfolding build_steps
  build_steps_sound index [] acc acc' inv h =
      let same : acc ≡ acc' = cc in
      rw (← same) (inv.index_ok, sym (append-nil (as_given acc.steps)))
  build_steps_sound index (none ∷ given) acc acc' inv h =
      let (mid, here, rest) = >>=-eq-ok (build_step index none acc) _ h in
      absurd (build_step-nil index acc mid here)
  build_steps_sound index (some step ∷ given) acc acc' inv h =
      let (mid, here, rest) = >>=-eq-ok (build_step index (some step) acc) _ h in
      let accepted = build_step-Accepted index step acc mid here in
      let (ih, all) =
        build_steps_sound (suc index) given mid acc'
          (rw accepted.result (LoopInv-step index step acc inv accepted.fresh)) rest in
      (ih, all ∙ rw accepted.result (as_given-concat acc.steps step given))

  -- The chain that Build returns holds the given steps in their order, at least one, and its index
  -- takes a name to the position of the step with that trimmed name, and each position is reached
  -- under its step's trimmed name: so no two steps share one.
  pub record IsBuilt (b : Builder W) (chain : Chain W) : Type 0 where
    pub in_order : as_given chain.steps ≡ b.steps
    pub some_step : 0 < length chain.steps
    pub index_ok : IsIndexed chain.steps chain.step_index
    pub named : (chain.name == "") ≡ false

  LoopInv-zero : LoopInv 0 (no_built {W = W})
  LoopInv-zero = record { count = refl; index_ok = IsIndexed-nil }

  some_given :
      (steps : List (Step W)) (given : List (Option (Step W)))
      → as_given steps ≡ given
      → is_nil given ≡ false
      → 0 < length steps
  some_given [] given h e = cc
  some_given (step ∷ steps) given h e = omega arith

  -- The tests that Build made, and its loop's answer.
  built_checks :
      (b : Builder W) (chain : Chain W)
      → build (some b) ≡ ok chain
      → ((trim_space b.name == "") ≡ false)
        × (is_nil b.steps ≡ false)
        × ((acc : Built W) × (build_steps 0 b.steps no_built ≡ ok acc) × (chain_of b acc ≡ chain))
  unfolding build
  built_checks b chain h = elim (Bool-cases (trim_space b.name == "")) [
    | inl e ↦ cc (rw (e, build) at h)
    | inr e ↦ elim (Bool-cases (is_nil b.steps)) [
      | inl f ↦ cc (rw (e, f, build) at h)
      | inr f ↦
          let (acc, here, there) =
            >>=-eq-ok (build_steps 0 b.steps no_built) (λ a. ok (chain_of b a))
              (rw (e, f, build) at h) in
          (e, f, (acc, here, cc there))
    ]
  ]

  -- The chain that Build returns holds the builder's steps in their order, at least one of them,
  -- and has a name; its index takes a name to a position exactly if the step at that position has
  -- that name when trimmed, and so no two steps share one.
  pub build-IsBuilt :
      (b : Builder W) (chain : Chain W) → build (some b) ≡ ok chain → IsBuilt b chain
  build-IsBuilt b chain h =
      let (named, given, (acc, here, same)) = built_checks b chain h in
      let (index, all) = build_steps_sound 0 b.steps no_built acc LoopInv-zero here in
      rw (← same) (record {
        in_order = all;
        some_step = some_given acc.steps b.steps all given;
        index_ok = index;
        named = named;
      })
