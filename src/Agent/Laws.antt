-- ===== src/Agent/Laws.antt =====
-- What normalizeRequest accepts, and which tools filterTools leaves to a run.
use mathlib.Core.Path.{subst}
use gall_lib.Common.{
  ℕ, String, ◌≡◌, refl, sym, ap, ◌∙◌, Bool, true, false, ◌&&◌, ◌||◌, not, some, List, [], ◌∷◌, ◌==◌,
  arith, eq_iff, all, inl, inr, Bool-cases,
}
use gall_lib.Common.Dict.{Dict, get, put, get-put, is_some}
use gall_lib.Common.Results.{ok, >>=-cases}
use gall_lib.Text.{trim_space, contains}
use gall_lib.Types.{ℤ, pos, negsuc}
use gall_lib.Tool.{Tool}
use gall_lib.Tool.Define.{descriptor_of}
use gall_lib.Tool.Schemas.Laws.{accepts, accepts-then}
use gall_lib.Agent.{
  Agent, Request, Error, ToolChoice, unset, auto, no_tools, must_use, other_choice, less,
  is_reserved, refuse_if, has_tool, check_allowed, check_request, step_budget, effective_request,
  normalize_request, admits, filter_loop, filtered, filter_tools,
}

accepts-refuse_if : (b : Bool) (e : Error) → accepts (refuse_if b e) ≡ not b
accepts-refuse_if true e = refl
accepts-refuse_if false e = refl

abbrev pub offers_tools : ToolChoice → Bool
offers_tools no_tools = false
offers_tools _ = true

module _ {W : Type 0} where
  filter_loop_lem :
      (allowed : List String) (ts : List (Tool W)) (out : Dict (Tool W)) (name : String)
      → is_some (get name (filter_loop allowed ts out))
        ≡ (is_some (get name out) || (admits allowed name && has_tool name ts))
  unfolding filter_loop has_tool
  filter_loop_lem allowed [] out name = ground arith
  filter_loop_lem allowed (t ∷ ts) out name =
      let here : String = (descriptor_of (some t)).name in
      elim (Bool-cases (admits allowed here)) [
        | inl e ↦
            rw (e, filter_loop)
              (filter_loop_lem allowed ts (put here t out) name
                ∙ ground (arith, get-put here name t out, eq_iff here name))
        | inr e ↦
            rw (e, filter_loop)
              (filter_loop_lem allowed ts out name ∙ ground (arith, eq_iff here name))
      ]

  pub filter_tools_lem :
      (ts : List (Tool W)) (req : Request) (name : String)
      → is_some (get name (filter_tools ts req))
        ≡ (offers_tools req.tool_choice && admits req.allowed_tools name && has_tool name ts)
  unfolding filter_tools
  filter_tools_lem ts req name = by_choice req.tool_choice
    where
      by_choice :
          (c : ToolChoice)
          → is_some (get name (filtered ts req.allowed_tools c))
            ≡ (offers_tools c && admits req.allowed_tools name && has_tool name ts)
      by_choice no_tools = unfold get in refl
      by_choice unset = unfold get in filter_loop_lem req.allowed_tools ts [] name
      by_choice auto = unfold get in filter_loop_lem req.allowed_tools ts [] name
      by_choice must_use = unfold get in filter_loop_lem req.allowed_tools ts [] name
      by_choice (other_choice c) = unfold get in filter_loop_lem req.allowed_tools ts [] name

  -- A name that a run may be allowed: it is set, not reserved, and one of the agent's tools.
  abbrev pub is_known : Agent W → String → Bool
  is_known a name = not (name == "") && not (is_reserved name) && has_tool name a.tools

  has_tool-seen :
      (a : Agent W) (seen : List String) (name : String)
      → all (λ k. has_tool k a.tools) seen ≡ true
      → contains seen name ≡ true
      → has_tool name a.tools ≡ true
  unfolding contains
  has_tool-seen a [] name h c = cc
  has_tool-seen a (s ∷ seen) name h c = elim (Bool-cases (s == name)) [
    | inl e ↦
        let same : s ≡ name = (eq_iff s name).0 e in
        let here : has_tool s a.tools ≡ true = ground arith in
        ap (λ k. has_tool k a.tools) (sym same) ∙ here
    | inr e ↦ has_tool-seen a seen name (ground arith) (ground arith)
  ]

  accepts-check_allowed :
      (a : Agent W) (op run_id : String) (seen names : List String)
      → all (λ k. has_tool k a.tools) seen ≡ true
      → accepts (check_allowed a op run_id seen names) ≡ all (λ k. is_known a (trim_space k)) names
  unfolding check_allowed
  accepts-check_allowed a op run_id seen [] h = refl
  accepts-check_allowed a op run_id seen (k ∷ names) h =
      elim (Bool-cases (contains seen (trim_space k))) [
        | inl e ↦
            let known = has_tool-seen a seen (trim_space k) h e in
            rw (e, check_allowed)
              (grind (
                arith,
                known,
                accepts-then,
                accepts-refuse_if,
                accepts-check_allowed a op run_id seen names h,
              ))
        | inr e ↦ elim (Bool-cases (has_tool (trim_space k) a.tools)) [
          | inl f ↦
              let more : all (λ k. has_tool k a.tools) (trim_space k ∷ seen) ≡ true =
                ground arith in
              rw (e, check_allowed)
                (grind (
                  arith,
                  f,
                  accepts-then,
                  accepts-refuse_if,
                  accepts-check_allowed a op run_id (trim_space k ∷ seen) names more,
                ))
          | inr f ↦ rw (e, check_allowed) (grind (arith, f, accepts-then, accepts-refuse_if))
        ]
      ]

less_asym : (a b : ℤ) → less a b ≡ true → less b a ≡ false
less_asym (pos a) (pos b) h = ground arith
less_asym (pos a) (negsuc b) h = cc
less_asym (negsuc a) (pos b) h = refl
less_asym (negsuc a) (negsuc b) h = ground arith

less_irrefl : (a : ℤ) → less a a ≡ false
less_irrefl (pos a) = ground arith
less_irrefl (negsuc a) = ground arith

step_budget_lem : (limit asked : ℤ) → less limit (step_budget limit asked) ≡ false
step_budget_lem limit asked = elim (Bool-cases (less (pos 0) asked && less asked limit)) [
  | inl e ↦ rw (e, step_budget) (less_asym asked limit (ground arith))
  | inr e ↦ rw (e, step_budget) (less_irrefl limit)
]

module _ {W : Type 0} (a : Agent W) (op : String) (has_context : Bool) (req : Request)
    (sequence : ℕ) where
  -- normalizeRequest accepts a request exactly if there is a context, the step bound is not
  -- negative, there is a session id where the agent has a memory, and every allowed tool name,
  -- when trimmed, is set, not reserved and the name of a tool of the agent; repeated names are no
  -- obstacle.
  pub accepts-normalize_request : accepts (normalize_request a op has_context req sequence) ≡ (
      has_context
      && not (less req.max_steps (pos 0))
      && not (a.has_memory && trim_space req.session_id == "")
      && all (λ k. is_known a (trim_space k)) req.allowed_tools)
  unfolding normalize_request effective_request
  accepts-normalize_request = grind (
    arith,
    accepts-then,
    accepts-refuse_if,
    accepts-check_allowed a op (effective_request a req sequence).run_id [] req.allowed_tools refl,
  )

  -- A request that normalizeRequest returns has a step bound that is not above the agent's, and
  -- each of its allowed tool names, when trimmed, is set, not reserved and the name of a tool of
  -- the agent.
  pub normalize_request-ok :
      (r : Request)
      → normalize_request a op has_context req sequence ≡ ok r
      → (less a.max_steps r.max_steps ≡ false)
        × (all (λ k. is_known a (trim_space k)) r.allowed_tools ≡ true)
  unfolding normalize_request
  normalize_request-ok r h = >>=-cases (check_request a op has_context req) _ h (λ _ _ h'.
      >>=-cases
        (check_allowed a op (effective_request a req sequence).run_id []
          (effective_request a req sequence).allowed_tools)
        _ h'
        (λ _ checked made.
          let same : effective_request a req sequence ≡ r = cc in
          subst
            (λ q.
              (less a.max_steps q.max_steps ≡ false)
              × (all (λ k. is_known a (trim_space k)) q.allowed_tools ≡ true))
            same
            (unfold effective_request in
              (
                step_budget_lem a.max_steps req.max_steps,
                sym (
                      accepts-check_allowed a op (effective_request a req sequence).run_id []
                        req.allowed_tools refl)
                    ∙ ap accepts checked,
              ))))

-- If the only allowed tool name of a request has surrounding white space, then filterTools leaves
-- no name to the run that is free of it.
pub padded-filter_tools :
    {W : Type 0} (ts : List (Tool W)) (req : Request) (given name : String)
    → req.allowed_tools ≡ given ∷ []
    → (trim_space given == given) ≡ false
    → (trim_space name == name) ≡ true
    → is_some (get name (filter_tools ts req)) ≡ false
padded-filter_tools ts req given name one padded clean =
    filter_tools_lem ts req name ∙ rw one (ground (arith, not_given))
  where
    not_given : contains (given ∷ []) name ≡ false
    not_given =
        unfold contains in
        elim (Bool-cases (given == name)) [
          | inl e ↦
              let same : name ≡ given = sym ((eq_iff given name).0 e) in
              cc (ap (λ s. trim_space s == s) same)
          | inr e ↦ rw e refl
        ]
