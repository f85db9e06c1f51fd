-- ===== src/Tool/Invoke/Laws.antt =====
-- The contract of Invoke: what holds of a call that succeeds, and that the contract is enough.
use gall_lib.Common.{
  String, ◌≡◌, refl, sym, ap, ◌∙◌, Bool, true, false, not, Option, none, some, ◌==◌, arith, inl,
  inr, Option-cases,
}
use gall_lib.Common.Results.{Result, ok, err, ◌>>◌, >>=-cases}
use gall_lib.Context.{Interrupt, Fault}
use gall_lib.Types.{object, clone_value, clone_metadata}
use gall_lib.Types.Laws.{clone_value_lem, clone_map_lem, clone_metadata_lem}
use gall_lib.Tool.{Call, Output, Descriptor, Tool, ErrorKind, Sentinel, Error}
use gall_lib.Tool.Schemas.{Checked}
use gall_lib.Tool.Schemas.Laws.{accepts, clone_schema_lem}
use gall_lib.Tool.Checks.{validate_value}
use gall_lib.Tool.Checks.Conforms.{conforms, accepts-validate_value}
use gall_lib.Tool.Define.{no_origin, validate_tool, drafted}
use gall_lib.Tool.Define.Laws.{is_descriptor, validate_tool-ok}
use gall_lib.Tool.Invoke.{
  prepared_call, check_id, checked_value, prepare, check_context, call_error, finish, invoke,
}
use gall_lib.Tool.Invoke

-- The context has not ended, or there is none.
abbrev pub is_alive : {W : Type 0} → Option (W → Option Interrupt) → W → Bool
is_alive none world = true
is_alive (some ctx_err) world = elim (ctx_err world) [ none ↦ true | some i ↦ false ]

-- What a caller may rely on before the tool runs.
pub record IsReady {W : Type 0} (ctx : Option (W → Option Interrupt)) (t : Tool W) (call : Call)
    (world : W) : Type 0 where
  pub definition : is_descriptor (drafted t no_origin) ≡ true
  pub identified : (call.id == "") ≡ false
  pub input : conforms (object call.input) (drafted t no_origin).input_schema ≡ true
  pub alive : is_alive ctx world ≡ true

checked :
    (k : ErrorKind) (s : Sentinel) (d : Descriptor) (id : String) (c : Checked)
    → accepts (checked_value k s d id c) ≡ accepts c
checked k s d id (ok tt) = refl
checked k s d id (err e) = refl

accepted : (c : Result Error (Unit {0})) → accepts c ≡ true → c ≡ ok tt
accepted (ok tt) h = refl
accepted (err e) h = cc

prepared_call_lem :
    (d : Descriptor) (call : Call) → prepared_call d call ≡ record call { tool_name = d.name }
unfolding prepared_call
prepared_call_lem d call = rw (clone_map_lem call.input, clone_metadata_lem call.metadata) refl

check_id-ok : (d : Descriptor) (call : Call) → accepts (check_id d call) ≡ not (call.id == "")
check_id-ok d call = ground arith

-- The check of the input, as prepare makes it.
abbrev input_check : Descriptor → Call → Result Error (Unit {0})
input_check d call =
    checked_value ErrorKind.invalid_input Sentinel.err_invalid_input d call.id
      (validate_value (object (prepared_call d call).input) d.input_schema "input")

input_check_lem :
    (d : Descriptor) (call : Call)
    → accepts (input_check d call) ≡ conforms (object call.input) d.input_schema
unfolding prepared_call
input_check_lem d call =
    checked _ _ d call.id _
    ∙ rw (clone_map_lem call.input)
        (accepts-validate_value (object call.input) d.input_schema "input")

abbrev call_under : Descriptor → Call → Call
call_under d call = record call { tool_name = d.name }

abbrev prepared : Descriptor → Call → Result Error (Descriptor × Call)
prepared d call = ok (d, prepared_call d call)

-- The checks after the one of the definition.
checks-ok :
    (d : Descriptor) (call : Call) (p : Descriptor × Call)
    → (check_id d (prepared_call d call) >> (input_check d call >> prepared d call)) ≡ ok p
    → (p ≡ (d, call_under d call))
      × ((call.id == "") ≡ false)
      × (conforms (object call.input) d.input_schema ≡ true)
unfolding prepared_call
checks-ok d call p h = >>=-cases (check_id d (prepared_call d call)) _ h (λ u named h'.
    >>=-cases (input_check d call) _ h' (λ _ good made.
      let same : (d, prepared_call d call) ≡ p = cc in
      (
        sym same ∙ ap (λ c. (d, c)) (prepared_call_lem d call),
        ground (arith, check_id-ok d (prepared_call d call), ap accepts named),
        sym (input_check_lem d call) ∙ ap accepts good,
      )))

checks-of_ready :
    (d : Descriptor) (call : Call)
    → (call.id == "") ≡ false
    → conforms (object call.input) d.input_schema ≡ true
    → (check_id d (prepared_call d call) >> (input_check d call >> prepared d call))
      ≡ ok (d, call_under d call)
unfolding prepared_call
checks-of_ready d call named good =
    rw
      (
        accepted (check_id d (prepared_call d call))
            (check_id-ok d (prepared_call d call) ∙ ap not named),
        accepted (input_check d call) (input_check_lem d call ∙ good),
      )
      (ap (λ c. ok (d, c)) (prepared_call_lem d call))

module _ {W : Type 0} (t : Tool W) (call : Call) where
  abbrev pub the_descriptor : Descriptor
  the_descriptor = drafted t no_origin

  -- The call that the tool receives: the caller's, under the effective name.
  abbrev pub the_call : Call
  the_call = call_under the_descriptor call

  prepare-ok :
      (p : Descriptor × Call)
      → prepare t call ≡ ok p
      → (p ≡ (the_descriptor, the_call))
        × (is_descriptor the_descriptor ≡ true)
        × ((call.id == "") ≡ false)
        × (conforms (object call.input) the_descriptor.input_schema ≡ true)
  unfolding prepare
  prepare-ok p h = >>=-cases (validate_tool (some t) no_origin) _ h (λ d valid h'.
      let (draft, rules) = (validate_tool-ok t no_origin d).0 valid in
      let (made, named, good) = checks-ok d call p h' in
      (
        made ∙ ap (λ d. (d, call_under d call)) draft,
        ap is_descriptor (sym draft) ∙ rules,
        named,
        ap (λ d. conforms (object call.input) d.input_schema) (sym draft) ∙ good,
      ))

  prepare-of_ready :
      is_descriptor the_descriptor ≡ true
      → (call.id == "") ≡ false
      → conforms (object call.input) the_descriptor.input_schema ≡ true
      → prepare t call ≡ ok (the_descriptor, the_call)
  unfolding prepare
  prepare-of_ready rules named good =
      rw ((validate_tool-ok t no_origin the_descriptor).1 (refl, rules))
        (checks-of_ready the_descriptor call named good)

  -- If a tool's definition keeps the rules, the call has an id and a conforming input, and the
  -- context is alive, then Invoke calls the tool once, with the call under the tool's effective
  -- name, and returns the world that the tool left and the tool's answer after the check of its
  -- output.
  pub invoke-of_ready :
      (ctx : Option (W → Option Interrupt)) (world : W)
      → IsReady ctx t call world
      → invoke ctx (some t) call world
        ≡ (finish the_descriptor call.id (t.call the_call world).0, (t.call the_call world).1)
  unfolding invoke check_context Invoke.after_prepare Invoke.run_prepared Invoke.call_tool
  invoke-of_ready none world r = rw (prepare-of_ready r.definition r.identified r.input) refl
  invoke-of_ready (some ctx_err) world r = elim (Option-cases (ctx_err world)) [
    | inl e ↦
        rw
          (
            prepare-of_ready r.definition r.identified r.input,
            Invoke.after_prepare,
            check_context,
            e,
          )
          refl
    | inr (i, e) ↦ let a = r.alive in ground arith
  ]

output_lem :
    (r : Output)
    → record {
      value = clone_value r.value;
      content = r.content;
      metadata = clone_metadata r.metadata;
    }
      ≡ r
output_lem r = rw (clone_value_lem r.value, clone_metadata_lem r.metadata) refl

finish-ok :
    (d : Descriptor) (call_id : String) (reply : Result Fault Output) (out : Output)
    → finish d call_id reply ≡ ok out
    → (reply ≡ ok out) × (conforms out.value d.output_schema ≡ true)
unfolding finish
finish-ok d call_id (err f) out h = cc
finish-ok d call_id (ok r) out h =
    >>=-cases
      (checked_value ErrorKind.invalid_output Sentinel.err_invalid_output d call_id
        (validate_value r.value d.output_schema "output"))
      _ h
      (λ _ good made.
        let same : r ≡ out = sym (output_lem r) ∙ cc in
        (
          ap ok same,
          ap (λ o. conforms o.value d.output_schema) (sym same)
              ∙ sym (
                  checked _ _ d call_id _ ∙ accepts-validate_value r.value d.output_schema "output")
              ∙ ap accepts good,
        ))

check_context-ok :
    {W : Type 0} (ctx : Option (W → Option Interrupt)) (world : W) (d : Descriptor) (id : String)
    → accepts (check_context ctx world d id) ≡ is_alive ctx world
unfolding check_context
check_context-ok none world d id = refl
check_context-ok (some ctx_err) world d id = ground arith

module _ {W : Type 0} (ctx : Option (W → Option Interrupt)) (t : Tool W) (world : W)
    (out : Output) where
  record Passed (x : Result Error (Descriptor × Call)) : Type 0 where
    p : Descriptor × Call
    made : x ≡ ok p
    alive : is_alive ctx world ≡ true
    ended : finish p.0 p.1.id (t.call p.1 world).0 ≡ ok out

  run_prepared-ok :
      (p : Descriptor × Call) (c : Result Error (Unit {0}))
      → accepts c ≡ is_alive ctx world
      → (Invoke.run_prepared ctx t p world c).0 ≡ ok out
      → Passed (ok p)
  unfolding Invoke.run_prepared Invoke.call_tool
  run_prepared-ok p (ok tt) a h = record { p = p; made = refl; alive = sym a; ended = h }
  run_prepared-ok p (err e) a h = cc

  after_prepare-ok :
      (x : Result Error (Descriptor × Call))
      → (Invoke.after_prepare ctx t x world).0 ≡ ok out
      → Passed x
  unfolding Invoke.after_prepare
  after_prepare-ok (err e) h = cc
  after_prepare-ok (ok p) h = run_prepared-ok p _ (check_context-ok ctx world p.0 p.1.id) h

  -- If Invoke of a tool returns a result, then the tool's definition keeps the rules, the call has
  -- an id, the input conforms to the input schema and the context was alive; the result is what
  -- the tool itself answered to the call under its effective name, and its value conforms to the
  -- tool's output schema.
  pub invoke-ok :
      (call : Call)
      → (invoke ctx (some t) call world).0 ≡ ok out
      → IsReady ctx t call world
        × ((t.call (the_call t call) world).0 ≡ ok out)
        × (conforms out.value t.output_schema ≡ true)
  unfolding invoke drafted
  invoke-ok call h =
      let passed = after_prepare-ok (prepare t call) h in
      let (same, rules, named, good) = prepare-ok t call passed.p passed.made in
      let (reply, conform) = finish-ok passed.p.0 _ _ out passed.ended in
      (
        record { definition = rules; identified = named; input = good; alive = passed.alive },
        ap (λ p. (t.call p.1 world).0) (sym same) ∙ reply,
        ap (conforms out.value)
              (sym (clone_schema_lem t.output_schema) ∙ ap (λ p. p.0.output_schema) (sym same))
            ∙ conform,
      )
