-- ===== src/Tool/Invoke.antt =====
-- pkg/tool/invoke.go: the checks around a tool call.
pub mod Laws
use gall_lib.Common.{String, Bool, true, false, not, Option, none, some, ◌==◌, if◌then◌else◌}
use gall_lib.Common.Results.{Result, ok, err, ◌>>=◌, ◌>>◌}
use gall_lib.Context.{Interrupt, Fault}
use gall_lib.Types.{Value, object, clone_value, clone_map, clone_metadata}
use gall_lib.Tool.{
  Call, Output, Descriptor, Tool, ErrorKind, Sentinel, Reason, Cause, Error, new_error,
}
use gall_lib.Tool.Schemas.{Checked}
use gall_lib.Tool.Checks.{validate_value}
use gall_lib.Tool.Define.{no_origin, nil_tool, validate_tool}

unfoldable pub prepared_call : Descriptor → Call → Call
prepared_call d call = record {
  id = call.id;
  tool_name = d.name;
  run_id = call.run_id;
  session_id = call.session_id;
  agent_id = call.agent_id;
  input = clone_map call.input;
  metadata = clone_metadata call.metadata;
}

abbrev pub invoke_error : ErrorKind → Descriptor → String → Cause → Error
invoke_error k d call_id c = new_error k "invoke" d.name d.toolkit call_id c

-- fmt.Errorf("%w: %v", sentinel, err): the text of err alone is kept.
abbrev pub text_of : Sentinel → Cause → Cause
text_of s (Cause.marked t r) = Cause.marked s r
text_of s (Cause.plain r) = Cause.marked s r
text_of s c = c

abbrev pub checked_value :
    ErrorKind → Sentinel → Descriptor → String → Checked → Result Error (Unit {0})
checked_value k s d call_id (ok _) = ok tt
checked_value k s d call_id (err c) = err (invoke_error k d call_id (text_of s c))

abbrev pub check_id : Descriptor → Call → Result Error (Unit {0})
check_id d call =
    if call.id == ""
    then err (
        invoke_error ErrorKind.invalid_input d ""
          (Cause.marked Sentinel.err_invalid_input Reason.id_required))
    else ok tt

-- The checks before the call: the definition, the call's id, and its input.
unfoldable pub prepare : {W : Type 0} → Tool W → Call → Result Error (Descriptor × Call)
prepare t call = do
  d ← validate_tool (some t) no_origin
  check_id d (prepared_call d call)
  checked_value ErrorKind.invalid_input Sentinel.err_invalid_input d call.id
      (validate_value (object (prepared_call d call).input) d.input_schema "input")
  ok (d, prepared_call d call)

unfoldable pub check_context :
    {W : Type 0} → Option (W → Option Interrupt) → W → Descriptor → String → Result Error (Unit {0})
check_context none world d call_id = ok tt
check_context (some ctx_err) world d call_id = elim (ctx_err world) [
  | none ↦ ok tt
  | some i ↦ err (invoke_error ErrorKind.canceled d call_id (Cause.interrupted i))
]

-- classifyContextError, and the error of a call where it answers nothing
unfoldable pub call_error : Fault → Descriptor → String → Error
call_error f d call_id = elim f.interrupt [
  | some i ↦ invoke_error ErrorKind.canceled d call_id (Cause.wrapped f)
  | none ↦ invoke_error ErrorKind.execution d call_id (Cause.wrapped f)
]

unfoldable pub finish : Descriptor → String → Result Fault Output → Result Error Output
finish d call_id (err f) = err (call_error f d call_id)
finish d call_id (ok r) = do
  checked_value ErrorKind.invalid_output Sentinel.err_invalid_output d call_id
      (validate_value r.value d.output_schema "output")
  ok (record {
    value = clone_value r.value;
    content = r.content;
    metadata = clone_metadata r.metadata;
  })

module _ {W : Type 0} where
  call_tool : Tool W → Descriptor → Call → W → Result Error Output × W
  call_tool t d call world =
      let (reply, world') = t.call call world in (finish d call.id reply, world')

  run_prepared :
      Option (W → Option Interrupt)
      → Tool W
      → Descriptor × Call
      → W
      → Result Error (Unit {0})
      → Result Error Output × W
  unfolding call_tool
  run_prepared ctx t p world (ok _) = call_tool t p.0 p.1 world
  run_prepared ctx t p world (err e) = (err e, world)

  after_prepare :
      Option (W → Option Interrupt)
      → Tool W
      → Result Error (Descriptor × Call)
      → W
      → Result Error Output × W
  unfolding run_prepared
  after_prepare ctx t (err e) world = (err e, world)
  after_prepare ctx t (ok p) world = run_prepared ctx t p world (check_context ctx world p.0 p.1.id)

  unfoldable pub invoke :
      Option (W → Option Interrupt) → Option (Tool W) → Call → W → Result Error Output × W
  unfolding after_prepare
  invoke ctx none call world = (err (nil_tool no_origin), world)
  invoke ctx (some t) call world = after_prepare ctx t (prepare t call) world
