-- ===== src/Runtime/Collect/Laws.antt =====
-- What the collection of a model's answer leaves of a run.
use gall_lib.Common.{
  ℕ, zero, suc, ◌+◌, ◌≡◌, refl, Bool, true, false, Option, none, some, List, inl, inr, Bool-cases,
}
use gall_lib.Common.Results as Results
use gall_lib.Common.Results.{Result}
use gall_lib.Types.{MessageDelta}
use gall_lib.Runtime.{
  Foreign, EventType, ModelRequest, ModelResponse, ModelEvent, Received, received, end_of_stream,
  recv_failed, GuardrailDecision,
}
use gall_lib.Runtime.Exec.{Sim, Exec, Outcome, ok, err, running, panicked}
use gall_lib.Runtime.Emitter.{Env}
use gall_lib.Runtime.Guardrails.{Chunk, ChunkOutcome, chunk_emit, chunk_drop}
use gall_lib.Runtime.Guardrails.Laws.{apply_stream_guardrails-Runs}
use gall_lib.Runtime.Collect.{
  Collected, nothing_collected, answered, deliver, take_delta, take_event, after_recv, recv_loop,
  closing, collect_streaming_model_response, generate, or_generate, collect_by,
  collect_model_response,
}
use gall_lib.Runtime.Post.{
  Post, Runs, Leaves, Whatever, Unreported, Runs-bind, Runs-pure, Runs-raise, Runs-calling,
  Runs-emit,
}

module _ {W : Type 0} (env : Env W) where
  answered-Runs :
      {A : Type 0} (r : Result Foreign A) → Runs env (answered env r) (Leaves Whatever) Unreported
  answered-Runs (Results.ok a) = Runs-pure env Whatever Unreported a tt
  answered-Runs (Results.err f) = Runs-raise env (Leaves Whatever) _

  deliver-Runs :
      (chunk : Chunk) (c : Collected) (o : ChunkOutcome)
      → Runs env (deliver env chunk c o) (Leaves Whatever) Unreported
  deliver-Runs chunk c chunk_drop = Runs-pure env Whatever Unreported c tt
  deliver-Runs chunk c chunk_emit =
      Runs-bind env (Leaves Whatever) Unreported Whatever
        (Runs-emit env Unreported EventType.agent_delta _ refl (λ e. refl) (λ e. refl))
        λ _ _. Runs-pure env Whatever Unreported _ tt

  take_delta-Runs :
      (d : Option MessageDelta) (c : Collected)
      → Runs env (take_delta env d c) (Leaves Whatever) Unreported
  take_delta-Runs none c = Runs-pure env Whatever Unreported c tt
  take_delta-Runs (some d) c =
      Runs-bind env (Leaves Whatever) Unreported Whatever
        (apply_stream_guardrails-Runs env d (c.chunk_index + 1) c.buffered)
        λ chunk _.
          Runs-bind env (Leaves Whatever) Unreported Whatever (deliver-Runs chunk _ chunk.outcome)
            λ c' _. Runs-pure env Whatever Unreported _ tt

  take_event-Runs :
      (e : ModelEvent) (c : Collected) → Runs env (take_event env e c) (Leaves Whatever) Unreported
  unfolding take_event
  take_event-Runs e c =
      Runs-bind env (Leaves Whatever) Unreported Whatever (take_delta-Runs e.delta _)
        λ c' _. Runs-pure env Whatever Unreported _ tt

  after_recv-Runs :
      (c : Collected) (again : Collected → Exec W Collected) (r : Received)
      → ((c : Collected) → Runs env (again c) (Leaves Whatever) Unreported)
      → Runs env (after_recv env c again r) (Leaves Whatever) Unreported
  after_recv-Runs c again end_of_stream go = Runs-pure env Whatever Unreported c tt
  after_recv-Runs c again (recv_failed f) go = Runs-raise env (Leaves Whatever) _
  after_recv-Runs c again (received e) go =
      Runs-bind env (Leaves Whatever) Unreported Whatever (take_event-Runs e c) λ c' _.
        elim (Bool-cases e.done) [
          | inl d ↦ rw d (Runs-pure env Whatever Unreported c' tt)
          | inr d ↦ rw d (go c')
        ]

  module _ (streamed : env.streaming ≡ true) where
    recv_loop-Runs :
        (fuel handle : ℕ) (c : Collected)
        → Runs env (recv_loop env fuel handle c) (Leaves Whatever) Unreported
    unfolding recv_loop
    recv_loop-Runs zero handle c = record { at = λ s h. (streamed, h) }
    recv_loop-Runs (suc fuel) handle c =
        let m =
          Runs-bind env (Leaves Whatever) Unreported Whatever
            (Runs-calling env Unreported (env.definition.model.recv handle))
            (λ r _. after_recv-Runs c _ r (λ c'. recv_loop-Runs fuel handle c')) in
        record { at = m.at }

    closing-Post :
        {A : Type 0} (handle : ℕ) (r : Outcome A × Sim W)
        → Post env (Leaves Whatever) Unreported r
        → Post env (Leaves Whatever) Unreported (closing env handle r)
    closing-Post handle (ok a, s) (v, h) =
        (tt, record { counted = h.counted; numbered = h.numbered; going_on = h.going_on })
    closing-Post handle (err f, s) h = record {
      counted = h.counted;
      numbered = h.numbered;
      going_on = h.going_on;
    }
    closing-Post handle (running, s) (t, h) =
        (t, record { counted = h.counted; numbered = h.numbered; going_on = h.going_on })
    closing-Post handle (panicked, s) h = elim h [ ]

    collect_streaming-Runs :
        (fuel : ℕ) (request : ModelRequest)
        → Runs env (collect_streaming_model_response env fuel request) (Leaves Whatever) Unreported
    unfolding collect_streaming_model_response
    collect_streaming-Runs fuel request =
        Runs-bind env (Leaves Whatever) Unreported Whatever (Runs-calling env Unreported _)
          λ opened _.
            Runs-bind env (Leaves Whatever) Unreported Whatever (answered-Runs opened) λ handle _.
              Runs-bind env (Leaves Whatever) Unreported Whatever
                (record {
                  at = λ s h.
                      closing-Post handle (recv_loop env fuel handle nothing_collected s)
                        ((recv_loop-Runs fuel handle nothing_collected).at s h);
                })
                λ c _. Runs-pure env Whatever Unreported _ tt

  generate-Runs :
      (request : ModelRequest) → Runs env (generate env request) (Leaves Whatever) Unreported
  unfolding generate
  generate-Runs request =
      Runs-bind env (Leaves Whatever) Unreported Whatever (Runs-calling env Unreported _)
        λ answer _.
          Runs-bind env (Leaves Whatever) Unreported Whatever (answered-Runs answer)
            λ response _. Runs-pure env Whatever Unreported _ tt

  or_generate-Runs :
      (request : ModelRequest) (o : Option (ModelResponse × List GuardrailDecision))
      → Runs env (or_generate env request o) (Leaves Whatever) Unreported
  or_generate-Runs request (some r) = Runs-pure env Whatever Unreported r tt
  or_generate-Runs request none = generate-Runs request

  collect_by-Runs :
      (b : Bool) (fuel : ℕ) (request : ModelRequest)
      → env.streaming ≡ b
      → Runs env (collect_by env b fuel request) (Leaves Whatever) Unreported
  collect_by-Runs true fuel request e =
      Runs-bind env (Leaves Whatever) Unreported Whatever (collect_streaming-Runs e fuel request)
        λ o _. or_generate-Runs request o
  collect_by-Runs false fuel request e = generate-Runs request

  pub collect_model_response-Runs :
      (fuel : ℕ) (request : ModelRequest)
      → Runs env (collect_model_response env fuel request) (Leaves Whatever) Unreported
  unfolding collect_model_response
  collect_model_response-Runs fuel request = collect_by-Runs env.streaming fuel request refl
