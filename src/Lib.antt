-- ===== src/Lib.antt =====
-- gaal-lib: the app with its lifecycle, the run of an agent by the engine, the workflow engine, the
-- conversation memory, the tool contracts, the agent's requests and the shared types.
--
-- A chain of steps is built by pkg/workflow/builder.go and run by Chain.Run of chain.go, which calls
-- steps, hooks, a history sink, a retry policy, a clock and a context that the user supplies. The
-- shared types of pkg/types are copied at every border. pkg/memory keeps conversations by session
-- inside of a scope of user and conversation. pkg/tool checks tool definitions when they are
-- registered and values when a tool is invoked. pkg/agent makes the effective request of a run, and
-- internal/runtime executes it: the engine asks a model, calls tools, passes messages through the
-- guardrails of pkg/guardrail, loads and saves the memory, and reports every step as an event to
-- hooks and, in a stream, to a consumer. pkg/app registers agents and workflows, makes those that
-- factories build when it starts, and starts and stops servers around them.
--
-- Files and code:
--   Common, Common/*       names of the library, Boolean tests, lists, Go maps as association lists
--   Text                   the parts of Go's strings and unicode that the sources call
--   Context                context.Context, as ctx.Err() shows it, and errors of other code
--   Types                  pkg/types/types.go, and the dynamic values (`any`) of all envelopes
--   Memory                 pkg/memory: in_memory_store.go, in_memory_working.go
--   Workflow               pkg/workflow: workflow.go, step.go, errors.go
--   Workflow/Ids           normalizeID of builder.go
--   Workflow/State         state.go
--   Workflow/Steps         the step constructors of step.go
--   Workflow/Builder       builder.go
--   Workflow/History       history.go, retry.go
--   Workflow/Chain         chain.go without Run: resolveNext, emitLifecycle, appendHistory, ...
--   Workflow/Views         Chain's ID, Name, Descriptor and Definition; LifecycleHooks of workflow.go
--   Workflow/Exec, Run     Chain.Run: its locals are the record Sim, its code a state monad over them
--   Tool                   pkg/tool: tool.go, errors.go
--   Tool/Schemas, Checks   schemas, names and values of validate.go
--   Tool/Define            validateToolDefinition, and DescriptorOf of tool.go
--   Tool/Registry          registry.go
--   Tool/Invoke            invoke.go
--   Agent                  normalizeRequest of pkg/agent/agent.go, filterTools of internal/runtime/engine.go
--   App                    pkg/app: the types of app.go and observability.go, and what App keeps
--   App/Merge, Config      defaults and their merge; options and New
--   App/Registration       registerReadyAgent, registerAgentFactory, resolveAgent, listAgents, ...
--   App/Events             emitEvent, shutdownContext, and the metadata of observability.go
--   App/Servers, Bootstrap the servers and their rollback; materialization and start
--   App/Lifecycle          EnsureStarted, Run, Shutdown, Invoke
--   App/Calm and others    what calls of the app keep, for the theorems on its history
--   Runtime                the envelopes of pkg/agent/agent.go and pkg/guardrail/guardrail.go
--   Runtime/Classify       classifyError, checkCanceled of internal/runtime/engine.go; Error.Is
--   Runtime/Exec, Post     the locals of a run with a state monad over them; what code leaves of them
--   Runtime/Copies         cloneAgentEvent and the other copies, buildToolSpecs, newToolCallID
--   Runtime/Emitter        eventEmitter
--   Runtime/Guardrails     applyInputGuardrails, applyStreamGuardrails, applyOutputGuardrails
--   Runtime/Tools          invokePublicToolCall, executeSuggestedToolCall
--   Runtime/Collect        collectModelResponse, collectStreamingModelResponse
--   Runtime/Execute, Steps execute: how it loads, saves and answers; its loop, and Run
--   Runtime/Sink           streamSink and Stream, as a step relation of the run and its consumer
--   Examples               the theorems at concrete inputs
--
-- Model. Go's `(value, error)` is a Result; in Run it is an Outcome, which has a third case for a run
-- whose fuel ended. The state of everything outside of the library is a type W: steps, hooks, sinks
-- and tools are functions that read and change it, and retry policies, clocks and contexts read it, so
-- they may do anything but touch the locals of Run other than the shared state, which a step gets and
-- gives back. A Go map is a list of
-- entries in the order in which a range visits them; a nil map and an empty one read alike and are
-- one list. Pointers and interfaces that may be nil are Options. Methods under a lock are one step
-- each. Values are copied structurally, so a deep copy is equal to its original; the shared state of
-- a run is the one object that is passed on and not copied.
--
-- The App keeps interface values by their address, and an environment says what their methods do to
-- the whole state, so that hooks and factories may call the app back; other goroutines act within
-- such calls. A run of the engine likewise acts on a world by the methods of its definition; its
-- locals are a record, an early return with an error is `err`, and a read through a nil pointer
-- would be `panicked`. What a guardrail, a model, a tool, a store, a hook or the reasoning answers
-- is any function of the world.
--
-- Fuel. Chain.Run has two loops: `fuel` bounds the rounds of the outer one, `tries` those of the
-- inner one for each step. A workflow may branch back, and a policy may retry for ever, so no fuel
-- is enough for every chain; for chains without named transitions under policies that give up,
-- one round more than there are steps and one try more than there are retries are enough.
-- EnsureStarted has fuel for its turns at a start that another goroutine is making. A streamed run
-- has fuel for the events of each model stream, which may be endless; Run needs none.
--
-- Not modelled: the texts of errors (each message is a constructor with its arguments); goroutine
-- interleavings inside of one locked method; panics of hooks beyond what they did to the world; times
-- and durations; the JSON text of a tool's value; log lines; internal/runtime/reasoning.go; the
-- options and New of pkg/agent; the server and logger packages, which wrap net/http and print; the
-- demo application.
pub mod Common
pub mod Text
pub mod Context
pub mod Types
pub mod Memory
pub mod Workflow
pub mod Tool
pub mod Agent
pub mod App
pub mod Runtime
pub mod Examples
