-- ===== src/Runtime/Post.antt =====
-- What a piece of a run's code leaves of the events, and the rules to prove it.
use gall_lib.Common.{
  String, ◌+◌, ◌≡◌, refl, sym, ◌∙◌, ap, Bool, true, false, Option, none, some, List, [], ◌∷◌,
  length, arith,
}
use gall_lib.Runtime.{
  Error, Failure, failed, EventType, Event, Response, agent_completed, agent_failed, agent_canceled,
}
use gall_lib.Runtime.Exec.{
  Sim, Outcome, ok, err, running, panicked, Exec, ◌>>=◌, pure, raise, modify, reading, calling,
  continue,
}
use gall_lib.Runtime.Emitter.{Env, emit_event, emit, end_event, fail, fail_if, stop_if_canceled}

abbrev pub is_terminal : EventType → Bool
is_terminal agent_completed = true
is_terminal agent_failed = true
is_terminal agent_canceled = true
is_terminal _ = false

-- Events with the newest first, numbered from one.
abbrev pub AreNumbered : List Event → Type 0
AreNumbered [] = Unit
AreNumbered (e ∷ es) = (e.sequence ≡ length es + 1) × AreNumbered es

abbrev pub AreOpen : List Event → Type 0
AreOpen [] = Unit
AreOpen (e ∷ es) = (is_terminal e.type ≡ false) × AreOpen es

-- A run that has not reported its end, and one that has, by its last event.
pub record IsOpen {W : Type 0} (s : Sim W) : Type 0 where
  pub counted : s.sequence ≡ length s.emitted
  pub numbered : AreNumbered s.emitted
  pub going_on : AreOpen s.emitted

-- The last event and no other is terminal.
abbrev pub EndsBy : (Event → Type 0) → List Event → Type 0
EndsBy P [] = ⊥
EndsBy P (e ∷ es) = P e × (is_terminal e.type ≡ true) × AreOpen es

pub record IsEndedBy {W : Type 0} (P : Event → Type 0) (s : Sim W) : Type 0 where
  pub counted : s.sequence ≡ length s.emitted
  pub numbered : AreNumbered s.emitted
  pub last : EndsBy P s.emitted

abbrev pub Reports : Failure → Event → Type 0
Reports f e = (e.type ≡ end_event f) × (e.error ≡ some f)

abbrev pub Answers : Response → Event → Type 0
Answers r e = (e.type ≡ agent_completed) × (e.response ≡ some r)

module _ {W : Type 0} (env : Env W) where
  -- An outcome with what holds after it. Only a stream can outlast the fuel, and nothing panics.
  abbrev pub Post :
      {A : Type 0} → (A → Sim W → Type 0) → (Failure → Sim W → Type 0) → Outcome A × Sim W → Type 0
  Post Q E (ok a, s) = Q a s
  Post Q E (err f, s) = E f s
  Post Q E (running, s) = (env.streaming ≡ true) × IsOpen s
  Post Q E (panicked, s) = ⊥

  pub record Runs {A : Type 0} (m : Exec W A) (Q : A → Sim W → Type 0)
      (E : Failure → Sim W → Type 0) : Type 0 where
    pub at : (s : Sim W) → IsOpen s → Post Q E (m s)

-- Nothing is reported yet, and the result has a property.
abbrev pub Leaves : {W A : Type 0} → (A → Type 0) → A → Sim W → Type 0
Leaves V a s = V a × IsOpen s

abbrev pub Whatever : {A : Type 0} → A → Type 0
Whatever a = Unit

abbrev pub Unreported : {W : Type 0} → Failure → Sim W → Type 0
Unreported f s = IsOpen s

abbrev pub Reported : {W : Type 0} → Failure → Sim W → Type 0
Reported f s = IsEndedBy (Reports f) s

module _ {W A B : Type 0} (env : Env W) (Q : B → Sim W → Type 0)
    (E : Failure → Sim W → Type 0) where
  Post-continue :
      (V : A → Type 0) (r : Outcome A × Sim W) (f : A → Exec W B)
      → Post env (Leaves V) E r
      → ((a : A) → V a → Runs env (f a) Q E)
      → Post env Q E (continue r f)
  Post-continue V (ok a, s) f h next = (next a h.0).at s h.1
  Post-continue V (err e, s) f h next = h
  Post-continue V (running, s) f h next = h
  Post-continue V (panicked, s) f h next = elim h [ ]

  pub Runs-bind :
      (V : A → Type 0) {m : Exec W A} {f : A → Exec W B}
      → Runs env m (Leaves V) E
      → ((a : A) → V a → Runs env (f a) Q E)
      → Runs env (m >>= f) Q E
  unfolding ◌>>=◌
  Runs-bind V {m} {f} first next = record {
    at = λ s h. Post-continue V (m s) f (first.at s h) next;
  }

end_event_terminal : (f : Failure) → is_terminal (end_event f) ≡ true
unfolding end_event
end_event_terminal f = ground arith

module _ {W : Type 0} (env : Env W) where
  pub Runs-pure :
      {A : Type 0} (V : A → Type 0) (E : Failure → Sim W → Type 0) (a : A)
      → V a
      → Runs env (pure a) (Leaves V) E
  Runs-pure V E a v = record { at = λ s h. (v, h) }

  pub Runs-raise :
      {A : Type 0} (Q : A → Sim W → Type 0) (f : Failure) → Runs env (raise f) Q Unreported
  Runs-raise Q f = record { at = λ s h. h }

  -- A change of the locals that leaves the events.
  pub Runs-modify :
      (E : Failure → Sim W → Type 0) (change : Sim W → Sim W)
      → ((s : Sim W) → (change s).sequence ≡ s.sequence)
      → ((s : Sim W) → (change s).emitted ≡ s.emitted)
      → Runs env (modify change) (Leaves Whatever) E
  Runs-modify E change sequence emitted = record {
    at = λ s h. (
      tt,
      record {
        counted = sequence s ∙ (h.counted ∙ ap length (sym (emitted s)));
        numbered = rw (emitted s) h.numbered;
        going_on = rw (emitted s) h.going_on;
      },
    );
  }

  pub Runs-reading :
      {A : Type 0} (E : Failure → Sim W → Type 0) (f : Sim W → A)
      → Runs env (reading f) (Leaves Whatever) E
  Runs-reading E f = record { at = λ s h. (tt, h) }

  pub Runs-calling :
      {A : Type 0} (E : Failure → Sim W → Type 0) (f : W → A × W)
      → Runs env (calling f) (Leaves Whatever) E
  Runs-calling E f = record {
    at = λ s h. (tt, record { counted = h.counted; numbered = h.numbered; going_on = h.going_on });
  }

  -- An event that ends nothing.
  pub Runs-emit :
      (E : Failure → Sim W → Type 0) (type : EventType) (mutate : Event → Event)
      → is_terminal type ≡ false
      → ((e : Event) → (mutate e).sequence ≡ e.sequence)
      → ((e : Event) → (mutate e).type ≡ e.type)
      → Runs env (emit env type false mutate) (Leaves Whatever) E
  unfolding emit emit_event
  Runs-emit E type mutate plain sequence same = record {
    at = λ s h. (
      tt,
      record {
        counted = omega (arith, h.counted);
        numbered = (sequence _ ∙ ap (λ n. n + 1) h.counted, h.numbered);
        going_on = (ap is_terminal (same _) ∙ plain, h.going_on);
      },
    );
  }

  pub Runs-fail :
      {A : Type 0} (Q : A → Sim W → Type 0) (f : Failure) → Runs env (fail env f) Q Reported
  unfolding fail emit_event
  Runs-fail Q f = record {
    at = λ s h. record {
      counted = omega (arith, h.counted);
      numbered = (ap (λ n. n + 1) h.counted, h.numbered);
      last = ((refl, refl), end_event_terminal f, h.going_on);
    };
  }

  fail_if-Runs : (o : Option Error) → Runs env (fail_if env o) (Leaves Whatever) Reported
  fail_if-Runs none = record { at = λ s h. (tt, h) }
  fail_if-Runs (some e) = record { at = (Runs-fail (Leaves Whatever) (failed e)).at }

  pub Runs-stop_if_canceled :
      (op : String) → Runs env (stop_if_canceled env op) (Leaves Whatever) Reported
  unfolding stop_if_canceled
  Runs-stop_if_canceled op = record { at = λ s h. (fail_if-Runs _).at s h }
