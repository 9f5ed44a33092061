-- ===== src/Sdk/Replayer/Handlers.antt =====
-- The handlers of an execution: queries are answered and signals delivered by name
-- (sdk/internal/replayer/execution.go).
use flowd_engine.Base.{String, str_eq, Option, none, some, List, [], ◌∷◌, if◌then◌else◌}
use flowd_engine.Proto.{Payload}
use flowd_engine.Sdk.Replayer.{WorkflowPanic, Marshaled, PendingSignal, SignalHandler, Execution}

unfoldable pub handler_of : {H : Type 0} → String → List (String × H) → Option H
handler_of name [] = none
handler_of name ((k, h) ∷ hs) = if str_eq k name then some h else handler_of name hs

module _ {U : Type 0} where
  unfoldable pub invoke_query_handler : String → Option Payload → Execution U → Option Marshaled
  unfolding handler_of
  invoke_query_handler type args e = elim (handler_of type e.query_handlers) [
    | none ↦ none
    | some h ↦ some (h args e.vars)
  ]

  -- The loop of drainSignals: what is left over, or the panic of a handler.
  unfoldable pub deliver :
      List (String × SignalHandler U)
      → List PendingSignal
      → U
      → U × List PendingSignal × Option WorkflowPanic
  unfolding handler_of
  deliver hs [] u = (u, [], none)
  deliver hs (s ∷ ss) u = elim (handler_of s.name hs) [
    | none ↦ let (u', left, p) = deliver hs ss u in (u', s ∷ left, p)
    | some h ↦
        let (u', p) = h s.payload u in
        elim p [ some panic ↦ (u', [], some panic) | none ↦ deliver hs ss u' ]
  ]

  -- A panic leaves pendingSignals as it was.
  unfoldable pub drain_signals : Execution U → Option WorkflowPanic × Execution U
  unfolding deliver
  drain_signals e =
      let (u, left, p) = deliver e.signal_handlers e.pending_signals e.vars in
      elim p [
        | some panic ↦ (some panic, record e { vars = u })
        | none ↦ (none, record e { vars = u; pending_signals = left })
      ]
