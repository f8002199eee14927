-- ===== src/Engine/EventCommands.antt =====
-- The commands that fire a timer, deliver a message and broadcast a signal, in
-- engine/ExecutionEngine.ts.
use nexus_workflow.Common.{
  ℕ, String, Bool, true, false, ◌&&◌, Option, none, filter, if◌then◌else◌, case_option,
}
use nexus_workflow.Model.Types.{Variables, Token, is_waiting, WaitConditionType}
use nexus_workflow.Model.Elements.{BpmnFlowElement, ProcessDefinition, boundary_event, element_base}
use nexus_workflow.Engine.Monad.{Exec, for_each, ◌>>=◌, ◌>>◌}
use nexus_workflow.Engine.Context.{get_all_tokens, require_token}
use nexus_workflow.Engine.Definition.{get_element}
use nexus_workflow.Engine.Moves.{skip, complete_token, move_token_to_flows, advance_token_flows}
use nexus_workflow.Engine.Boundaries.{
  correlates, is_boundary_type, cancel_host_task_and_boundaries, cancel_ebg_siblings,
}
use nexus_workflow.Engine.Loop.{run_loop}
use nexus_workflow.Engine.TaskCommands.{require_waiting, merge_given, handle_complete_task}

abbrev pub is_message_wait : WaitConditionType → Bool
is_message_wait WaitConditionType.message = true
is_message_wait _ = false

abbrev pub is_signal_wait : WaitConditionType → Bool
is_signal_wait WaitConditionType.signal = true
is_signal_wait _ = false

-- The filters of `handleDeliverMessage` and `handleBroadcastSignal`.
abbrev pub waits_for_message : String → Token → Bool
waits_for_message message_name t =
    is_waiting t.status
    && case_option t.waiting_for false (λ c. is_message_wait c.type)
    && correlates t "messageName" message_name

abbrev pub waits_for_signal : String → Token → Bool
waits_for_signal signal_name t =
    is_waiting t.status
    && case_option t.waiting_for false (λ c. is_signal_wait c.type)
    && correlates t "signalName" signal_name

module _ (definition : ProcessDefinition) where
  -- The body of the loops of `handleDeliverMessage` and `handleBroadcastSignal`.
  unfoldable pub trigger_waiting : Option Variables → Token → Exec (Unit {0})
  trigger_waiting variables token = do
    current ← require_token token.id
    if is_waiting current.status
        then (do
          merge_given token.scope_id variables
          complete_token token
          cancel_ebg_siblings token
          advance_token_flows definition token)
        else skip

module _ (fuel : ℕ) (definition : ProcessDefinition) where
  -- The timer of a boundary event. Of the element, the fields that a boundary event has.
  unfoldable pub fire_boundary_timer : String → Token → BpmnFlowElement → Exec (Unit {0})
  fire_boundary_timer token_id token (boundary_event base e) = do
    complete_token token
    if e.cancel_activity then cancel_host_task_and_boundaries e.attached_to_ref token_id else skip
    move_token_to_flows definition token base.outgoing_flows
    run_loop fuel definition
  -- Another element has no `cancelActivity`, so nothing is cancelled.
  fire_boundary_timer token_id token element = do
    complete_token token
    move_token_to_flows definition token (element_base element).outgoing_flows
    run_loop fuel definition

  unfoldable pub handle_fire_timer : String → Exec (Unit {0})
  handle_fire_timer token_id = do
    token ← require_token token_id
    require_waiting token_id token
    if is_boundary_type token.element_type
        then (do
          element ← get_element definition token.element_id
          fire_boundary_timer token_id token element)
        else (do cancel_ebg_siblings token; handle_complete_task fuel definition token_id none)

  unfoldable pub handle_deliver_message : String → Option Variables → Exec (Unit {0})
  handle_deliver_message message_name variables = do
    tokens ← get_all_tokens
    for_each (filter (waits_for_message message_name) tokens) (trigger_waiting definition variables)
    run_loop fuel definition

  unfoldable pub handle_broadcast_signal : String → Option Variables → Exec (Unit {0})
  handle_broadcast_signal signal_name variables = do
    tokens ← get_all_tokens
    for_each (filter (waits_for_signal signal_name) tokens) (trigger_waiting definition variables)
    run_loop fuel definition
