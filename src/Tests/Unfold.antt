-- ===== src/Tests/Unfold.antt =====
-- One name under which a test unfolds all that the engine calls.
use nexus_workflow.Engine.Boundaries.{
  catch_event, handle_intermediate_catch_event, boundary_wait, handle_boundary_event_wait,
  spawn_boundary_token, spawn_boundary_tokens, cancel_where, cancel_boundary_tokens_for,
  cancel_host_task_and_boundaries, cancel_ebg_siblings,
}
use nexus_workflow.Engine.Commands.{run_from_start, handle_start_process, dispatch, execute}
use nexus_workflow.Engine.Compensation.{
  spawn_handler, run_handlers, handle_compensation_throw, handle_intermediate_throw_event,
  record_compensation, record_compensation_if_needed, resume_throw_token,
  handle_compensation_handler_completion,
}
use nexus_workflow.Engine.Context.{
  now, new_id, emit, update_token, create_token, require_token, require_instance, set_instance,
  get_all_tokens, enqueue_pending, dequeue_pending, pending_count, get_join_state, save_join_state,
  delete_join_state, to_result,
}
use nexus_workflow.Engine.Definition.{
  find_flow_in_tree, find_flows_by_source, find_flows_by_target, attached_boundaries,
  find_boundaries_in_tree, find_boundaries_for, get_element, get_flow, get_outgoing_flows,
  get_incoming_flows, find_matching_error_boundary, join_candidate, inclusive_candidate,
  find_join_among, find_inclusive_join_incoming, find_element_in_tree, find_element_inside,
  find_flow_below, find_flow_inside, find_flows_below, find_flows_inside, find_boundaries_below,
  find_boundaries_inside,
}
use nexus_workflow.Engine.EventCommands.{
  trigger_waiting, fire_boundary_timer, handle_fire_timer, handle_deliver_message,
  handle_broadcast_signal,
}
use nexus_workflow.Engine.GatewayHandlers.{
  condition_evaluator, handle_exclusive_gateway, arriving_flow, parallel_join_state, join_parallel,
  split_parallel, handle_parallel_gateway, inclusive_join_state, join_inclusive,
  record_inclusive_join, split_inclusive, handle_inclusive_gateway, spawn_branch,
  handle_event_based_gateway, handle_gateway,
}
use nexus_workflow.Engine.Handlers.{
  cancel_others, complete_if_done, end_event_reached, handle_end_event, start_service_task,
  start_user_task, unless_multi_instance, finish_manual_task, process_element, process_token,
}
use nexus_workflow.Engine.InstanceCommands.{
  handle_suspend_instance, handle_resume_instance, handle_cancel_instance,
}
use nexus_workflow.Engine.Loop.{run_loop_from, run_loop}
use nexus_workflow.Engine.Monad.{
  pure, throw, stuck, lift, gets, modify, ◌>>=◌, for_each, collect, require,
}
use nexus_workflow.Engine.Moves.{
  complete_token, cancel_token, suspend_token_with_condition, suspend_token, complete_instance,
  move_token_to_flow, move_token_to_flows, advance_token, advance_token_flows,
}
use nexus_workflow.Engine.MultiInstance.{
  evaluate, spawn_multi_instance_child, complete_multi_instance, skip_multi_instance,
  start_sequential, start_parallel, start_multi_instance, handle_multi_instance_start,
  completion_condition_holds, next_iteration, handle_sequential_child_completion, stop_parallel,
  check_parallel_done, handle_parallel_child_completion, push_output, collect_output,
  complete_child, handle_multi_instance_child_completion,
}
use nexus_workflow.Engine.Records.{
  add_compensation_record, insert_record, sort_records, consume_compensation_records,
  consume_all_compensation_records,
}
use nexus_workflow.Engine.Scopes.{
  save_scope, scope_chain, assign_scopes, resolve, resolve_scope, merge_variables,
}
use nexus_workflow.Engine.State.{new_context}
use nexus_workflow.Engine.SubProcess.{
  handle_sub_process, propagate_inner_scope, complete_sub_process, check_sub_process_completion,
  fire_boundary, fire_cancel_boundary, compensate_in_transaction, cancel_transaction,
  handle_transaction_cancel,
}
use nexus_workflow.Engine.TaskCommands.{
  require_waiting, emit_service_task_completed, auto_resume, suspend_on_failure,
  complete_plain_task, complete_child_task, complete_handler_or_plain, complete_with_parent,
  complete_task, handle_complete_task, catch_failure, handle_fail_service_task,
}
use nexus_workflow.Gateways.EventBased.{
  find_top_level, validate_target, validate_flow, validate_flows, validate_outgoing,
  validate_event_based_gateway,
}
use nexus_workflow.Gateways.Exclusive.{select_flow, evaluate_exclusive_split}
use nexus_workflow.Gateways.Inclusive.{
  activated_or_default, activate_flows, evaluate_inclusive_split, evaluate_inclusive_join,
}
use nexus_workflow.Gateways.Parallel.{evaluate_parallel_split, evaluate_parallel_join}

unfoldable pub whole_engine : Unit {0}
unfolding catch_event handle_intermediate_catch_event boundary_wait handle_boundary_event_wait
    spawn_boundary_token spawn_boundary_tokens cancel_where cancel_boundary_tokens_for
    cancel_host_task_and_boundaries cancel_ebg_siblings run_from_start handle_start_process dispatch
    execute spawn_handler run_handlers handle_compensation_throw handle_intermediate_throw_event
    record_compensation record_compensation_if_needed resume_throw_token
    handle_compensation_handler_completion now new_id emit update_token create_token require_token
    require_instance set_instance get_all_tokens enqueue_pending dequeue_pending pending_count
    get_join_state save_join_state delete_join_state to_result find_flow_in_tree
    find_flows_by_source find_flows_by_target attached_boundaries find_boundaries_in_tree
    find_boundaries_for get_element get_flow get_outgoing_flows get_incoming_flows
    find_matching_error_boundary join_candidate inclusive_candidate find_join_among
    find_inclusive_join_incoming find_element_in_tree find_element_inside find_flow_below
    find_flow_inside find_flows_below find_flows_inside find_boundaries_below find_boundaries_inside
    trigger_waiting fire_boundary_timer handle_fire_timer handle_deliver_message
    handle_broadcast_signal condition_evaluator handle_exclusive_gateway arriving_flow
    parallel_join_state join_parallel split_parallel handle_parallel_gateway inclusive_join_state
    join_inclusive record_inclusive_join split_inclusive handle_inclusive_gateway spawn_branch
    handle_event_based_gateway handle_gateway cancel_others complete_if_done end_event_reached
    handle_end_event start_service_task start_user_task unless_multi_instance finish_manual_task
    process_element process_token handle_suspend_instance handle_resume_instance
    handle_cancel_instance run_loop_from run_loop pure throw stuck lift gets modify ◌>>=◌ for_each
    collect require complete_token cancel_token suspend_token_with_condition suspend_token
    complete_instance move_token_to_flow move_token_to_flows advance_token advance_token_flows
    evaluate spawn_multi_instance_child complete_multi_instance skip_multi_instance start_sequential
    start_parallel start_multi_instance handle_multi_instance_start completion_condition_holds
    next_iteration handle_sequential_child_completion stop_parallel check_parallel_done
    handle_parallel_child_completion push_output collect_output complete_child
    handle_multi_instance_child_completion add_compensation_record insert_record sort_records
    consume_compensation_records consume_all_compensation_records save_scope scope_chain
    assign_scopes resolve resolve_scope merge_variables new_context handle_sub_process
    propagate_inner_scope complete_sub_process check_sub_process_completion fire_boundary
    fire_cancel_boundary compensate_in_transaction cancel_transaction handle_transaction_cancel
    require_waiting emit_service_task_completed auto_resume suspend_on_failure complete_plain_task
    complete_child_task complete_handler_or_plain complete_with_parent complete_task
    handle_complete_task catch_failure handle_fail_service_task find_top_level validate_target
    validate_flow validate_flows validate_outgoing validate_event_based_gateway select_flow
    evaluate_exclusive_split activated_or_default activate_flows evaluate_inclusive_split
    evaluate_inclusive_join evaluate_parallel_split evaluate_parallel_join
whole_engine = tt
