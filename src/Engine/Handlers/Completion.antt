-- ===== src/Engine/Handlers/Completion.antt =====
-- When an end event completes the instance (engine/ExecutionEngine.ts).
use nexus_workflow.Common.{
  suc, Bool, true, false, not, ◌||◌, Option, none, some, List, [], ◌∷◌, ◌≡◌, refl, ap, ◌∙◌, arith,
  eqb, length, any, find, is_some, truthy, if◌then◌else◌, case_option, ◌++◌, Bool-cases, inl, inr,
  sub_ℕ,
}
use nexus_workflow.Common.Dict.{insert, values}
use nexus_workflow.Model.Types.{Token, completed, is_live, ProcessInstance, InstanceStatus}
use nexus_workflow.Model.Elements.{EventDefinition, EventDefinitionType, ProcessDefinition}
use nexus_workflow.Model.Events.{process_instance_completed}
use nexus_workflow.Model.Errors.{ok}
use nexus_workflow.Engine.State.{ExecutionContext}
use nexus_workflow.Engine.Monad.{require, ◌>>=◌}
use nexus_workflow.Engine.Context.{
  now, emit, update_token, get_all_tokens, pending_count, require_instance, set_instance,
}
use nexus_workflow.Engine.Moves.{skip, complete_token, complete_instance}
use nexus_workflow.Engine.Handlers.{complete_if_done, end_event_reached, handle_end_event}

-- The end events that neither terminate the instance nor cancel a transaction.
abbrev pub is_plain : EventDefinitionType → Bool
is_plain EventDefinitionType.terminate = false
is_plain EventDefinitionType.cancel = false
is_plain _ = true

-- Some token is live, or waits in the queue.
abbrev pub is_busy : ExecutionContext → Bool
is_busy c = any (λ t. is_live t.status) (values c.token_map) || not (eqb (length c.pending_queue) 0)

is_some-find : (p : Token → Bool) (ts : List Token) → is_some (find p ts) ≡ any p ts
is_some-find p [] = refl
is_some-find p (t ∷ ts) = ground (arith, is_some-find p ts)

abbrev pub completed_instance : ExecutionContext → ProcessInstance → ProcessInstance
completed_instance c i = record i {
  status = InstanceStatus.completed;
  completed_at = some (c.options.now c.ticks);
}

complete_if_done-eq :
    (c : ExecutionContext)
    → complete_if_done c ≡ (if is_busy c then ok (tt, c) else complete_instance c)
unfolding complete_if_done get_all_tokens pending_count ◌>>=◌
complete_if_done-eq c =
    by_search (find (λ t. is_live t.status) (values c.token_map))
      (is_some-find (λ t. is_live t.status) (values c.token_map))
  where
    by_search :
        (o : Option Token)
        → is_some o ≡ any (λ t. is_live t.status) (values c.token_map)
        → case_option o
            (if eqb (length c.pending_queue) 0 then complete_instance else skip)
            (λ live. skip)
            c
          ≡ (if is_busy c then ok (tt, c) else complete_instance c)
    by_search none h = ground arith
    by_search (some t) h = ground arith

pub complete_instance-eq :
    (c : ExecutionContext) (i : ProcessInstance)
    → c.process_instance ≡ some i
    → complete_instance c
      ≡ ok (
        tt,
        record c {
          process_instance = some (completed_instance c i);
          ticks = suc c.ticks;
          events =
              c.events
              ++ process_instance_completed i.id (sub_ℕ (c.options.now c.ticks) i.started_at) ∷ [];
        },
      )
unfolding complete_instance require_instance require now set_instance emit ◌>>=◌
complete_instance-eq c i e = ground arith

end_event_reached-plain :
    (definition : ProcessDefinition) (type : EventDefinitionType) (token : Token)
    → is_plain type ≡ true
    → truthy token.sub_process_instance_id ≡ false
    → end_event_reached definition type token ≡ complete_if_done
unfolding end_event_reached
end_event_reached-plain definition EventDefinitionType.terminate token plain top = absurd (cc)
end_event_reached-plain definition EventDefinitionType.cancel token plain top = absurd (cc)
end_event_reached-plain definition _ token plain top = ground arith

-- The context after the token of an end event is completed.
abbrev pub with_completed : Token → ExecutionContext → ExecutionContext
with_completed token c = record c {
  ticks = suc c.ticks;
  token_map =
      insert token.id (record token { status = completed; updated_at = c.options.now c.ticks })
        c.token_map;
}

-- An end event that neither terminates nor cancels, reached by a token outside of any sub-process,
-- returns; it completes that token and no other, and then completes the instance exactly when no token
-- is live and none waits in the queue.
pub handle_end_event-completes :
    (definition : ProcessDefinition) (token : Token) (d : EventDefinition) (c : ExecutionContext)
    (i : ProcessInstance)
    → is_plain d.type ≡ true
    → truthy token.sub_process_instance_id ≡ false
    → c.process_instance ≡ some i
    → (after : ExecutionContext) × (handle_end_event definition token d c ≡ ok (tt, after))
      × (after.token_map ≡ (with_completed token c).token_map)
      × (after.pending_queue ≡ c.pending_queue)
      × (after.process_instance
          ≡ some (
              if is_busy (with_completed token c)
              then i
              else completed_instance (with_completed token c) i))
unfolding handle_end_event complete_token now update_token ◌>>=◌
handle_end_event-completes definition token d c i plain top e =
    let plain_end =
      ap (λ m. m (with_completed token c))
        (end_event_reached-plain definition d.type token plain top) in
    let ends = complete_if_done-eq (with_completed token c) in
    elim (Bool-cases (is_busy (with_completed token c))) [
      | inl busy ↦
          (with_completed token c, plain_end ∙ ends ∙ ground arith, refl, refl, e ∙ ground arith)
      | inr idle ↦ (
        _,
        plain_end ∙ ends ∙ ground arith ∙ complete_instance-eq (with_completed token c) i e,
        refl,
        refl,
        ground arith,
      )
    ]
