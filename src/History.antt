-- ===== src/History.antt =====
-- nexus-workflow-core/src/engine/deriveHistory.ts: the history entries of one execution cycle. The
-- size of `JSON.stringify(merged)` is a parameter; `structuredClone` copies, so it is left out.
pub mod Chain
pub mod Order
pub mod Visits
use nexus_workflow.Common.{
  ℕ, zero, suc, String, Bool, true, false, not, ◌&&◌, Option, none, some, List, [], ◌∷◌, ◌++◌, ◌==◌,
  eqb, ltb, leb, length, map, filter, includes, to_set, if◌then◌else◌, case_option, truthy, or_else,
}
use nexus_workflow.Common.Dict.{Dict, lookup, insert, index_by}
use nexus_workflow.Model.Types.{Variables, VariableScope, Token, TokenStatus, is_done}
use nexus_workflow.Model.Events.{ExecutionEvent, error_thrown, step_forced}
use nexus_workflow.Model.Errors.{Outcome, ok, loops, ◌>>=◌}
use nexus_workflow.Engine.State.{EngineState}
use nexus_workflow.Engine.Scopes.{assign_scopes}
use nexus_workflow.Store.State.{HistoryStatus, Forced, HistoryEntry}

-- `wasOver`
abbrev pub was_over : Option EngineState → List String
was_over none = []
was_over (some s) = to_set (map (λ t. t.id) (filter (λ t. is_done t.status) s.tokens))

-- The tokens of the `ErrorThrown` events.
abbrev pub thrown_by : List ExecutionEvent → List String
thrown_by [] = []
thrown_by (error_thrown i token_id code caught ∷ events) = token_id ∷ thrown_by events
thrown_by (_ ∷ events) = thrown_by events

-- The loop that fills `forcedBy`. `onBehalfOf` is left out when it is empty.
abbrev pub forced_by : Dict Forced → List ExecutionEvent → Dict Forced
forced_by found [] = found
forced_by found (step_forced i token_id e action by reason on_behalf_of ∷ events) =
    forced_by
      (insert token_id
        (record {
          action = action;
          by = by;
          reason = reason;
          on_behalf_of = if truthy on_behalf_of then on_behalf_of else none;
        })
        found)
      events
forced_by found (_ ∷ events) = forced_by found events

-- The first loop of `snapshotFor`, on fuel: the chain from the scope outwards. The scopes are those of
-- a `Map` by their ids, so `chain.includes(scope)` compares ids.
unfoldable pub chain_from :
    Dict VariableScope → ℕ → List VariableScope → Option String → Outcome (List VariableScope)
chain_from scopes fuel chain none = ok chain
chain_from scopes zero chain (some id) = if truthy (some id) then loops else ok chain
chain_from scopes (suc fuel) chain (some id) =
    let next = λ (scope : VariableScope).
      chain_from scopes fuel (chain ++ scope ∷ []) scope.parent_scope_id in
    if truthy (some id)
    then case_option (lookup id scopes) (ok chain)
        (λ scope. if includes (map (λ s. s.id) chain) scope.id then ok chain else next scope)
    else ok chain

abbrev pub reverse {ℓ} : {A : Type ℓ} → List A → List A
reverse [] = []
reverse (x ∷ xs) = reverse xs ++ x ∷ []

abbrev pub history_status : TokenStatus → HistoryStatus
history_status TokenStatus.cancelled = HistoryStatus.cancelled
history_status _ = HistoryStatus.completed

-- The body of the loop over the tokens, for a token that ended in the cycle.
unfoldable pub entry_of : String → List ExecutionEvent → Token → Option Variables → HistoryEntry
entry_of instance_id events token snapshot = record {
  id = token.id;
  instance_id = instance_id;
  token_id = token.id;
  element_id = token.element_id;
  element_type = token.element_type;
  status =
      if includes (to_set (thrown_by events)) token.id
      then HistoryStatus.error
      else history_status token.status;
  started_at = token.created_at;
  completed_at = token.updated_at;
  variables_snapshot = snapshot;
  forced = lookup token.id (forced_by [] events);
}

abbrev pub ended_now : Option EngineState → Token → Bool
ended_now old token = not (includes (was_over old) token.id) && is_done token.status

module _ (json_length : Variables → ℕ) (max_bytes : ℕ) where
  -- `merged`, or nothing when it is empty or too big.
  unfoldable pub kept_snapshot : Variables → Option Variables
  kept_snapshot [] = none
  kept_snapshot (v ∷ vars) =
      if ltb max_bytes (json_length (v ∷ vars)) then none else some (v ∷ vars)

  -- A chain without a repetition has no more scopes than there are, and one round ends it.
  unfoldable pub snapshot_for : Dict VariableScope → String → Outcome (Option Variables)
  unfolding chain_from kept_snapshot
  snapshot_for scopes scope_id = do
    chain ← chain_from scopes (suc (length scopes)) [] (some scope_id)
    ok (kept_snapshot (assign_scopes [] (reverse chain)))

  -- The loop over the tokens.
  unfoldable pub entries_of :
      Dict VariableScope
      → Option EngineState
      → String
      → List ExecutionEvent
      → List Token
      → Outcome (List HistoryEntry)
  unfolding snapshot_for entry_of
  entries_of scopes old instance_id events [] = ok []
  entries_of scopes old instance_id events (token ∷ tokens) =
      let rest = entries_of scopes old instance_id events tokens in
      if ended_now old token
      then (do
        snapshot ← snapshot_for scopes token.scope_id
        entries ← rest
        ok (entry_of instance_id events token snapshot ∷ entries))
      else rest

-- The comparison of the sort is not positive: an entry with its index, before or at another.
abbrev pub comes_first : HistoryEntry × ℕ → HistoryEntry × ℕ → Bool
comes_first (a, i) (b, j) =
    if eqb a.completed_at b.completed_at
    then (if eqb a.started_at b.started_at then leb i j else ltb a.started_at b.started_at)
    else ltb a.completed_at b.completed_at

unfoldable pub insert_entry : HistoryEntry × ℕ → List (HistoryEntry × ℕ) → List (HistoryEntry × ℕ)
insert_entry x [] = x ∷ []
insert_entry x (y ∷ ys) = if comes_first x y then x ∷ y ∷ ys else y ∷ insert_entry x ys

-- `entries.map((entry, index) => …)` from an index, sorted.
unfoldable pub sort_from : ℕ → List HistoryEntry → List (HistoryEntry × ℕ)
unfolding insert_entry
sort_from index [] = []
sort_from index (e ∷ es) = insert_entry (e, index) (sort_from (suc index) es)

unfoldable pub sort_entries : List HistoryEntry → List HistoryEntry
unfolding sort_from
sort_entries entries = map (λ x. x.0) (sort_from 0 entries)

-- `max_snapshot_bytes` is the option, or `MAX_SNAPSHOT_BYTES`.
unfoldable pub derive_history :
    (Variables → ℕ)
    → Option EngineState
    → EngineState
    → List ExecutionEvent
    → Option ℕ
    → Outcome (List HistoryEntry)
unfolding entries_of sort_entries
derive_history json_length old new events max_snapshot_bytes = do
  entries ←
      entries_of json_length (or_else max_snapshot_bytes 65536) (index_by (λ s. s.id) [] new.scopes)
        old new.process_instance.id events new.tokens
  ok (sort_entries entries)
