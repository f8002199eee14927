-- ===== src/Tests/StoreExamples.antt =====
-- The theorems on the in-memory store at a store with one instance.
use nexus_workflow.Common.{ℕ, none, some, [], ◌∷◌, ◌≡◌, refl}
use nexus_workflow.Model.Types.{ProcessInstance, InstanceStatus}
use nexus_workflow.Store.State.{StateStore, empty_store}
use nexus_workflow.Store.Operations.{
  stored, refused, concurrent_modification, update_instance, get_instance, save_tokens,
}
use nexus_workflow.Store.Transactions.{
  creates_instance, updates_instance, saves_tokens, apply_operation, execute_transaction,
  transaction-keeps_prefix,
}
use nexus_workflow.Store.Versions.{
  IsVersioned, second_update-refused, update-own_version, transaction-IsVersioned,
}
use nexus_workflow.Store.Tokens.{token_of, token_of-save_tokens}
use nexus_workflow.Tests.Samples.{running_instance, start_token, task_token}

abbrev at_version : ℕ → ProcessInstance
at_version v = record running_instance { version = some v }

abbrev one_instance : StateStore
one_instance = record empty_store { instances = ("i", at_version 1) ∷ [] }

-- Two writers have read version 1; the first suspends the instance.
abbrev suspended : ProcessInstance
suspended = record running_instance { status = InstanceStatus.suspended; version = some 1 }

abbrev after_first : StateStore
after_first = record empty_store { instances = ("i", record suspended { version = some 2 }) ∷ [] }

first_runs : update_instance suspended one_instance ≡ stored after_first
unfolding update_instance
first_runs = refl

second_update-refused_example :
    update_instance (at_version 1) after_first ≡ refused (concurrent_modification "i")
second_update-refused_example =
    second_update-refused suspended (at_version 1) one_instance after_first 1 (at_version 1)
      (refl, tt) refl refl refl refl first_runs

update-own_version_example :
    (t : StateStore) × (update_instance suspended one_instance ≡ stored t)
    × (get_instance "i" t ≡ some (record suspended { version = some 2 }))
update-own_version_example =
    update-own_version one_instance (at_version 1) suspended 1 (unfold get_instance in refl) refl
      refl

transaction-IsVersioned_example :
    IsVersioned (execute_transaction (creates_instance running_instance ∷ []) empty_store).0
transaction-IsVersioned_example =
    transaction-IsVersioned (creates_instance running_instance ∷ []) empty_store tt

abbrev after_tokens : StateStore
after_tokens = record after_first { tokens = ("i", start_token ∷ []) ∷ [] }

tokens_saved :
    execute_transaction (saves_tokens (start_token ∷ []) ∷ []) after_first ≡ (after_tokens, none)
unfolding execute_transaction apply_operation save_tokens
tokens_saved = refl

second_refused : update_instance (at_version 1) after_tokens ≡ refused (concurrent_modification "i")
unfolding update_instance
second_refused = refl

transaction-keeps_prefix_example :
    execute_transaction
      (saves_tokens (start_token ∷ []) ∷ updates_instance (at_version 1) ∷ [])
      after_first
    ≡ (after_tokens, some (concurrent_modification "i"))
transaction-keeps_prefix_example =
    transaction-keeps_prefix (saves_tokens (start_token ∷ []) ∷ []) [] (at_version 1) after_first
      after_tokens (concurrent_modification "i") tokens_saved second_refused

token_of-save_tokens_example :
    token_of "i" "iii" (save_tokens (start_token ∷ task_token ∷ []) empty_store) ≡ some start_token
token_of-save_tokens_example =
    token_of-save_tokens "i" "iii" (start_token ∷ task_token ∷ []) empty_store
