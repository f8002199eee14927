-- ===== src/Store/Versions.antt =====
-- The optimistic versions of instances in nexus-workflow-core/src/adapters/InMemoryStateStore.ts.
use nexus_workflow.Common.{
  ℕ, suc, String, Bool, true, false, some, List, [], ◌∷◌, ◌≡◌, refl, subst, sym, ap, ◌∙◌, arith,
  eq_iff, is_some, or_else, if◌then◌else◌, All,
}
use nexus_workflow.Common.Dict.{Dict, lookup, insert, lookup-insert}
use nexus_workflow.Model.Types.{Token, ProcessInstance}
use nexus_workflow.Store.State.{StateStore}
use nexus_workflow.Store.Operations.{
  Stored, stored, refused, concurrent_modification, is_outdated, next_version, create_instance,
  update_instance, get_instance, save_tokens, save_definition, save_scope, put_user_task,
  save_subscription, delete_subscription, save_gateway_state, delete_gateway_state, append_history,
  save_timer, delete_timer, save_compensation_record, delete_compensation_record,
}
use nexus_workflow.Store.Transactions.{
  StoreOperation, creates_instance, updates_instance, saves_tokens, apply_operation, and_then,
  execute_transaction,
}

-- Every instance of the store has a version.
abbrev pub IsVersioned : StateStore → Type 0
IsVersioned s = All (λ x. is_some x.1.version ≡ true) s.instances

All-insert :
    (k : String) (i : ProcessInstance) (m : Dict ProcessInstance)
    → is_some i.version ≡ true
    → All (λ x. is_some x.1.version ≡ true) m
    → All (λ x. is_some x.1.version ≡ true) (insert k i m)
All-insert k i [] h a = (h, tt)
All-insert k i ((j, w) ∷ m) h a = ground (arith, All-insert k i m h a.1)

version_of_found :
    (k : String) (m : Dict ProcessInstance) (i : ProcessInstance)
    → All (λ x. is_some x.1.version ≡ true) m
    → lookup k m ≡ some i
    → is_some i.version ≡ true
version_of_found k [] i a h = absurd (cc)
version_of_found k ((j, w) ∷ m) i a h = ground (arith, version_of_found k m i a.1)

lookup-updated :
    (i : ProcessInstance) (s t : StateStore)
    → update_instance i s ≡ stored t
    → lookup i.id t.instances
      ≡ some (record i { version = some (next_version (lookup i.id s.instances)) })
unfolding update_instance
lookup-updated i s t h = ground (
  arith,
  lookup-insert i.id i.id (record i { version = some (next_version (lookup i.id s.instances)) })
      s.instances,
  eq_iff i.id i.id,
)

accepted-version :
    (i : ProcessInstance) (s t : StateStore) (v : ℕ) (c : ProcessInstance)
    → i.version ≡ some v
    → lookup i.id s.instances ≡ some c
    → update_instance i s ≡ stored t
    → or_else c.version 1 ≡ v
unfolding update_instance
accepted-version i s t v c e l h = ground arith

-- No update is lost: when two writers have read the same version of an instance of the store, and the
-- update of the first is accepted, that of the second is refused as a concurrent modification.
pub second_update-refused :
    (i j : ProcessInstance) (s t : StateStore) (v : ℕ) (c : ProcessInstance)
    → IsVersioned s
    → lookup i.id s.instances ≡ some c
    → j.id ≡ i.id
    → i.version ≡ some v
    → j.version ≡ some v
    → update_instance i s ≡ stored t
    → update_instance j t ≡ refused (concurrent_modification j.id)
unfolding update_instance
second_update-refused i j s t v c w l same e f h =
    refuse (lookup-updated i s t h) (accepted-version i s t v c e l h)
      (version_of_found i.id s.instances c w l)
  where
    refuse :
        lookup i.id t.instances
          ≡ some (record i { version = some (next_version (lookup i.id s.instances)) })
        → or_else c.version 1 ≡ v
        → is_some c.version ≡ true
        → update_instance j t ≡ refused (concurrent_modification j.id)
    refuse a b d = ground (arith, ap (λ k. lookup k t.instances) same)

-- Without another writer, an instance that was read from the store and changed under its version is
-- accepted, and reading it again gives what was written with the next version.
pub update-own_version :
    (s : StateStore) (c j : ProcessInstance) (v : ℕ)
    → get_instance j.id s ≡ some c
    → c.version ≡ some v
    → j.version ≡ some v
    → (t : StateStore) × (update_instance j s ≡ stored t)
      × (get_instance j.id t ≡ some (record j { version = some (suc v) }))
unfolding get_instance update_instance
update-own_version s c j v l e f =
    let accepted = accept l in (_, accepted, lookup-updated j s _ accepted ∙ ground arith)
  where
    accept :
        lookup j.id s.instances ≡ some c
        → update_instance j s
          ≡ stored (record s {
            instances =
                insert j.id
                  (record j { version = some (next_version (lookup j.id s.instances)) })
                  s.instances;
          })
    accept l = ground arith

save_tokens-instances :
    (ts : List Token) (s : StateStore) → (save_tokens ts s).instances ≡ s.instances
unfolding save_tokens
save_tokens-instances [] s = refl
save_tokens-instances (t ∷ ts) s = save_tokens-instances ts _

-- The result of an operation is versioned, if there is one.
abbrev Keeps : Stored → Type 0
Keeps (stored t) = IsVersioned t
Keeps (refused e) = Unit

update-Keeps : (i : ProcessInstance) (s : StateStore) → IsVersioned s → Keeps (update_instance i s)
unfolding update_instance
update-Keeps i s w = by_test (is_outdated i (lookup i.id s.instances))
  where
    by_test :
        (b : Bool)
        → Keeps (
            if b
            then refused (concurrent_modification i.id)
            else stored (record s {
              instances =
                  insert i.id
                    (record i { version = some (next_version (lookup i.id s.instances)) })
                    s.instances;
            }))
    by_test true = tt
    by_test false = All-insert i.id _ s.instances refl w

apply_operation-Keeps :
    (op : StoreOperation) (s : StateStore) → IsVersioned s → Keeps (apply_operation op s)
unfolding apply_operation save_definition create_instance save_scope put_user_task save_subscription
    delete_subscription save_gateway_state delete_gateway_state append_history save_timer
    delete_timer save_compensation_record delete_compensation_record
apply_operation-Keeps (creates_instance i) s w = All-insert i.id _ s.instances refl w
apply_operation-Keeps (updates_instance i) s w = update-Keeps i s w
apply_operation-Keeps (saves_tokens ts) s w =
    subst (λ m. All (λ x. is_some x.1.version ≡ true) m) (sym (save_tokens-instances ts s)) w
apply_operation-Keeps _ s w = w

-- Whatever a transaction does and whether it throws or not, every instance of the store it leaves has
-- a version, if every instance of the store before has one.
pub transaction-IsVersioned :
    (ops : List StoreOperation) (s : StateStore)
    → IsVersioned s
    → IsVersioned (execute_transaction ops s).0
unfolding execute_transaction
transaction-IsVersioned [] s w = w
transaction-IsVersioned (op ∷ ops) s w =
    by_result (apply_operation op s) (apply_operation-Keeps op s w)
      (λ t. transaction-IsVersioned ops t)
  where
    by_result :
        (r : Stored)
        → Keeps r
        → ((t : StateStore) → IsVersioned t → IsVersioned (execute_transaction ops t).0)
        → IsVersioned (and_then r s (λ t. execute_transaction ops t)).0
    by_result (stored t) k rest = rest t k
    by_result (refused e) k rest = w
