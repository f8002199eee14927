-- ===== src/History/Visits.antt =====
-- What a history (History) says of the tokens of an execution cycle.
use nexus_workflow.Common.{
  ℕ, suc, String, Bool, true, false, not, ◌&&◌, ◌≡◌, refl, ap, sym, ◌∙◌, Option, none, some, List,
  [], ◌∷◌, arith, ◌==◌, eqb, map, any, filter, includes, if◌then◌else◌, or_else, length,
}
use nexus_workflow.Common.Dict.{Dict, index_by}
use nexus_workflow.Common.Dict.Keys.{Keyed-index_by, Keyed}
use nexus_workflow.Common.Sets.{includes-to_set}
use nexus_workflow.Model.Types.{Variables, VariableScope, Token, TokenStatus, is_done}
use nexus_workflow.Model.Events.{ExecutionEvent, error_thrown}
use nexus_workflow.Model.Errors.{Outcome, ok, ◌>>=◌}
use nexus_workflow.Engine.State.{EngineState}
use nexus_workflow.Engine.Scopes.{assign_scopes}
use nexus_workflow.Store.State.{HistoryStatus, HistoryEntry}
use nexus_workflow.History.{
  was_over, thrown_by, reverse, kept_snapshot, snapshot_for, ended_now, entry_of, entries_of,
  sort_entries, derive_history,
}
use nexus_workflow.History.Chain.{chain_from_lem}
use nexus_workflow.History.Order.{in_order, visits_at, sort_entries-stable}

-- Of a visit: the token, its element, how it ended, and when it began and ended.
abbrev pub Visit : Type 0
Visit = String × String × HistoryStatus × ℕ × ℕ

abbrev pub visit : HistoryEntry → Visit
visit e = (e.token_id, e.element_id, e.status, e.started_at, e.completed_at)

-- `ErrorThrown` of this token.
abbrev pub is_throw_of : String → ExecutionEvent → Bool
is_throw_of id (error_thrown i token_id code caught) = token_id == id
is_throw_of id _ = false

abbrev pub how_ended : TokenStatus → HistoryStatus
how_ended TokenStatus.cancelled = HistoryStatus.cancelled
how_ended _ = HistoryStatus.completed

abbrev pub visit_of : List ExecutionEvent → Token → Visit
visit_of events t = (
  t.id,
  t.element_id,
  if any (is_throw_of t.id) events then HistoryStatus.error else how_ended t.status,
  t.created_at,
  t.updated_at,
)

abbrev pub tokens_before : Option EngineState → List Token
tokens_before none = []
tokens_before (some s) = s.tokens

-- The token is over now, and no token of its id was over before.
abbrev pub ended_in_cycle : Option EngineState → Token → Bool
ended_in_cycle old t =
    is_done t.status && not (any (λ u. is_done u.status && u.id == t.id) (tokens_before old))

includes-thrown_by :
    (id : String) (events : List ExecutionEvent)
    → includes (thrown_by events) id ≡ any (is_throw_of id) events
includes-thrown_by id [] = refl
includes-thrown_by id (error_thrown i token_id code caught ∷ events) =
    ground (arith, includes-thrown_by id events)
includes-thrown_by id (_ ∷ events) = includes-thrown_by id events

includes-done :
    (id : String) (ts : List Token)
    → includes (map (λ t. t.id) (filter (λ t. is_done t.status) ts)) id
      ≡ any (λ u. is_done u.status && u.id == id) ts
includes-done id [] = refl
includes-done id (t ∷ ts) = ground (arith, includes-done id ts)

includes-was_over :
    (old : Option EngineState) (id : String)
    → includes (was_over old) id ≡ any (λ u. is_done u.status && u.id == id) (tokens_before old)
includes-was_over none id = refl
includes-was_over (some s) id =
    includes-to_set (map (λ t. t.id) (filter (λ t. is_done t.status) s.tokens)) id
    ∙ includes-done id s.tokens

ended_now-eq : (old : Option EngineState) (t : Token) → ended_now old t ≡ ended_in_cycle old t
ended_now-eq old t = ground (arith, includes-was_over old t.id)

entry_of-visit :
    (instance_id : String) (events : List ExecutionEvent) (t : Token) (snapshot : Option Variables)
    → visit (entry_of instance_id events t snapshot) ≡ visit_of events t
unfolding entry_of
entry_of-visit instance_id events t snapshot =
    ap
      (λ b. (
        t.id,
        t.element_id,
        if b then HistoryStatus.error else how_ended t.status,
        t.created_at,
        t.updated_at,
      ))
      (includes-to_set (thrown_by events) t.id ∙ includes-thrown_by t.id events)

module _ (json_length : Variables → ℕ) (max_bytes : ℕ) (scopes : Dict VariableScope)
    (keyed : Keyed (λ s. s.id) scopes) where
  snapshot_for-returns :
      (id : String) → (s : Option Variables) × (snapshot_for json_length max_bytes scopes id ≡ ok s)
  unfolding snapshot_for
  snapshot_for-returns id =
      let (chain, e, _) =
        chain_from_lem scopes keyed (suc (length scopes)) [] (some id)
          (record { distinct = tt; members = refl }) (omega arith) in
      (
        kept_snapshot json_length max_bytes (assign_scopes [] (reverse chain)),
        ap (λ o. o >>= λ c. ok (kept_snapshot json_length max_bytes (assign_scopes [] (reverse c))))
            e,
      )

  module _ (old : Option EngineState) (instance_id : String) (events : List ExecutionEvent) where
    -- The visits with these times, of the tokens that ended in the cycle.
    abbrev ended_at : ℕ → ℕ → List Token → List Token
    ended_at s c ts =
        filter (λ t. ended_in_cycle old t && (eqb t.created_at s && eqb t.updated_at c)) ts

    abbrev Tells : List Token → Outcome (List HistoryEntry) → Type 0
    Tells ts o =
        (es : List HistoryEntry) × (o ≡ ok es)
        × ((s c : ℕ) → map visit (visits_at s c es) ≡ map (visit_of events) (ended_at s c ts))

    entries_of-Tells :
        (ts : List Token)
        → Tells ts (entries_of json_length max_bytes scopes old instance_id events ts)
    unfolding entries_of
    entries_of-Tells [] = ([], refl, λ s c. refl)
    entries_of-Tells (t ∷ ts) =
        let (es, e, tells) = entries_of-Tells ts in
        let (snapshot, f) = snapshot_for-returns t.scope_id in
        by_ended (ended_now old t) (sym (ended_now-eq old t)) es e tells snapshot f
      where
        by_ended :
            (b : Bool)
            → ended_in_cycle old t ≡ b
            → (es : List HistoryEntry)
            → entries_of json_length max_bytes scopes old instance_id events ts ≡ ok es
            → ((s c : ℕ) → map visit (visits_at s c es) ≡ map (visit_of events) (ended_at s c ts))
            → (snapshot : Option Variables)
            → snapshot_for json_length max_bytes scopes t.scope_id ≡ ok snapshot
            → Tells (t ∷ ts) (
                if b
                then (snapshot_for json_length max_bytes scopes t.scope_id >>= λ snapshot.
                    entries_of json_length max_bytes scopes old instance_id events ts >>= λ entries.
                    ok (entry_of instance_id events t snapshot ∷ entries))
                else entries_of json_length max_bytes scopes old instance_id events ts)
        by_ended false n es e tells snapshot f = (es, e, λ s c. ground (arith, tells s c))
        by_ended true n es e tells snapshot f = (
          entry_of instance_id events t snapshot ∷ es,
          rw (f, e) refl,
          λ s c.
              unfold entry_of in
              ground (arith, tells s c, entry_of-visit instance_id events t snapshot),
        )

pub derive_history-visits :
    (json_length : Variables → ℕ) (old : Option EngineState) (new : EngineState)
    (events : List ExecutionEvent) (max_snapshot_bytes : Option ℕ)
    → (entries : List HistoryEntry) × (derive_history json_length old new events max_snapshot_bytes
        ≡ ok entries)
      × (in_order entries ≡ true)
      × ((s c : ℕ)
          → map visit (visits_at s c entries)
            ≡ map (visit_of events) (
                filter
                  (λ t. ended_in_cycle old t && (eqb t.created_at s && eqb t.updated_at c))
                  new.tokens))
unfolding derive_history
derive_history-visits json_length old new events max_snapshot_bytes =
    let scopes = index_by (λ (s : VariableScope). s.id) [] new.scopes in
    let (es, e, tells) =
      entries_of-Tells json_length (or_else max_snapshot_bytes 65536) scopes
        (Keyed-index_by (λ s. s.id) [] new.scopes tt) old new.process_instance.id events
        new.tokens in
    let (sorted, stable) = sort_entries-stable es in
    (
      sort_entries es,
      ap (λ o. o >>= λ x. ok (sort_entries x)) e,
      sorted,
      λ s c. ap (map visit) (stable s c) ∙ tells s c,
    )
