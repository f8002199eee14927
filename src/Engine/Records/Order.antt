-- ===== src/Engine/Records/Order.antt =====
-- The order in which the compensation records are consumed (engine/ExecutionEngine.ts).
use nexus_workflow.Common.{
  ℕ, String, not, ◌&&◌, List, [], ◌∷◌, ◌≡◌, refl, ◌∙◌, arith, ◌≤◌, eqb, filter, ◌==◌,
}
use nexus_workflow.Model.Types.{CompensationRecord}
use nexus_workflow.Model.Errors.{ok}
use nexus_workflow.Engine.State.{ExecutionContext}
use nexus_workflow.Engine.Monad.{◌>>=◌}
use nexus_workflow.Engine.Records.{insert_record, sort_records, consume_compensation_records}

-- The latest completion comes first.
abbrev pub IsLatestFirst : List CompensationRecord → Type 0
IsLatestFirst [] = Unit
IsLatestFirst (r ∷ []) = Unit
IsLatestFirst (r ∷ s ∷ rs) = (s.completed_at ≤ r.completed_at) × IsLatestFirst (s ∷ rs)

-- The records that were completed at a time.
abbrev pub completed_at : ℕ → List CompensationRecord → List CompensationRecord
completed_at time rs = filter (λ r. eqb r.completed_at time) rs

insert_record-IsLatestFirst :
    (r : CompensationRecord) (rs : List CompensationRecord)
    → IsLatestFirst rs
    → IsLatestFirst (insert_record r rs)
unfolding insert_record
insert_record-IsLatestFirst r [] h = tt
insert_record-IsLatestFirst r (s ∷ []) h = ground arith
insert_record-IsLatestFirst r (s ∷ t ∷ rs) h =
    ground (arith, insert_record-IsLatestFirst r (t ∷ rs) h.1)

completed_at-insert_record :
    (time : ℕ) (r : CompensationRecord) (rs : List CompensationRecord)
    → completed_at time (insert_record r rs) ≡ completed_at time (r ∷ rs)
unfolding insert_record
completed_at-insert_record time r [] = refl
completed_at-insert_record time r (s ∷ rs) = ground (arith, completed_at-insert_record time r rs)

sort_records-IsLatestFirst : (rs : List CompensationRecord) → IsLatestFirst (sort_records rs)
unfolding sort_records
sort_records-IsLatestFirst [] = tt
sort_records-IsLatestFirst (r ∷ rs) =
    insert_record-IsLatestFirst r (sort_records rs) (sort_records-IsLatestFirst rs)

completed_at-sort_records :
    (time : ℕ) (rs : List CompensationRecord)
    → completed_at time (sort_records rs) ≡ completed_at time rs
unfolding sort_records
completed_at-sort_records time [] = refl
completed_at-sort_records time (r ∷ rs) =
    ground (
      arith,
      completed_at-insert_record time r (sort_records rs),
      completed_at-sort_records time rs,
    )

-- Consuming the records of an activity returns exactly those records, the latest completion first and
-- those with one completion time in the order in which they were added, and leaves exactly the records
-- of the other activities, in their order.
pub consume-order :
    (activity_id : String) (c : ExecutionContext)
    → (rs : List CompensationRecord) × (consume_compensation_records activity_id c
        ≡ ok (
          rs,
          record c {
            compensation_list =
                filter (λ r. not (r.activity_id == activity_id)) c.compensation_list;
          },
        ))
      × IsLatestFirst rs
      × ((time : ℕ)
          → completed_at time rs
            ≡ filter
                (λ r. r.activity_id == activity_id && eqb r.completed_at time)
                c.compensation_list)
unfolding consume_compensation_records ◌>>=◌
consume-order activity_id c =
    let matching = filter (λ r. r.activity_id == activity_id) c.compensation_list in
    (
      sort_records matching,
      refl,
      sort_records-IsLatestFirst matching,
      λ time. completed_at-sort_records time matching ∙ filter_filter time c.compensation_list,
    )
  where
    filter_filter :
        (time : ℕ) (rs : List CompensationRecord)
        → completed_at time (filter (λ r. r.activity_id == activity_id) rs)
          ≡ filter (λ r. r.activity_id == activity_id && eqb r.completed_at time) rs
    filter_filter time [] = refl
    filter_filter time (r ∷ rs) = ground (arith, filter_filter time rs)
