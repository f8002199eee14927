-- ===== src/Engine/Records.antt =====
-- The compensation records of the class `ExecutionContext`.
pub mod Order
use nexus_workflow.Common.{String, not, List, [], ◌∷◌, ◌++◌, ◌==◌, leb, if◌then◌else◌, filter}
use nexus_workflow.Model.Types.{CompensationRecord}
use nexus_workflow.Engine.Monad.{Exec, pure, gets, modify, ◌>>=◌, ◌>>◌}

unfoldable pub add_compensation_record : CompensationRecord → Exec (Unit {0})
unfolding modify
add_compensation_record r =
    modify (λ ctx. record ctx { compensation_list = ctx.compensation_list ++ r ∷ [] })

-- One step of the stable sort by `b.completedAt - a.completedAt`: `r` stood before the others.
unfoldable pub insert_record :
    CompensationRecord → List CompensationRecord → List CompensationRecord
insert_record r [] = r ∷ []
insert_record r (s ∷ rs) =
    if leb s.completed_at r.completed_at then r ∷ s ∷ rs else s ∷ insert_record r rs

unfoldable pub sort_records : List CompensationRecord → List CompensationRecord
unfolding insert_record
sort_records [] = []
sort_records (r ∷ rs) = insert_record r (sort_records rs)

unfoldable pub consume_compensation_records : String → Exec (List CompensationRecord)
unfolding ◌>>=◌ sort_records
consume_compensation_records activity_id = do
  matching ← gets (λ ctx. filter (λ r. r.activity_id == activity_id) ctx.compensation_list)
  modify (λ ctx. record ctx {
    compensation_list = filter (λ r. not (r.activity_id == activity_id)) ctx.compensation_list;
  })
  pure (sort_records matching)

unfoldable pub consume_all_compensation_records : Exec (List CompensationRecord)
unfolding ◌>>=◌ sort_records
consume_all_compensation_records = do
  all ← gets (λ ctx. ctx.compensation_list)
  modify (λ ctx. record ctx { compensation_list = [] })
  pure (sort_records all)
