-- ===== src/History/Order.antt =====
-- The sort of the history entries (History).
use nexus_workflow.Common.{
  ℕ, suc, ◌≤◌, Bool, true, false, ◌&&◌, ◌≡◌, refl, ◌∙◌, List, [], ◌∷◌, arith, eqb, ltb, leb, map,
  filter, if◌then◌else◌,
}
use nexus_workflow.Store.State.{HistoryEntry}
use nexus_workflow.History.{comes_first, insert_entry, sort_from, sort_entries}

-- The entry ended earlier, or at the same time and began no later.
abbrev pub no_later : HistoryEntry → HistoryEntry → Bool
no_later a b =
    if eqb a.completed_at b.completed_at
    then leb a.started_at b.started_at
    else ltb a.completed_at b.completed_at

-- Neighbours are in order.
abbrev pub in_order : List HistoryEntry → Bool
in_order [] = true
in_order (a ∷ []) = true
in_order (a ∷ b ∷ es) = no_later a b && in_order (b ∷ es)

-- The entries of a visit with these times.
abbrev pub visits_at : ℕ → ℕ → List HistoryEntry → List HistoryEntry
visits_at started completed es =
    filter (λ e. eqb e.started_at started && eqb e.completed_at completed) es

abbrev bare : List (HistoryEntry × ℕ) → List HistoryEntry
bare xs = map (λ x. x.0) xs

-- All indices are at least this.
abbrev From : ℕ → List (HistoryEntry × ℕ) → Type 0
From n [] = Unit
From n ((e, i) ∷ xs) = (n ≤ i) × From n xs

From-less : (n k : ℕ) (xs : List (HistoryEntry × ℕ)) → n ≤ k → From k xs → From n xs
From-less n k [] h f = tt
From-less n k ((e, i) ∷ xs) h f = (omega (arith, h, f.0), From-less n k xs h f.1)

From-insert :
    (n : ℕ) (e : HistoryEntry) (i : ℕ) (xs : List (HistoryEntry × ℕ))
    → n ≤ i
    → From n xs
    → From n (insert_entry (e, i) xs)
unfolding insert_entry
From-insert n e i [] h f = (h, tt)
From-insert n e i ((d, j) ∷ xs) h f =
    by_order (comes_first (e, i) (d, j)) (From-insert n e i xs h f.1)
  where
    by_order :
        (b : Bool)
        → From n (insert_entry (e, i) xs)
        → From n (if b then (e, i) ∷ (d, j) ∷ xs else (d, j) ∷ insert_entry (e, i) xs)
    by_order true rest = (h, f)
    by_order false rest = (f.0, rest)

-- An entry with the smallest index goes before those of its times.
insert-visits_at :
    (s c : ℕ) (e : HistoryEntry) (i : ℕ) (xs : List (HistoryEntry × ℕ))
    → From i xs
    → visits_at s c (bare (insert_entry (e, i) xs)) ≡ visits_at s c (e ∷ bare xs)
unfolding insert_entry
insert-visits_at s c e i [] f = refl
insert-visits_at s c e i ((d, j) ∷ xs) f = ground (arith, insert-visits_at s c e i xs f.1, f.0)

insert-in_order :
    (e : HistoryEntry) (i : ℕ) (xs : List (HistoryEntry × ℕ))
    → in_order (bare xs) ≡ true
    → in_order (bare (insert_entry (e, i) xs)) ≡ true
unfolding insert_entry
insert-in_order e i [] h = refl
insert-in_order e i ((d, j) ∷ []) h = ground arith
insert-in_order e i ((d, j) ∷ (b, k) ∷ xs) h = ground (arith, insert-in_order e i ((b, k) ∷ xs))

sort_from-From : (n : ℕ) (es : List HistoryEntry) → From n (sort_from n es)
unfolding sort_from
sort_from-From n [] = tt
sort_from-From n (e ∷ es) =
    From-insert n e n (sort_from (suc n) es) (omega arith)
      (From-less n (suc n) (sort_from (suc n) es) (omega arith) (sort_from-From (suc n) es))

sort_from-visits_at :
    (s c n : ℕ) (es : List HistoryEntry) → visits_at s c (bare (sort_from n es)) ≡ visits_at s c es
unfolding sort_from
sort_from-visits_at s c n [] = refl
sort_from-visits_at s c n (e ∷ es) =
    insert-visits_at s c e n (sort_from (suc n) es)
      (From-less n (suc n) (sort_from (suc n) es) (omega arith) (sort_from-From (suc n) es))
    ∙ ground (arith, sort_from-visits_at s c (suc n) es)

sort_from-in_order : (n : ℕ) (es : List HistoryEntry) → in_order (bare (sort_from n es)) ≡ true
unfolding sort_from
sort_from-in_order n [] = refl
sort_from-in_order n (e ∷ es) =
    insert-in_order e n (sort_from (suc n) es) (sort_from-in_order (suc n) es)

-- The sort puts the entries in order, and is stable: those of the same times keep their order.
pub sort_entries-stable :
    (es : List HistoryEntry)
    → (in_order (sort_entries es) ≡ true)
      × ((s c : ℕ) → visits_at s c (sort_entries es) ≡ visits_at s c es)
unfolding sort_entries
sort_entries-stable es = (sort_from-in_order 0 es, λ s c. sort_from-visits_at s c 0 es)
