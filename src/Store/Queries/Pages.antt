-- ===== src/Store/Queries/Pages.antt =====
-- The pages of a query (Store.Queries).
use nexus_workflow.Common.{
  map-append, ℕ, zero, suc, ◌+◌, ◌*◌, ◌-◌, String, Bool, true, false, not, ◌&&◌, ◌||◌, ◌≡◌, refl,
  ap, sym, ◌∙◌, Option, none, some, List, [], ◌∷◌, ◌++◌, arith, ◌==◌, leb, map, filter, length,
  if◌then◌else◌, is_text,
}
use nexus_workflow.Common.Dict.{values}
use nexus_workflow.Model.Types.{ProcessInstance}
use nexus_workflow.Store.State.{StateStore}
use nexus_workflow.Store.Queries.{
  take, drop, page_of, InstanceQuery, ProcessInstanceSummary, summary_of, has_status, narrow_text,
  narrow, narrow_instances, find_instances,
}

module _ {A : Type 0} where
  -- The first `n` pages, one after the other.
  abbrev pub pages : ℕ → ℕ → List A → List A
  pages zero size xs = []
  pages (suc n) size xs = pages n size xs ++ page_of n size xs

  take-nil : (n : ℕ) → take {A = A} n [] ≡ []
  take-nil zero = refl
  take-nil (suc n) = refl

  take-append : (n k : ℕ) (xs : List A) → take n xs ++ take k (drop n xs) ≡ take (n + k) xs
  take-append zero k xs = let same : k ≡ zero + k = omega arith in ap (λ m. take m xs) same
  take-append (suc n) zero [] = sym (take-nil (suc n + zero))
  take-append (suc n) (suc k) [] = sym (take-nil (suc n + suc k))
  take-append (suc n) k (x ∷ xs) =
      let same : suc (n + k) ≡ suc n + k = omega arith in
      ap (λ ys. x ∷ ys) (take-append n k xs) ∙ ap (λ m. take m (x ∷ xs)) same

  pages-take : (n size : ℕ) (xs : List A) → pages n size xs ≡ take (n * size) xs
  pages-take zero size xs =
      let none_yet : zero ≡ zero * size = omega arith in ap (λ m. take m xs) none_yet
  pages-take (suc n) size xs =
      let next : suc n * size ≡ n * size + size = ground arith in
      let one_page : suc n * size - n * size ≡ size = omega (arith, next) in
      rw (pages-take n size xs) (
        ap (λ m. take (n * size) xs ++ take m (drop (n * size) xs)) one_page
        ∙ take-append (n * size) size xs
        ∙ ap (λ m. take m xs) (sym next))

  filter-filter :
      (p q : A → Bool) (xs : List A) → filter p (filter q xs) ≡ filter (λ x. q x && p x) xs
  filter-filter p q [] = refl
  filter-filter p q (x ∷ xs) = ground (arith, filter-filter p q xs)

  abbrev meets_text : Option String → (String → A → Bool) → A → Bool
  meets_text none p x = true
  meets_text (some t) p x = t == "" || p t x

  abbrev meets {κ} : {B : Type κ} → Option B → (B → A → Bool) → A → Bool
  meets none p x = true
  meets (some t) p x = p t x

  filter-true : (xs : List A) → filter (λ x. true) xs ≡ xs
  filter-true [] = refl
  filter-true (x ∷ xs) = ap (λ ys. x ∷ ys) (filter-true xs)

  narrow_text-filter :
      (o : Option String) (p : String → A → Bool) (xs : List A)
      → narrow_text o p xs ≡ filter (meets_text o p) xs
  narrow_text-filter none p xs = sym (filter-true xs)
  narrow_text-filter (some t) p xs = by_empty (t == "")
    where
      by_empty : (b : Bool) → (if not b then filter (p t) xs else xs) ≡ filter (λ x. b || p t x) xs
      by_empty true = sym (filter-true xs)
      by_empty false = refl

  narrow-filter :
      {B : Type 0} (o : Option B) (p : B → A → Bool) (xs : List A)
      → narrow o p xs ≡ filter (meets o p) xs
  narrow-filter none p xs = sym (filter-true xs)
  narrow-filter (some b) p xs = refl

-- An instance that a query is about: each field of the query that is given, and is no empty text,
-- agrees with it.
abbrev pub is_asked_for : InstanceQuery → ProcessInstance → Bool
is_asked_for q i =
    meets_text q.definition_id (λ id i. i.definition_id == id) i
    && meets_text q.correlation_key (λ k i. is_text i.correlation_key k) i
    && meets_text q.business_key (λ k i. is_text i.business_key k) i
    && meets q.status has_status i
    && meets q.started_after (λ time i. leb time i.started_at) i
    && meets q.started_before (λ time i. leb i.started_at time) i

narrow_instances-filter :
    (q : InstanceQuery) (xs : List ProcessInstance)
    → narrow_instances q xs ≡ filter (is_asked_for q) xs
unfolding narrow_instances
narrow_instances-filter q xs = simp (narrow_text-filter, narrow-filter, filter-filter) refl

-- The first `n` pages of a query, one after the other.
abbrev pub first_pages : ℕ → InstanceQuery → StateStore → List ProcessInstanceSummary
first_pages zero q s = []
first_pages (suc n) q s = first_pages n q s ++ (find_instances (record q { page = n }) s).items

first_pages-pages :
    (n : ℕ) (q : InstanceQuery) (s : StateStore)
    → first_pages n q s
      ≡ map summary_of (pages n q.page_size (narrow_instances q (values s.instances)))
unfolding find_instances
first_pages-pages zero q s = refl
first_pages-pages (suc n) q s =
    let found = narrow_instances q (values s.instances) in
    ap (λ xs. xs ++ map summary_of (page_of n q.page_size found)) (first_pages-pages n q s)
    ∙ sym (map-append summary_of (pages n q.page_size found) (page_of n q.page_size found))

-- The pages of a query for instances leave nothing out and show nothing twice: the first `n` pages, one
-- after the other, are the first `n * pageSize` stored instances that the query is about, in the order
-- in which they were stored, and every page tells the number of all of them.
pub find_instances-pages :
    (n : ℕ) (q : InstanceQuery) (s : StateStore)
    → (first_pages n q s
        ≡ map summary_of (take (n * q.page_size) (filter (is_asked_for q) (values s.instances))))
      × ((find_instances q s).total ≡ length (filter (is_asked_for q) (values s.instances)))
unfolding find_instances
find_instances-pages n q s = (
  first_pages-pages n q s
      ∙ ap (map summary_of) (pages-take n q.page_size (narrow_instances q (values s.instances)))
      ∙ ap (λ xs. map summary_of (take (n * q.page_size) xs))
          (narrow_instances-filter q (values s.instances)),
  ap length (narrow_instances-filter q (values s.instances)),
)
