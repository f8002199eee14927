-- ===== src/Adapters/EventBus/Delivery.antt =====
-- What the event bus (Adapters.EventBus) delivers.
use nexus_workflow.Common.{
  append-nil, append_assoc, ℕ, String, Bool, false, not, ◌||◌, ◌≡◌, refl, ap, sym, ◌∙◌, List, [],
  ◌∷◌, ◌++◌, arith, ◌==◌, eqb, filter, if◌then◌else◌,
}
use nexus_workflow.Model.Events.{ExecutionEvent}
use nexus_workflow.Adapters.EventBus.{
  event_type, Handler, own, wrapper, same_handler, InMemoryEventBus, Delivery, deliver, deliver_all,
  publish, publish_many, subscribe, unsubscribe, subscribe_to_type,
}

-- The subscriber's function of a handler.
abbrev pub function_of : Handler → ℕ
function_of (own f) = f
function_of (wrapper i type f) = f

-- Some handler calls this function.
abbrev pub uses : ℕ → List Handler → Bool
uses f [] = false
uses f (h ∷ hs) = eqb (function_of h) f || uses f hs

-- The events that a function is given, in order.
abbrev pub received : ℕ → List Delivery → List ExecutionEvent
received f [] = []
received f ((g, e) ∷ ds) = let rest = received f ds in if eqb g f then e ∷ rest else rest

module _ (f : ℕ) where
  received-append : (xs ys : List Delivery) → received f (xs ++ ys) ≡ received f xs ++ received f ys
  received-append [] ys = refl
  received-append ((g, e) ∷ xs) ys = ground (arith, received-append xs ys)

  deliver-unused :
      (h : Handler) (e : ExecutionEvent)
      → eqb (function_of h) f ≡ false
      → received f (deliver h e) ≡ []
  deliver-unused (own g) e n = ground arith
  deliver-unused (wrapper i type g) e n = ground arith

  deliver_all-unused :
      (hs : List Handler) (e : ExecutionEvent)
      → uses f hs ≡ false
      → received f (deliver_all hs e) ≡ []
  deliver_all-unused [] e n = refl
  deliver_all-unused (h ∷ hs) e n =
      received-append (deliver h e) (deliver_all hs e)
      ∙ ground (arith, deliver-unused h e, deliver_all-unused hs e)

  -- The last handler is the wrapper of this function, and no other has it.
  deliver_all-wrapped :
      (hs : List Handler) (i : ℕ) (type : String) (e : ExecutionEvent)
      → uses f hs ≡ false
      → received f (deliver_all (hs ++ wrapper i type f ∷ []) e)
        ≡ (if event_type e == type then e ∷ [] else [])
  deliver_all-wrapped [] i type e n = ground arith
  deliver_all-wrapped (h ∷ hs) i type e n =
      received-append (deliver h e) (deliver_all (hs ++ wrapper i type f ∷ []) e)
      ∙ ground (arith, deliver-unused h e, deliver_all-wrapped hs i type e)

  publish_many-unused :
      (es : List ExecutionEvent) (bus : InMemoryEventBus)
      → uses f bus.handlers ≡ false
      → received f (publish_many es bus).1 ≡ []
  unfolding publish_many publish
  publish_many-unused [] bus n = refl
  publish_many-unused (e ∷ es) bus n =
      received-append (deliver_all bus.handlers e) (publish_many es (publish e bus).0).1
      ∙ ground
          (arith, deliver_all-unused bus.handlers e n, publish_many-unused es (publish e bus).0)

  publish_many-wrapped :
      (es : List ExecutionEvent) (bus : InMemoryEventBus) (hs : List Handler) (i : ℕ)
      (type : String)
      → bus.handlers ≡ hs ++ wrapper i type f ∷ []
      → uses f hs ≡ false
      → received f (publish_many es bus).1 ≡ filter (λ e. event_type e == type) es
  unfolding publish_many publish
  publish_many-wrapped [] bus hs i type e n = refl
  publish_many-wrapped (x ∷ es) bus hs i type e n =
      received-append (deliver_all bus.handlers x) (publish_many es (publish x bus).0).1
      ∙ ground (
        arith,
        ap (λ l. received f (deliver_all l x)) e,
        deliver_all-wrapped hs i type x n,
        publish_many-wrapped es (publish x bus).0 hs i type e n,
      )

  uses-unsubscribe :
      (hs : List Handler) (i : ℕ) (type : String)
      → uses f hs ≡ false
      → uses f (filter (λ h. not (same_handler h (wrapper i type f))) (hs ++ wrapper i type f ∷ []))
        ≡ false
  uses-unsubscribe [] i type n = ground arith
  uses-unsubscribe (h ∷ hs) i type n = ground (arith, uses-unsubscribe hs i type)

publish_many-keeps :
    (es : List ExecutionEvent) (bus : InMemoryEventBus)
    → ((publish_many es bus).0.handlers ≡ bus.handlers)
      × ((publish_many es bus).0.published ≡ bus.published ++ es)
unfolding publish_many publish
publish_many-keeps [] bus = (refl, sym (append-nil bus.published))
publish_many-keeps (e ∷ es) bus =
    let (same, log) = publish_many-keeps es (publish e bus).0 in
    (same, log ∙ append_assoc bus.published (e ∷ []) es)

pub subscription-delivers :
    (bus : InMemoryEventBus) (type : String) (f : ℕ) (events later : List ExecutionEvent)
    → uses f bus.handlers ≡ false
    → (received f (publish_many events (subscribe_to_type type f bus).0).1
        ≡ filter (λ e. event_type e == type) events)
      × (received f
            (publish_many later (
              unsubscribe
                (subscribe_to_type type f bus).1
                (publish_many events (subscribe_to_type type f bus).0).0)).1
          ≡ [])
      × ((publish_many events (subscribe_to_type type f bus).0).0.published
          ≡ bus.published ++ events)
unfolding subscribe_to_type subscribe unsubscribe
subscription-delivers bus type f events later n =
    let b = (subscribe_to_type type f bus).0 in
    let (same, log) = publish_many-keeps events b in
    (
      publish_many-wrapped f events b bus.handlers bus.next_wrapper type refl n,
      publish_many-unused f later _ (
          ap
            (λ hs. uses f (filter (λ h. not (same_handler h (wrapper bus.next_wrapper type f))) hs))
            same
          ∙ uses-unsubscribe f bus.handlers bus.next_wrapper type n),
      log,
    )
