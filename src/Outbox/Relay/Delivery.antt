-- ===== src/Outbox/Relay/Delivery.antt =====
-- When a delivery succeeds, and what its error names.
use devengine.Common.{
  ◌≡◌, ◌≢◌, ◌↔◌, refl, sym, ap, ◌∙◌, Option, none, some, List, [], ◌∷◌, Memᴰ, inl, inr,
  Option-cases, Text, All, none-some,
}
use devengine.Events.{Event, Dynamic, Registry, handlers_for}
use devengine.Outbox.Relay.{
  CallError, DeliveryError, joined, call_event_handler, call_handlers, join_errors, deliver,
}

module _ (e : Event) where
  call_handlers-All :
      (ds : List Dynamic) → call_handlers ds e ≡ [] → All (λ d. call_event_handler d e ≡ none) ds
  unfolding call_handlers
  call_handlers-All [] h = tt
  call_handlers-All (d ∷ ds) h = elim (Option-cases (call_event_handler d e)) [
    | inl p ↦ (p, call_handlers-All ds (rw (p, call_handlers) at h))
    | inr (x, p) ↦ absurd (cons_nil (rw (p, call_handlers) at h))
  ]
    where
      cons_nil : {y : Dynamic × CallError} {ys : List (Dynamic × CallError)} → y ∷ ys ≡ [] → ⊥
      cons_nil z = cc

  All-call_handlers :
      (ds : List Dynamic) → All (λ d. call_event_handler d e ≡ none) ds → call_handlers ds e ≡ []
  unfolding call_handlers
  All-call_handlers [] a = refl
  All-call_handlers (d ∷ ds) a = rw (a.0, call_handlers) (All-call_handlers ds a.1)

  join_none : (xs : List (Dynamic × CallError)) → join_errors xs ≡ none → xs ≡ []
  join_none [] h = refl
  join_none (x ∷ xs) h = absurd (none-some (sym h))

  -- An event is delivered exactly when some handler is registered for it and every one returns nil.
  pub deliver_succeeds :
      (r : Registry)
      → (deliver (some r) e ≡ none) ↔ (
          (handlers_for r e.event_type ≢ [])
          × All (λ d. call_event_handler d e ≡ none) (handlers_for r e.event_type))
  unfolding deliver
  deliver_succeeds r = by_handlers (handlers_for r e.event_type)
    where
      by_handlers :
          (hs : List Dynamic)
          → ((elim hs [
            | [] ↦ some (DeliveryError.no_handlers e.event_type)
            | d ∷ ds ↦ join_errors (call_handlers (d ∷ ds) e)
          ])
              ≡ none)
            ↔ ((hs ≢ []) × All (λ d. call_event_handler d e ≡ none) hs)
      by_handlers [] = ((λ h. absurd (none-some (sym h))), (λ (n, a). absurd (n refl)))
      by_handlers (d ∷ ds) = (
        (λ h. ((λ z. cc), call_handlers-All (d ∷ ds) (join_none _ h))),
        (λ (n, a). ap join_errors (All-call_handlers (d ∷ ds) a)),
      )

  named_fails :
      (ds : List Dynamic) (d : Dynamic) (x : CallError)
      → Memᴰ (d, x) (call_handlers ds e)
      → Memᴰ d ds × (call_event_handler d e ≡ some x)
  unfolding call_handlers
  named_fails [] d x m = elim m [ ]
  named_fails (c ∷ ds) d x m = elim (Option-cases (call_event_handler c e)) [
    | inl p ↦ let (k, q) = named_fails ds d x (rw (p, call_handlers) at m) in (Memᴰ.tail k, q)
    | inr (y, p) ↦ at_head (λ k. named_fails ds d x k) p (rw (p, call_handlers) at m)
  ]
    where
      at_head :
          {y : CallError}
          → (Memᴰ (d, x) (call_handlers ds e) → Memᴰ d ds × (call_event_handler d e ≡ some x))
          → call_event_handler c e ≡ some y
          → Memᴰ (d, x) ((c, y) ∷ call_handlers ds e)
          → Memᴰ d (c ∷ ds) × (call_event_handler d e ≡ some x)
      at_head {y} behind p (Memᴰ.head q) =
          let same : d ≡ c = ap (λ (z : Dynamic × CallError). z.0) q in
          (
            Memᴰ.head same,
            ap (λ z. call_event_handler z e) same
                ∙ p
                ∙ ap some (sym (ap (λ (z : Dynamic × CallError). z.1) q)),
          )
      at_head behind p (Memᴰ.tail k) = let (n, q) = behind k in (Memᴰ.tail n, q)

  failing_named :
      (ds : List Dynamic) (d : Dynamic) (x : CallError)
      → Memᴰ d ds
      → call_event_handler d e ≡ some x
      → Memᴰ (d, x) (call_handlers ds e)
  unfolding call_handlers
  failing_named [] d x m h = elim m [ ]
  failing_named (c ∷ ds) d x (Memᴰ.head q) h =
      rw (ap (λ z. call_event_handler z e) (sym q) ∙ h, call_handlers)
        (Memᴰ.head (ap (λ z. (z, x)) q))
  failing_named (c ∷ ds) d x (Memᴰ.tail m) h = elim (Option-cases (call_event_handler c e)) [
    | inl p ↦ rw (p, call_handlers) (failing_named ds d x m h)
    | inr (y, p) ↦ rw (p, call_handlers) (Memᴰ.tail (failing_named ds d x m h))
  ]

  -- The error of a delivery names exactly the handlers that failed, each with its error: no handler
  -- is left out because an earlier one failed.
  pub deliver_names :
      (r : Registry) (xs : List (Dynamic × CallError))
      → deliver (some r) e ≡ some (joined xs)
      → (d : Dynamic) (x : CallError)
      → Memᴰ (d, x) xs ↔ (Memᴰ d (handlers_for r e.event_type) × (call_event_handler d e ≡ some x))
  unfolding deliver
  deliver_names r xs h d x = by_handlers (handlers_for r e.event_type) h
    where
      joined_errors :
          (ys : List (Dynamic × CallError)) → join_errors ys ≡ some (joined xs) → xs ≡ ys
      joined_errors [] q = absurd (none-some q)
      joined_errors (y ∷ ys) q = cc

      not_joined :
          {t : Text}
          → ◌≡◌ {A = Option DeliveryError} (some (DeliveryError.no_handlers t)) (some (joined xs))
          → ⊥
      not_joined q = cc

      by_handlers :
          (hs : List Dynamic)
          → (elim hs [
            | [] ↦ some (DeliveryError.no_handlers e.event_type)
            | c ∷ ds ↦ join_errors (call_handlers (c ∷ ds) e)
          ])
            ≡ some (joined xs)
          → Memᴰ (d, x) xs ↔ (Memᴰ d hs × (call_event_handler d e ≡ some x))
      by_handlers [] q = absurd (not_joined q)
      by_handlers (c ∷ ds) q =
          let same = joined_errors (call_handlers (c ∷ ds) e) q in
          (
            (λ m. named_fails (c ∷ ds) d x (rw same at m)),
            (λ (m, p). rw same (failing_named (c ∷ ds) d x m p)),
          )
