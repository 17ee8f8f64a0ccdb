-- ===== src/Outbox/Table/Select.antt =====
-- The messages that a claim selects.
use devengine.Common.{
  ℕ, ◌≡◌, sym, Bool, true, ◌&&◌, not, [], ◌∷◌, Memᴰ, Text, text_eq_iff, Bool-cases, inl, inr, leb,
  Memᴰ-keep_if, any-true, Distinct, Distinct-unique, Memᴰ-take, Memᴰ-swapped, Memᴰ-cons_map,
}
use devengine.Outbox.Table.{
  Message, Outbox, has_message_id, is_deliverable, insert_by_occurred, sort_by_occurred,
  select_deliverable, picks,
}

pub Memᴰ-insert_by_occurred :
    {a : Message} (r : Message) (ms : Outbox) → Memᴰ a (insert_by_occurred r ms) → Memᴰ a (r ∷ ms)
unfolding insert_by_occurred
Memᴰ-insert_by_occurred r [] m = m
Memᴰ-insert_by_occurred r (s ∷ ms) m = elim (Bool-cases (leb r.occurred_at s.occurred_at)) [
  | inl e ↦ rw e at m
  | inr e ↦ Memᴰ-swapped ms (Memᴰ-cons_map s _ _ (Memᴰ-insert_by_occurred r ms) (rw e at m))
]

Memᴰ-sort_by_occurred : {a : Message} (ms : Outbox) → Memᴰ a (sort_by_occurred ms) → Memᴰ a ms
unfolding sort_by_occurred
Memᴰ-sort_by_occurred [] m = m
Memᴰ-sort_by_occurred (r ∷ ms) m =
    Memᴰ-cons_map r _ _ (Memᴰ-sort_by_occurred ms)
      (Memᴰ-insert_by_occurred r (sort_by_occurred ms) m)

-- A selected message is pending, due, unlocked and not busy, since it is the row of its id.
pub picks-is_deliverable :
    (batch now : ℕ) (busy : Text → Bool) (ms : Outbox) (r : Message)
    → Distinct (λ (x : Message). x.id) ms
    → Memᴰ r ms
    → picks (select_deliverable batch now busy ms) r ≡ true
    → (is_deliverable now r && not (busy r.id)) ≡ true
unfolding picks select_deliverable has_message_id
picks-is_deliverable batch now busy ms r d m h =
    let (a, n, q) =
      any-true (λ (x : Message). has_message_id r.id x) (select_deliverable batch now busy ms) h in
    let inside =
      Memᴰ-keep_if (λ (x : Message). is_deliverable now x && not (busy x.id)) ms
        (Memᴰ-sort_by_occurred _ (Memᴰ-take batch _ n)) in
    rw (Distinct-unique (λ (x : Message). x.id) ms d m inside.0 (sym ((text_eq_iff a.id r.id).0 q)))
      inside.1
