-- ===== src/Outbox/Enqueue/Laws.antt =====
-- What enqueueing an event does to the outbox.
use devengine.Common.{
  ℕ, ℤ, pos, negsuc, ◌<◌, ◌≡◌, refl, sym, ap, ◌∙◌, ◌>>=◌, List, [], ◌∷◌, ◌++◌, Option, none, some,
  Text, ltb, leb, ltb→lt, any, false, Result, ok, err, arith, Bool-cases, inl, inr, map,
}
use devengine.Events.{Event}
use devengine.Outbox.Table.{Message, Outbox, has_message_id, is_deliverable}
use devengine.Outbox.Enqueue.{
  EnqueueConfig, EnqueueError, EnqueueOption, with_max_attempts, with_process_after, apply_options,
  insert_message, message_of, marshal_payload, enqueue_event,
}

-- The options that a caller can write: nil, or one of the two of the package.
pub data PublicOption : Type 0 where
  nil_option : PublicOption
  limited : ℤ → PublicOption
  delayed : Option ℕ → PublicOption

abbrev pub option_of : PublicOption → Option EnqueueOption
option_of nil_option = none
option_of (limited v) = some (with_max_attempts v)
option_of (delayed t) = some (with_process_after t)

-- The last limit and the last time that are given, or the one before.
abbrev pub last_attempts : ℕ → List PublicOption → ℕ
last_attempts n [] = n
last_attempts n (limited (pos v) ∷ options) = last_attempts v options
last_attempts n (limited (negsuc v) ∷ options) = last_attempts n options
last_attempts n (nil_option ∷ options) = last_attempts n options
last_attempts n (delayed t ∷ options) = last_attempts n options

abbrev pub last_after : ℕ → List PublicOption → ℕ
last_after n [] = n
last_after n (delayed (some t) ∷ options) = last_after t options
last_after n (delayed none ∷ options) = last_after n options
last_after n (nil_option ∷ options) = last_after n options
last_after n (limited v ∷ options) = last_after n options

module _ {A : Type 0} where
  bind_value :
      {B : Type 0} (r : Result EnqueueError B) (f : B → Result EnqueueError A) (a : A)
      → (r >>= f) ≡ ok a
      → (b : B) × (r ≡ ok b) × (f b ≡ ok a)
  bind_value (ok b) f a h = (b, refl, h)
  bind_value (err e) f a h = absurd (err_value h)
    where
      err_value : {x : EnqueueError} → err x ≡ ok a → ⊥
      err_value z = cc

  ok_ok : {a b : A} → ◌≡◌ {A = Result EnqueueError A} (ok a) (ok b) → b ≡ a
  ok_ok z = cc

  err_ok : {x : EnqueueError} {a : A} → err x ≡ ok a → ⊥
  err_ok z = cc

  -- The value of a step that a `do` block passes.
  step_value :
      {B : Type 0} (r : Result EnqueueError B) (f : B → Result EnqueueError A) (a : A)
      → (elim r [ err e ↦ err e | ok b ↦ f b ]) ≡ ok a
      → (b : B) × (r ≡ ok b) × (f b ≡ ok a)
  step_value (ok b) f a h = (b, refl, h)
  step_value (err e) f a h = absurd (err_ok h)

with_max_attempts-ok :
    (n : ℕ) (config next : EnqueueConfig)
    → with_max_attempts (pos n) config ≡ ok next
    → (0 < n) × (next ≡ record config { max_attempts = n })
unfolding with_max_attempts
with_max_attempts-ok n config next h = elim (Bool-cases (ltb 0 n)) [
  | inl e ↦ (ltb→lt 0 n e, ok_ok (rw e at h))
  | inr e ↦ absurd (err_ok (rw e at h))
]

with_max_attempts-negsuc :
    (n : ℕ) (config next : EnqueueConfig) → with_max_attempts (negsuc n) config ≡ ok next → ⊥
unfolding with_max_attempts
with_max_attempts-negsuc n config next h = err_ok h

-- What the loop over the options makes of a configuration.
record IsChosen (options : List PublicOption) (config next : EnqueueConfig) : Type 0 where
  positive : 0 < next.max_attempts
  limit : next.max_attempts ≡ last_attempts config.max_attempts options
  time : next.process_after ≡ last_after config.process_after options

apply_options-IsChosen :
    (options : List PublicOption) (config next : EnqueueConfig)
    → 0 < config.max_attempts
    → apply_options (map option_of options) config ≡ ok next
    → IsChosen options config next
unfolding apply_options with_process_after
apply_options-IsChosen [] config next p h =
    rw (ok_ok h) (record { positive = p; limit = refl; time = refl })
apply_options-IsChosen (nil_option ∷ options) config next p h =
    let v = apply_options-IsChosen options config next p h in
    record { positive = v.positive; limit = v.limit; time = v.time }
apply_options-IsChosen (limited (pos n) ∷ options) config next p h =
    let (mid, e, rest) =
      step_value (with_max_attempts (pos n) config) (apply_options (map option_of options)) next
        h in
    let (q, made) = with_max_attempts-ok n config mid e in
    let v = apply_options-IsChosen options mid next (rw made q) rest in
    record {
      positive = v.positive;
      limit = v.limit ∙ ap (λ (x : EnqueueConfig). last_attempts x.max_attempts options) made;
      time = v.time ∙ ap (λ (x : EnqueueConfig). last_after x.process_after options) made;
    }
apply_options-IsChosen (limited (negsuc n) ∷ options) config next p h =
    let (mid, e, rest) =
      step_value (with_max_attempts (negsuc n) config) (apply_options (map option_of options)) next
        h in
    absurd (with_max_attempts-negsuc n config mid e)
apply_options-IsChosen (delayed none ∷ options) config next p h = absurd (err_ok h)
apply_options-IsChosen (delayed (some t) ∷ options) config next p h =
    let v = apply_options-IsChosen options (record config { process_after = t }) next p h in
    record { positive = v.positive; limit = v.limit; time = v.time }

-- What an accepted event leaves behind.
pub record Appended (marshal : Text → Result Text Text) (clock now : ℕ)
    (options : List PublicOption) (event : Event) (ms t : Outbox) : Type 0 where
  pub stored : Message
  pub appended : t ≡ ms ++ stored ∷ []
  pub fresh : any (has_message_id stored.id) ms ≡ false
  pub same_event :
      (stored.id ≡ event.id)
      × (stored.event_type ≡ event.event_type)
      × (stored.aggregate_id ≡ event.aggregate_id)
      × (stored.aggregate_type ≡ event.aggregate_type)
      × (stored.schema_version ≡ event.schema_version)
      × (stored.occurred_at ≡ event.occurred_at)
  pub same_payload : marshal event.payload ≡ ok stored.payload
  pub created : stored.created_at ≡ now
  pub unattempted : stored.attempt ≡ 0
  pub allowed : 0 < stored.max_attempts
  pub limit : stored.max_attempts ≡ last_attempts 5 options
  pub due : (later : ℕ) → is_deliverable later stored ≡ leb (last_after clock options) later

module _ (marshal : Text → Result Text Text) where
  marshal_payload-ok : (p t : Text) → marshal_payload marshal p ≡ ok t → marshal p ≡ ok t
  unfolding marshal_payload
  marshal_payload-ok p t h = of (marshal p) refl
    where
      of : (m : Result Text Text) → marshal p ≡ m → marshal p ≡ ok t
      of (ok x) e = e ∙ ap ok (sym (ok_ok (rw (e, marshal_payload) at h)))
      of (err x) e = absurd (err_ok (rw (e, marshal_payload) at h))

  insert_message-ok :
      (refusal : Option Text) (m : Message) (ms t : Outbox)
      → insert_message refusal m ms ≡ ok t
      → (any (has_message_id m.id) ms ≡ false) × (t ≡ ms ++ m ∷ [])
  unfolding insert_message
  insert_message-ok refusal m ms t h = ground arith

  -- An accepted event: the outbox gains one message, whose id is new, with the event's fields and
  -- the encoded payload, no attempt, and the last given limit of attempts, which is positive, or 5;
  -- it can be delivered exactly from the last time on that an option has given, or from the time of
  -- the call when none has.
  pub enqueue_event-Appended :
      (clock now : ℕ) (refusal : Option Text) (event : Event) (options : List PublicOption)
      (ms t : Outbox)
      → enqueue_event marshal clock now refusal event (map option_of options) ms ≡ ok t
      → Appended marshal clock now options event ms t
  unfolding enqueue_event
  enqueue_event-Appended clock now refusal event options ms t h =
      let start : EnqueueConfig = record { max_attempts = 5; process_after = clock } in
      let (config, chosen, rest) = bind_value (apply_options (map option_of options) start) _ t h in
      let (payload, encoded, last) = bind_value (marshal_payload marshal event.payload) _ t rest in
      let stored = message_of config now event payload in
      let (new_id, appended) = insert_message-ok refusal stored ms t last in
      let v = apply_options-IsChosen options start config (omega arith) chosen in
      record {
        stored = stored;
        appended = appended;
        fresh = new_id;
        same_event = unfold message_of in (refl, refl, refl, refl, refl, refl);
        same_payload = unfold message_of in marshal_payload-ok event.payload payload encoded;
        created = unfold message_of in refl;
        unattempted = unfold message_of in refl;
        allowed = unfold message_of in v.positive;
        limit = unfold message_of in v.limit;
        due = λ n. due_from config payload v.time n;
      }
    where
      due_from :
          (config : EnqueueConfig) (payload : Text)
          → config.process_after ≡ last_after clock options
          → (n : ℕ)
          → is_deliverable n (message_of config now event payload)
            ≡ leb (last_after clock options) n
      due_from config payload e n =
          unfold message_of in unfold is_deliverable in (rw (sym e) (ground arith))
