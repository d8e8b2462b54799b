-- ===== src/Worker/Consumer/Attempts.antt =====
-- One entry over its deliveries: how often a handler runs for it, and how it leaves the stream.
use claude_at_work_project.Prelude.{
  ℕ, zero, suc, ◌+◌, ◌-◌, ◌≤◌, ◌<◌, ◌≡◌, ◌⊎◌, refl, subst, inl, inr, Bool, true, false, Option,
  List, [], ◌∷◌, ◌++◌, arith, ltb, leb, select, count, Bool-cases, Option-cases, if◌then◌else◌,
}
use claude_at_work_project.Worker.Consumer.{
  Fields, Handler, field, JobEnvelope, Text, Event, called, dead_lettered, completed, Outcome,
  succeeded, failed, permanently, job_data_field, decoded, triage, settle, process,
}

abbrev pub is_call : Event → Bool
is_call (called e) = true
is_call _ = false

-- An event that takes the entry off the stream.
abbrev pub is_end : Event → Bool
is_end (called e) = false
is_end _ = true

count-++ :
    {A : Type 0} (p : A → Bool) (xs ys : List A) → count p (xs ++ ys) ≡ count p xs + count p ys
count-++ p [] ys = omega arith
count-++ p (x ∷ xs) ys = ground (arith, count-++ p xs ys)

-- The events that are kept of a delivery whose transaction is lost.
select_calls :
    (events : List Event)
    → (count is_call (select is_call events) ≡ count is_call events)
      × (count is_end (select is_call events) ≡ 0)
select_calls [] = (refl, refl)
select_calls (called e ∷ events) = ground (arith, select_calls events)
select_calls (dead_lettered i r w n ∷ events) = select_calls events
select_calls (completed i ∷ events) = select_calls events

-- What one delivery comes to.
record IsDelivered (max n : ℕ) (events : List Event) : Type 0 where
  pub one_call : count is_call events ≤ 1
  pub one_end : count is_end events ≤ 1
  pub too_many : max < n → (count is_call events ≡ 0) × (count is_end events ≡ 1)

settle_end :
    (id : ℕ) (raw : Option Text) (n : ℕ) (o : Outcome)
    → (count is_call (settle id raw n o) ≡ 0) × (count is_end (settle id raw n o) ≤ 1)
settle_end id raw n succeeded = (refl, omega arith)
settle_end id raw n failed = (refl, omega arith)
settle_end id raw n (permanently why) = (refl, omega arith)

-- The events of a delivery and of those after it, if there are any.
abbrev pub followed : Bool → List Event → List Event → List Event
followed lost events rest =
    if lost
    then select is_call events ++ rest
    else if leb 1 (count is_end events)
    then events
    else events ++ rest

followed_calls :
    (lost : Bool) (events rest : List Event)
    → count is_call (followed lost events rest) ≤ count is_call events + count is_call rest
followed_calls true events rest =
    omega (arith, count-++ is_call (select is_call events) rest, (select_calls events).0)
followed_calls false events rest = ground (arith, count-++ is_call events rest)

-- An entry that leaves at this delivery or after it.
followed_leaves :
    (max n : ℕ) (lost : Bool) (events rest : List Event)
    → IsDelivered max n events
    → ((lost ≡ false) × (max < n)) ⊎ (count is_end rest ≡ 1)
    → count is_end (followed lost events rest) ≡ 1
followed_leaves max n true events rest d (inl h) = absurd (cc (h.0))
followed_leaves max n true events rest d (inr h) =
    omega (arith, count-++ is_end (select is_call events) rest, (select_calls events).1)
followed_leaves max n false events rest d (inl h) =
    let ends = (d.too_many h.1).1 in ground (arith, ends)
followed_leaves max n false events rest d (inr h) =
    ground (arith, d.one_end, count-++ is_end events rest)

module _ {W : Type 0} (decode : Text → Option JobEnvelope) (handlers : Text → Option (Handler W))
    (max : ℕ) (entry_id : ℕ) (fields : Fields) where
  -- The entry is delivered for the first time, and again for as long as it stays pending, each
  -- delivery one more by the count of Redis. At a delivery that is `lost` the worker dies before it
  -- sends a transaction. `between` is what else happens before the next delivery.
  unfoldable pub life :
      (lost : ℕ → Bool) (between : ℕ → W → W) (fuel deliveries : ℕ) → W → List Event
  life lost between zero n w = []
  life lost between (suc fuel) n w =
      let step = process decode handlers max entry_id fields n w in
      let rest = life lost between fuel (n + 1) (between n step.1) in followed (lost n) step.0 rest

  process-IsDelivered :
      (n : ℕ) (w : W) → IsDelivered max n (process decode handlers max entry_id fields n w).0
  unfolding process triage
  process-IsDelivered n w =
      let raw = field job_data_field fields in
      elim (Option-cases (decoded decode raw)) [
        | inl e ↦
            rw (e, triage, process)
              (record {
                one_call = omega arith;
                one_end = omega arith;
                too_many = λ over. (refl, refl);
              })
        | inr (envelope, e) ↦ elim (Bool-cases (ltb max n)) [
          | inl over ↦
              rw (e, over, triage, process)
                (record {
                  one_call = omega arith;
                  one_end = omega arith;
                  too_many = λ over. (refl, refl);
                })
          | inr left ↦ elim (Option-cases (handlers envelope.job_type)) [
            | inl none_there ↦
                rw (e, left, none_there, triage, process)
                  (record {
                    one_call = omega arith;
                    one_end = omega arith;
                    too_many = λ over. (refl, refl);
                  })
            | inr (handler, there) ↦
                let (no_call, at_most) = settle_end entry_id raw n (handler envelope w).0 in
                rw (e, left, there, triage, process)
                  (record {
                    one_call = omega (arith, no_call);
                    one_end = at_most;
                    too_many = λ over. absurd (ground (arith, left));
                  })
          ]
        ]
      ]

  life_calls :
      (lost : ℕ → Bool) (between : ℕ → W → W) (fuel n : ℕ) (w : W)
      → count is_call (life lost between fuel n w) ≤ (max + 1) - n
  unfolding life
  life_calls lost between zero n w = omega arith
  life_calls lost between (suc fuel) n w =
      let step = process decode handlers max entry_id fields n w in
      let rest = life lost between fuel (n + 1) (between n step.1) in
      let d = process-IsDelivered n w in
      let later = life_calls lost between fuel (n + 1) (between n step.1) in
      let sum = followed_calls (lost n) step.0 rest in
      elim (Bool-cases (ltb max n)) [
        | inl over ↦
            let (no_call, ends) = d.too_many (ground (arith, over)) in
            omega (arith, later, sum, no_call)
        | inr left ↦
            let within : n ≤ max = ground (arith, left) in
            omega (arith, later, sum, d.one_call, within)
      ]

  -- Some delivery beyond `max`, within the fuel, is not lost.
  life_leaves :
      (lost : ℕ → Bool) (between : ℕ → W → W) (fuel n k : ℕ) (w : W)
      → n ≤ k
      → k < n + fuel
      → max < k
      → lost k ≡ false
      → count is_end (life lost between fuel n w) ≡ 1
  unfolding life
  life_leaves lost between zero n k w from to over kept = absurd (omega arith)
  life_leaves lost between (suc fuel) n k w from to over kept =
      let step = process decode handlers max entry_id fields n w in
      followed_leaves max n (lost n) step.0 (life lost between fuel (n + 1) (between n step.1))
        (process-IsDelivered n w)
        (elim (Bool-cases (leb k n)) [
          | inl last ↦
              let same : k ≡ n = ground (arith, last) in
              inl (subst (λ (k : ℕ). (lost k ≡ false) × (max < k)) same (kept, over))
          | inr later ↦ inr (
              life_leaves lost between fuel (n + 1) k (between n step.1) (ground (arith, later))
                (omega (arith, to)) over kept)
        ])

-- However often an entry is delivered, whatever the handlers answer, and whichever deliveries are
-- lost with the worker before it sends a transaction: if some delivery beyond `max` is not lost, the
-- entry leaves the stream, completed or dead-lettered, exactly once, and a handler is called for it
-- at most `max` times.
pub life-IsBounded :
    {W : Type 0} (decode : Text → Option JobEnvelope) (handlers : Text → Option (Handler W))
    (max entry_id : ℕ) (fields : Fields) (lost : ℕ → Bool) (between : ℕ → W → W) (fuel k : ℕ)
    (w : W)
    → max < k
    → k ≤ fuel
    → lost k ≡ false
    → (count is_call (life decode handlers max entry_id fields lost between fuel 1 w) ≤ max)
      × (count is_end (life decode handlers max entry_id fields lost between fuel 1 w) ≡ 1)
life-IsBounded decode handlers max entry_id fields lost between fuel k w over within kept = (
  omega (arith, life_calls decode handlers max entry_id fields lost between fuel 1 w),
  life_leaves decode handlers max entry_id fields lost between fuel 1 k w (omega (arith, over))
      (omega (arith, within)) over kept,
)
