-- ===== src/Worker/Consumer.antt =====
-- src/services/worker/worker/consumer.py: what the consumer of one job stream does with what the
-- Redis client answers. The answers are arguments and the transactions that it sends are `Event`s;
-- so is a call of a handler, which is a function on a state of its own. A text is a number, as only
-- equality is used, and an entry id is too. `decode` is `JobEnvelope.decode`, `none` for a
-- ValidationError. Logging is not modelled.
pub mod Attempts
pub mod Counts
pub mod Loop
use claude_at_work_project.Prelude.{
  ℕ, suc, ◌+◌, Bool, true, false, not, Option, none, some, List, [], ◌∷◌, ◌++◌, ltb, leb, ◌==◌,
  find, map_option, if◌then◌else◌, length, select,
}

abbrev pub Text : Type 0
Text = ℕ

-- The fields of an entry, `fields.get(name)`, and JOB_DATA_FIELD.
abbrev pub Fields : Type 0
Fields = List (Text × Text)

abbrev pub job_data_field : Text
job_data_field = 0

unfoldable pub field : Text → Fields → Option Text
field name fields = map_option (λ f. f.1) (find (λ f. f.0 == name) fields)

-- The fields of `JobEnvelope` that the consumer reads, and the payload.
pub record JobEnvelope : Type 0 where
  pub job_id : ℕ
  pub job_type : Text
  pub payload : Text

pub data Reason : Type 0 where
  malformed_envelope max_attempts unknown_type : Reason
  permanent : Text → Reason

-- How a handler ends: it returns, it raises PermanentJobError, or it raises anything else.
pub data Outcome : Type 0 where
  succeeded : Outcome
  failed : Outcome
  permanently : Text → Outcome

-- What the consumer does, in order: it calls a handler, or sends one of its two transactions.
pub data Event : Type 0 where
  called : JobEnvelope → Event
  dead_lettered : (entry_id : ℕ) (raw : Text) (reason : Reason) (deliveries : ℕ) → Event
  completed : (entry_id : ℕ) → Event

abbrev pub Handler : Type 0 → Type 0
Handler W = JobEnvelope → W → Outcome × W

pub data Decision (W : Type 0) : Type 0 where
  run : JobEnvelope → Handler W → Decision W
  dead_letter : Reason → Decision W

-- `raw or ""`
abbrev pub raw_or_empty : Option Text → Text
raw_or_empty none = 0
raw_or_empty (some raw) = raw

-- `if fields`
abbrev pub has_fields : Fields → Bool
has_fields [] = false
has_fields (f ∷ fs) = true

-- A row of XPENDING.
pub record Pending : Type 0 where
  pub message_id : ℕ
  pub times_delivered : ℕ

abbrev pub decoded : (Text → Option JobEnvelope) → Option Text → Option JobEnvelope
decoded decode none = none
decoded decode (some raw) = decode raw

-- What follows the handler.
abbrev pub settle : (entry_id : ℕ) → Option Text → (deliveries : ℕ) → Outcome → List Event
settle entry_id raw deliveries succeeded = completed entry_id ∷ []
settle entry_id raw deliveries failed = []
settle entry_id raw deliveries (permanently why) =
    dead_lettered entry_id (raw_or_empty raw) (permanent why) deliveries ∷ []

-- The least and the greatest of the claimed ids, for XPENDING, and how many rows it is asked for.
abbrev pub first_id : List (ℕ × Fields) → ℕ
first_id [] = 0
first_id (e ∷ es) = e.0

abbrev pub last_id : List (ℕ × Fields) → ℕ
last_id [] = 0
last_id (e ∷ []) = e.0
last_id (e ∷ (e' ∷ es)) = last_id (e' ∷ es)

-- `_delivery_counts`, and `counts.get(entry_id, max_attempts + 1)`. `xpending min max count` is
-- the answer of XPENDING.
unfoldable pub delivery_counts : (ℕ → ℕ → ℕ → List Pending) → List (ℕ × Fields) → List Pending
delivery_counts xpending entries = xpending (first_id entries) (last_id entries) (length entries)

module _ {W : Type 0} (decode : Text → Option JobEnvelope) (handlers : Text → Option (Handler W))
    (max : ℕ) where
  unfoldable pub triage : Fields → (deliveries : ℕ) → Decision W
  triage fields deliveries = elim (decoded decode (field job_data_field fields)) [
    | none ↦ dead_letter malformed_envelope
    | some envelope ↦
        if ltb max deliveries then dead_letter max_attempts else elim (handlers envelope.job_type) [
          | none ↦ dead_letter unknown_type
          | some handler ↦ run envelope handler
        ]
  ]

  -- `_process`
  unfoldable pub process : (entry_id : ℕ) → Fields → (deliveries : ℕ) → W → List Event × W
  unfolding triage
  process entry_id fields deliveries w =
      let raw = field job_data_field fields in
      elim (triage fields deliveries) [
        | dead_letter reason ↦ (dead_lettered entry_id (raw_or_empty raw) reason deliveries ∷ [], w)
        | run envelope handler ↦
            let done = handler envelope w in
            (called envelope ∷ settle entry_id raw deliveries done.0, done.1)
      ]

  -- The loop of `_read_new` over the entries of a batch, `stop` aside.
  unfoldable pub read_new : List (ℕ × Fields) → W → List Event × W
  unfolding process
  read_new [] w = ([], w)
  read_new ((entry_id, fields) ∷ entries) w =
      let first = process entry_id fields 1 w in
      let rest = read_new entries first.1 in (first.0 ++ rest.0, rest.1)

  abbrev pub deliveries_or : Option Pending → ℕ
  deliveries_or none = max + 1
  deliveries_or (some p) = p.times_delivered

  unfoldable pub deliveries_in : List Pending → (entry_id : ℕ) → ℕ
  deliveries_in counts entry_id = deliveries_or (find (λ p. p.message_id == entry_id) counts)

  unfoldable pub process_claimed : List Pending → List (ℕ × Fields) → W → List Event × W
  unfolding process deliveries_in
  process_claimed counts [] w = ([], w)
  process_claimed counts ((entry_id, fields) ∷ entries) w =
      let first = process entry_id fields (deliveries_in counts entry_id) w in
      let rest = process_claimed counts entries first.1 in (first.0 ++ rest.0, rest.1)

  -- One round of `_reclaim`, on what XAUTOCLAIM claimed.
  unfoldable pub reclaim : (ℕ → ℕ → ℕ → List Pending) → List (ℕ × Fields) → W → List Event × W
  unfolding delivery_counts process_claimed
  reclaim xpending claimed w =
      let entries = select (λ e. has_fields e.1) claimed in
      process_claimed (delivery_counts xpending entries) entries w
