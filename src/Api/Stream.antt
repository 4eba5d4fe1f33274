-- ===== src/Api/Stream.antt =====
-- The event stream of a scan job, `stream_scan_job_status` of api/routers/assessment.py. What the
-- polls find is a parameter: `poll n` is the answer of get_scan_job at the n-th poll, `none` where it
-- raises KeyError, and `json` is json.dumps of the job's dump.
pub mod Delivery
use security_review_ai.Prelude.{
  ℕ, zero, suc, ◌+◌, String, str_eq, Bool, true, false, Option, none, some, List, [], ◌∷◌, ◌++◌,
  if◌then◌else◌,
}
use security_review_ai.Domain.Assessment.{ScanJob, ScanStatus}

-- an event of type error, or one with a payload
pub data Event : Type 0 where
  not_found : Event
  update : String → Event

-- scan_job.status in (COMPLETED, FAILED)
abbrev pub has_ended : ScanStatus → Bool
has_ended ScanStatus.completed = true
has_ended ScanStatus.failed = true
has_ended _ = false

abbrev pub is_last : Option String → String → Bool
is_last none payload = false
is_last (some last) payload = str_eq payload last

abbrev pub event_if_new : Option String → String → List Event
event_if_new last payload = if is_last last payload then [] else update payload ∷ []

-- max_polls
abbrev pub max_polls : ℕ
max_polls = 600

module _ (poll : ℕ → Option ScanJob) (json : ScanJob → String) where
  -- the events from the n-th poll on, with a number of polls left
  unfoldable pub events_from : ℕ → ℕ → Option String → List Event
  events_from zero n last = []
  events_from (suc left) n last = elim (poll n) [
    | none ↦ not_found ∷ []
    | some job ↦ event_if_new last (json job) ++ elim (has_ended job.status) [
      | true ↦ []
      | false ↦ events_from left (suc n) (some (json job))
    ]
  ]

  unfoldable pub event_generator : List Event
  event_generator = events_from max_polls 0 none
