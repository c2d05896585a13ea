-- ===== src/Models/Status.antt =====
-- bridge/models.py: JobStatus and its two sets; storage/durable_storage.py: _ALLOWED_TRANSITIONS.
use suno_studio.Prelude.{ℕ, ◌≡◌, ◌↔◌, Bool, true, ◌||◌, List, [], ◌∷◌, arith, any, eqb}

pub data JobStatus : Type 0 where
  created queued_local submitting_remote polling_remote downloading : JobStatus
  awaiting_manual_provider_submission awaiting_manual_provider_result : JobStatus
  importing_provider_result complete failed cancelling cancelled : JobStatus

-- The place of the status in the enum, by which statuses are compared.
abbrev ordinal : JobStatus → ℕ
ordinal created = 0
ordinal queued_local = 1
ordinal submitting_remote = 2
ordinal polling_remote = 3
ordinal downloading = 4
ordinal awaiting_manual_provider_submission = 5
ordinal awaiting_manual_provider_result = 6
ordinal importing_provider_result = 7
ordinal complete = 8
ordinal failed = 9
ordinal cancelling = 10
ordinal cancelled = 11

abbrev pub same_status : JobStatus → JobStatus → Bool
same_status a b = eqb (ordinal a) (ordinal b)

-- `status in {…}`
abbrev pub is_in : JobStatus → List JobStatus → Bool
is_in a = any (same_status a)

abbrev pub terminal_states : List JobStatus
terminal_states = complete ∷ failed ∷ cancelled ∷ []

abbrev pub in_flight_states : List JobStatus
in_flight_states =
    created ∷ queued_local ∷ submitting_remote ∷ polling_remote ∷ downloading
    ∷ awaiting_manual_provider_submission ∷ awaiting_manual_provider_result
    ∷ importing_provider_result ∷ cancelling ∷ []

allowed_transitions : JobStatus → List JobStatus
allowed_transitions created =
    queued_local ∷ awaiting_manual_provider_submission ∷ cancelling ∷ cancelled ∷ failed ∷ []
allowed_transitions queued_local =
    submitting_remote ∷ awaiting_manual_provider_submission ∷ cancelling ∷ cancelled ∷ failed ∷ []
allowed_transitions submitting_remote = polling_remote ∷ cancelling ∷ cancelled ∷ failed ∷ []
allowed_transitions polling_remote = downloading ∷ cancelling ∷ cancelled ∷ failed ∷ []
allowed_transitions downloading = complete ∷ cancelling ∷ cancelled ∷ failed ∷ []
allowed_transitions awaiting_manual_provider_submission =
    awaiting_manual_provider_result ∷ cancelling ∷ cancelled ∷ failed ∷ []
allowed_transitions awaiting_manual_provider_result =
    importing_provider_result ∷ cancelling ∷ cancelled ∷ failed ∷ []
allowed_transitions importing_provider_result = complete ∷ failed ∷ cancelled ∷ []
allowed_transitions cancelling = cancelled ∷ failed ∷ []
allowed_transitions complete = []
allowed_transitions cancelled = []
allowed_transitions failed = []

-- The guard of `set_job_status`.
unfoldable pub may_become : JobStatus → JobStatus → Bool
unfolding allowed_transitions
may_become a b = is_in b (allowed_transitions a) || same_status a b

abbrev pub is_terminal : JobStatus → Bool
is_terminal a = is_in a terminal_states

pub same_status_iff : (a b : JobStatus) → (same_status a b ≡ true) ↔ (a ≡ b)
same_status_iff a b = ground arith
