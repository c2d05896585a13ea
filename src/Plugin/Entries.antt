-- ===== src/Plugin/Entries.antt =====
-- plugin/session_state.py: SubmissionEntry, the dict of submissions, and how the file holds it.
use suno_studio.Prelude.{
  ℕ, String, Bool, true, false, Option, none, some, List, [], ◌∷◌, ◌==◌, ltb, eqb, if◌then◌else◌,
}
use suno_studio.Exec.{key_error, value_error, type_error, attribute_error, Result, ok, err}
use suno_studio.Models.Values.{
  Json, null, bool, str, arr, obj, Items, nil, cons, Fields, end, field, get,
}
use suno_studio.Text.{codes}

pub record SubmissionEntry : Type 0 where
  pub submission_id : String
  pub request_id : String
  pub job_id : Option String
  pub resolved : Bool

abbrev pub Submissions : Type 0
Submissions = List (String × SubmissionEntry)

unfoldable pub find_entry : String → Submissions → Option SubmissionEntry
find_entry k [] = none
find_entry k ((j, e) ∷ m) = if j == k then some e else find_entry k m

-- self.submissions[k] = e
unfoldable pub put_entry : String → SubmissionEntry → Submissions → Submissions
put_entry k e [] = (k, e) ∷ []
put_entry k e ((j, d) ∷ m) = if j == k then (j, e) ∷ m else (j, d) ∷ put_entry k e m

abbrev str_or_null : Option String → Json
str_or_null none = null
str_or_null (some s) = str s

abbrev pub entry_fields : SubmissionEntry → Fields
entry_fields e =
    field "request_id" (str e.request_id)
      (field "job_id" (str_or_null e.job_id) (field "resolved" (bool e.resolved) end))

unfoldable pub submission_fields : Submissions → Fields
submission_fields [] = end
submission_fields ((k, e) ∷ m) = field k (obj (entry_fields e)) (submission_fields m)

-- The dict that `save` writes.
abbrev pub payload : Submissions → Fields
payload m = field "submissions" (obj (submission_fields m)) end

-- s <= t, where both are the code points of a text
unfoldable pub text_le : List ℕ → List ℕ → Bool
text_le [] bs = true
text_le (a ∷ as_) [] = false
text_le (a ∷ as_) (b ∷ bs) =
    let rest = text_le as_ bs in if ltb a b then true else if eqb a b then rest else false

unfoldable pub insert_field : String → Json → Fields → Fields
unfolding text_le
insert_field k v end = field k v end
insert_field k v (field j w d) =
    let rest = insert_field k v d in
    if text_le (codes k) (codes j) then field k v (field j w d) else field j w rest

-- What `json.dumps(…, sort_keys=True)` makes of a value: the keys of each dict in order.
unfoldable mutual
  pub sorted : Json → Json
  sorted (arr vs) = arr (sorted_items vs)
  sorted (obj d) = obj (sorted_fields d)
  sorted v = v

  sorted_items : Items → Items
  sorted_items nil = nil
  sorted_items (cons v vs) = cons (sorted v) (sorted_items vs)

  pub sorted_fields : Fields → Fields
  sorted_fields end = end
  sorted_fields (field k v d) = insert_field k (sorted v) (sorted_fields d)

-- `parse_uuid` is `UUID(s)` of a text, as a text again.
module _ (parse_uuid : String → Option String) where
  abbrev uuid_or : Option String → Result String
  uuid_or none = err value_error
  uuid_or (some r) = ok r

  -- UUID(entry["request_id"])
  abbrev request_id_of : Option Json → Result String
  request_id_of none = err key_error
  request_id_of (some (str s)) = uuid_or (parse_uuid s)
  request_id_of (some null) = err type_error
  request_id_of (some v) = err attribute_error

  -- Other values, which Python takes as they are, are not modelled.
  abbrev job_id_of : Option Json → Result (Option String)
  job_id_of none = ok none
  job_id_of (some null) = ok none
  job_id_of (some (str s)) = ok (some s)
  job_id_of (some v) = err type_error

  abbrev resolved_of : Option Json → Result Bool
  resolved_of none = ok false
  resolved_of (some (bool b)) = ok b
  resolved_of (some v) = err type_error

  abbrev entry_of :
      String → Result String → Result (Option String) → Result Bool → Result SubmissionEntry
  entry_of sid (err e) j b = err e
  entry_of sid (ok r) (err e) b = err e
  entry_of sid (ok r) (ok j) (err e) = err e
  entry_of sid (ok r) (ok j) (ok b) =
      ok (record { submission_id = sid; request_id = r; job_id = j; resolved = b })

  unfoldable pub loaded_entry : String → Json → Result SubmissionEntry
  loaded_entry sid (obj d) =
      entry_of sid (request_id_of (get d "request_id")) (job_id_of (get d "job_id"))
        (resolved_of (get d "resolved"))
  loaded_entry sid v = err type_error

  abbrev pub with_entry : String → Result SubmissionEntry → Result Submissions → Result Submissions
  with_entry sid (err e) rest = err e
  with_entry sid (ok e) (err x) = err x
  with_entry sid (ok e) (ok m) = ok ((sid, e) ∷ m)

  -- The dict comprehension of `load`.
  unfoldable pub loaded_entries : Fields → Result Submissions
  unfolding loaded_entry
  loaded_entries end = ok []
  loaded_entries (field sid v d) = with_entry sid (loaded_entry sid v) (loaded_entries d)

  abbrev entries_in : Option Json → Result Submissions
  entries_in none = ok []
  entries_in (some (obj d)) = loaded_entries d
  entries_in (some v) = err attribute_error

  -- raw.get("submissions", {}).items(), and what is made of them
  unfoldable pub loaded_submissions : Json → Result Submissions
  unfolding loaded_entries
  loaded_submissions (obj raw) = entries_in (get raw "submissions")
  loaded_submissions raw = err attribute_error
