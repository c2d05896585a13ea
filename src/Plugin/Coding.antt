-- ===== src/Plugin/Coding.antt =====
-- plugin/session_state.py: the dict that `save` writes is read back by `load`.
use suno_studio.Prelude.{
  ℕ, String, ◌≡◌, refl, Bool, true, Option, none, some, List, [], ◌∷◌, arith, eq_iff, sym, ap, All,
  ◌∙◌, inl, inr, Bool-cases, ◌==◌, if◌then◌else◌,
}
use suno_studio.Exec.{ok}
use suno_studio.Models.Values.{Fields, Json, obj, field, end}
use suno_studio.Text.{codes}
use suno_studio.Plugin.Entries.{
  SubmissionEntry, Submissions, find_entry, payload, submission_fields, entry_fields, sorted,
  sorted_fields, insert_field, text_le, loaded_entry, loaded_entries, loaded_submissions,
}

text_le_refl : (as_ : List ℕ) → text_le as_ as_ ≡ true
unfolding text_le
text_le_refl [] = refl
text_le_refl (a ∷ as_) = ground (arith, text_le_refl as_)

-- `insert_field`, on submissions.
insert_entry : String → SubmissionEntry → Submissions → Submissions
insert_entry k e [] = (k, e) ∷ []
insert_entry k e ((j, d) ∷ m) =
    let rest = insert_entry k e m in
    if text_le (codes k) (codes j) then (k, e) ∷ (j, d) ∷ m else (j, d) ∷ rest

pub sorted_entries : Submissions → Submissions
sorted_entries [] = []
sorted_entries ((k, e) ∷ m) = insert_entry k e (sorted_entries m)

find_entry-insert_entry :
    (i k : String) (e : SubmissionEntry) (m : Submissions)
    → find_entry i (insert_entry k e m) ≡ (if k == i then some e else find_entry i m)
unfolding find_entry insert_entry
find_entry-insert_entry i k e [] = refl
find_entry-insert_entry i k e ((j, d) ∷ m) = elim (Bool-cases (text_le (codes k) (codes j))) [
  | inl y ↦ rw y
  | inr n ↦
      rw (n, find_entry-insert_entry i k e m)
        (elim (Bool-cases (j == i)) [
          | inr other ↦ rw other
          | inl here ↦ elim (Bool-cases (k == i)) [
            | inr other ↦ rw (here, other)
            | inl same ↦
                absurd (cc ((eq_iff j i).0 here, (eq_iff k i).0 same, n, text_le_refl (codes k)))
          ]
        ])
]

pub find_entry-sorted_entries :
    (i : String) (m : Submissions) → find_entry i (sorted_entries m) ≡ find_entry i m
unfolding find_entry sorted_entries
find_entry-sorted_entries i [] = refl
find_entry-sorted_entries i ((k, e) ∷ m) =
    find_entry-insert_entry i k e (sorted_entries m) ∙ rw (find_entry-sorted_entries i m)

module _ (parse_uuid : String → Option String) where
  -- The key is the id of the submission, and the request id is read back as it is.
  abbrev pub IsSound : String × SubmissionEntry → Type 0
  IsSound (k, e) = (e.submission_id ≡ k) × (parse_uuid e.request_id ≡ some e.request_id)

  abbrev entry : String → String → Option String → Bool → SubmissionEntry
  entry k r j b = record { submission_id = k; request_id = r; job_id = j; resolved = b }

  loaded_entry-of :
      (k r : String) (j : Option String) (b : Bool)
      → parse_uuid r ≡ some r
      → loaded_entry parse_uuid k (sorted (obj (entry_fields (entry k r j b)))) ≡ ok (entry k r j b)
  unfolding loaded_entry sorted insert_field text_le
  loaded_entry-of k r none b h = rw h
  loaded_entry-of k r (some i) b h = rw h

  loaded_entry-entry_fields :
      (k : String) (e : SubmissionEntry)
      → IsSound (k, e)
      → loaded_entry parse_uuid k (sorted (obj (entry_fields e))) ≡ ok e
  loaded_entry-entry_fields k e h =
      loaded_entry-of k e.request_id e.job_id e.resolved h.1
      ∙ ap (λ i. ok (entry i e.request_id e.job_id e.resolved)) (sym h.0)

  -- The dict is read as these submissions, in this order.
  data Reads : Fields → Submissions → Type 0 where
    no_more : Reads end []
    one_more :
        {v : Json} {d : Fields} {e : SubmissionEntry} {m : Submissions} (k : String)
        → loaded_entry parse_uuid k v ≡ ok e
        → Reads d m
        → Reads (field k v d) ((k, e) ∷ m)

  Reads-loaded : {d : Fields} {m : Submissions} → Reads d m → loaded_entries parse_uuid d ≡ ok m
  unfolding loaded_entries
  Reads-loaded no_more = refl
  Reads-loaded (one_more k h more) = rw (h, Reads-loaded more)

  Reads-insert :
      (k : String) (v : Json) {e : SubmissionEntry} {d : Fields} {m : Submissions}
      → loaded_entry parse_uuid k v ≡ ok e
      → Reads d m
      → Reads (insert_field k v d) (insert_entry k e m)
  unfolding insert_field insert_entry
  Reads-insert k v h no_more = one_more k h no_more
  Reads-insert k v h (one_more j there more) = elim (Bool-cases (text_le (codes k) (codes j))) [
    | inl y ↦ rw y (one_more k h (one_more j there more))
    | inr n ↦ rw n (one_more j there (Reads-insert k v h more))
  ]

  Reads-sorted :
      (m : Submissions)
      → All IsSound m
      → Reads (sorted_fields (submission_fields m)) (sorted_entries m)
  unfolding sorted submission_fields sorted_entries
  Reads-sorted [] h = no_more
  Reads-sorted ((k, e) ∷ m) (h, rest) =
      Reads-insert k _ (loaded_entry-entry_fields k e h) (Reads-sorted m rest)

  pub loaded_submissions-payload :
      (m : Submissions)
      → All IsSound m
      → loaded_submissions parse_uuid (obj (sorted_fields (payload m))) ≡ ok (sorted_entries m)
  unfolding loaded_submissions sorted insert_field submission_fields
  loaded_submissions-payload m h = Reads-loaded (Reads-sorted m h)
