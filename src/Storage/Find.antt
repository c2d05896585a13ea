-- ===== src/Storage/Find.antt =====
-- How the statements on the table `jobs` change what a SELECT by id or by request finds.
use suno_studio.Prelude.{
  String, ◌≡◌, refl, Option, none, some, List, [], ◌∷◌, ◌++◌, arith, eq_iff, ◌==◌, if◌then◌else◌,
}
use suno_studio.Models.{Job}
use suno_studio.Storage.Tables.{find_job, update_where}

abbrev pub map_found : (Job → Job) → Option Job → Option Job
map_found f none = none
map_found f (some j) = some (f j)

abbrev pub or_else : Option Job → Option Job → Option Job
or_else none o = o
or_else (some j) o = some j

abbrev pub KeepsId : (Job → Job) → Type 0
KeepsId f = (j : Job) → (f j).id ≡ j.id

pub find_job-update_where :
    (i k : String) (f : Job → Job) (js : List Job)
    → KeepsId f
    → find_job i (update_where k f js)
      ≡ (if k == i then map_found f (find_job i js) else find_job i js)
unfolding find_job update_where
find_job-update_where i k f [] h = ground arith
find_job-update_where i k f (j ∷ js) h = ground (
  arith,
  find_job-update_where i k f js h,
  h j,
  eq_iff j.id k,
  eq_iff j.id i,
  eq_iff (f j).id i,
  eq_iff k i,
)

pub find_job-append :
    (i : String) (js ks : List Job)
    → find_job i (js ++ ks) ≡ or_else (find_job i js) (find_job i ks)
unfolding find_job
find_job-append i [] ks = refl
find_job-append i (j ∷ js) ks = ground (arith, find_job-append i js ks)

pub find_job-id : (i : String) (js : List Job) {j : Job} → find_job i js ≡ some j → j.id ≡ i
unfolding find_job
find_job-id i [] h = ground arith
find_job-id i (k ∷ js) {j} h = ground (arith, find_job-id i js {j = j}, eq_iff k.id i)
