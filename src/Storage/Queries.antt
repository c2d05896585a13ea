-- ===== src/Storage/Queries.antt =====
-- The methods that read: in-flight jobs, jobs by id, and imported assets.
use suno_studio.Prelude.{
  String, ◌≡◌, fun_ext, not, some, List, [], ◌∷◌, arith, eq_iff, select, ◌==◌, if◌then◌else◌,
}
use suno_studio.Exec.{ok}
use suno_studio.Models.{Job}
use suno_studio.Models.Values.{Fields}
use suno_studio.Models.Status.{JobStatus, is_in, in_flight_states, is_terminal}
use suno_studio.Storage.Tables.{Db, ImportedAsset, find_imported, upsert_imported}
use suno_studio.Storage.{manifest_of, list_in_flight_jobs, get_imported_asset, save_imported_asset}

in_flight_iff : (a : JobStatus) → is_in a in_flight_states ≡ not (is_terminal a)
in_flight_iff a = ground arith

select-in_flight :
    (js : List Job)
    → select (λ j. is_in j.status in_flight_states) js ≡ select (λ j. not (is_terminal j.status)) js
select-in_flight js = rw (fun_ext (λ (j : Job). in_flight_iff j.status))

-- The in-flight jobs are the rows whose status is not terminal, in the order of the table, and
-- reading them changes nothing.
pub list_in_flight_jobs_lem :
    (s : Db) → list_in_flight_jobs s ≡ (ok (select (λ j. not (is_terminal j.status)) s.jobs), s)
unfolding list_in_flight_jobs
list_in_flight_jobs_lem s = rw (select-in_flight s.jobs)

find_imported-upsert :
    (a : ImportedAsset) (j : String) (bs : List ImportedAsset)
    → manifest_of (find_imported j (upsert_imported a bs))
      ≡ (if a.id == j then some a.manifest else manifest_of (find_imported j bs))
unfolding find_imported upsert_imported
find_imported-upsert a j [] = ground arith
find_imported-upsert a j (b ∷ bs) =
    ground (arith, find_imported-upsert a j bs, eq_iff a.id j, eq_iff b.id j, eq_iff b.id a.id)

-- After an asset has been saved, its manifest is the one that was saved, also where the id was
-- taken, and the manifest of every other asset is as before.
pub get_imported_asset-save :
    (i j : String) (m : Fields) (s : Db)
    → (get_imported_asset j (save_imported_asset i m s).1).0
      ≡ (if i == j then ok (some m) else (get_imported_asset j s).0)
unfolding get_imported_asset save_imported_asset
get_imported_asset-save i j m s = rw (find_imported-upsert _ j s.imported_assets) (ground arith)
