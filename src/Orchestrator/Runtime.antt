-- ===== src/Orchestrator/Runtime.antt =====
-- The state that the orchestrator works on, its queue and cancellation registry, and the downloader.
use Prim.Native.String.{slice}
use Prim.Native.String
use suno_studio.Prelude.{
  ℕ, ◌+◌, String, Bool, Option, none, some, List, [], ◌∷◌, ◌++◌, any, ◌==◌, if◌then◌else◌,
}
use suno_studio.Exec.{value_error, Result, ok, Exec, pure, gets, or_raise, modify, ◌>>=◌, ◌>>◌}
use suno_studio.Models.{Job, ProviderMode}
use suno_studio.Storage.Tables.{Db}
use suno_studio.Storage.{record_downloaded_asset}
use suno_studio.Adapters.{ProviderAdapter}

-- `cancelled` is the set of the registry, `files` what has been written below the folders of
-- downloads and imports, the last file first.
pub record World (P : Type 0) : Type 0 where
  pub db : Db
  pub queue : List String
  pub cancelled : List String
  pub files : List (String × List ℕ)
  pub provider_state : P

-- What the orchestrator is built with. Times are in milliseconds; `sha256` gives the hex digest.
pub record Settings (P : Type 0) : Type 0 where
  pub providers : ProviderMode → Option (ProviderAdapter P)
  pub max_attempts : ℕ
  pub poll_interval : ℕ
  pub retry_backoff : ℕ
  pub download_root : String
  pub sha256 : List ℕ → String

-- Whether the poll loop came to a `return`, or to the end of its fuel.
pub data Finish : Type 0 where
  done out_of_fuel : Finish

module _ {P A : Type 0} where
  abbrev with_db : World P → Result A × Db → Result A × World P
  with_db w (r, s) = (r, record w { db = s })

  -- A call of `self.storage`.
  unfoldable pub on_db : Exec Db A → Exec (World P) A
  on_db m w = with_db w (m w.db)

  abbrev with_provider : World P → Result A × P → Result A × World P
  with_provider w (r, p) = (r, record w { provider_state = p })

  -- A call of a provider.
  unfoldable pub on_provider : Exec P A → Exec (World P) A
  on_provider m w = with_provider w (m w.provider_state)

abbrev pub holds : List String → String → Bool
holds is i = any (λ k. k == i) is

unfoldable pub without : String → List String → List String
without i [] = []
without i (k ∷ ks) = let rest = without i ks in if k == i then rest else k ∷ rest

module _ {P : Type 0} where
  -- JobQueue.enqueue, which adds at the end
  unfoldable pub enqueue : String → Exec (World P) (Unit {0})
  unfolding modify gets or_raise
  enqueue i = modify λ w. record w { queue = w.queue ++ i ∷ [] }

  abbrev pub take_first : World P → List String → Result (Option String) × World P
  take_first w [] = (ok none, w)
  take_first w (i ∷ is) = (ok (some i), record w { queue = is })

  -- JobQueue.dequeue; `none` is a timeout.
  unfoldable pub dequeue : Exec (World P) (Option String)
  dequeue w = take_first w w.queue

  -- CancellationRegistry
  unfoldable pub request_cancel : String → Exec (World P) (Unit {0})
  unfolding modify gets or_raise
  request_cancel i =
      modify
        λ w. record w { cancelled = if holds w.cancelled i then w.cancelled else i ∷ w.cancelled }

  unfoldable pub clear_cancel : String → Exec (World P) (Unit {0})
  unfolding without modify
  clear_cancel i = modify λ w. record w { cancelled = without i w.cancelled }

  unfoldable pub is_cancelled : String → Exec (World P) Bool
  unfolding modify gets or_raise
  is_cancelled i = gets λ w. holds w.cancelled i

  -- time.sleep
  unfoldable pub sleep : ℕ → Exec (World P) (Unit {0})
  unfolding modify gets or_raise
  sleep n = modify λ w. record w { db = record (w.db) { now = w.db.now + n } }

  unfoldable pub provider_for : Settings P → Job → Exec (World P) (ProviderAdapter P)
  unfolding modify gets or_raise
  provider_for settings job = or_raise value_error (settings.providers job.provider_mode)

  -- The path of a download.
  unfoldable pub download_path : Settings P → String → String → List ℕ → String → String
  download_path settings i variant content ext = String.◌++◌ settings.download_root (
      String.◌++◌ "/" (
        String.◌++◌ i (
          String.◌++◌ "_" (
            String.◌++◌ variant (
              String.◌++◌ "_"
                (String.◌++◌ (slice (settings.sha256 content) 0 16) (String.◌++◌ "." ext)))))))

  -- `if inserted: out.write_bytes(content)`
  unfoldable pub keep_file : String → List ℕ → Bool → Exec (World P) (Unit {0})
  unfolding modify
  keep_file out content inserted =
      modify λ w. record w { files = if inserted then (out, content) ∷ w.files else w.files }

  -- AssetDownloader.store_download
  unfoldable pub store_download :
      Settings P → String → String → List ℕ → String → Exec (World P) (String × Bool)
  store_download settings i variant content ext = do
    let out = download_path settings i variant content ext
    inserted ← on_db (record_downloaded_asset i variant (settings.sha256 content) out)
    keep_file out content inserted
    pure (out, inserted)
