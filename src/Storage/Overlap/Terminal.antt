-- ===== src/Storage/Overlap/Terminal.antt =====
-- A job with a terminal status, and calls that overlap.
use suno_studio.Prelude.{
  ℕ, zero, suc, String, ◌≡◌, refl, true, some, List, [], ◌∷◌, ◌++◌, ◌==◌, inl, inr, Bool-cases,
  eq_iff, sym, some_inj, ◌∙◌,
}
use suno_studio.Exec.{Result, ok, err}
use suno_studio.Models.{Job}
use suno_studio.Models.Status.{JobStatus, is_terminal}
use suno_studio.Storage.Tables.{Db, find_job}
use suno_studio.Storage.Ops.{run_op, run_ops}
use suno_studio.Storage.Lifecycle.{run_ops-terminal, terminal_final}
use suno_studio.Storage.Overlap.{
  Call, status_call, runtime_call, Pending, Threads, Turn, whole, reads, writes, read_call, begun,
  write_at, without, run_turn, run_turns,
}
use suno_studio.Storage.Overlap.Writes.{check_status-read, row_written, find_job-write_call}

-- A call that leaves a job of status `st` in that status.
abbrev Leaves : JobStatus → Call → Type 0
Leaves st (status_call to ch) = to ≡ st
Leaves st (runtime_call r) = Unit

module _ (i : String) (st : JobStatus) where
  -- The unfinished calls for the job that would set a status would set `st`.
  abbrev pub AllLeave : List Pending → Type 0
  AllLeave [] = Unit
  AllLeave (p ∷ ps) = (p.id ≡ i → Leaves st p.call) × AllLeave ps

  AllLeave-append : (ps qs : List Pending) → AllLeave ps → AllLeave qs → AllLeave (ps ++ qs)
  AllLeave-append [] qs h k = k
  AllLeave-append (p ∷ ps) qs h k = (h.0, AllLeave-append ps qs h.1 k)

  AllLeave-without : (n : ℕ) (ps : List Pending) → AllLeave ps → AllLeave (without n ps)
  unfolding without
  AllLeave-without n [] h = tt
  AllLeave-without zero (p ∷ ps) h = h.1
  AllLeave-without (suc n) (p ∷ ps) h = (h.0, AllLeave-without n ps h.1)

  abbrev HasStatus : Db → Type 0
  HasStatus s = (b : Job) × (find_job i s.jobs ≡ some b) × (b.status ≡ st)

  write_at-HasStatus :
      (n : ℕ) (ps : List Pending) (s : Db) → AllLeave ps → HasStatus s → HasStatus (write_at n ps s)
  unfolding write_at
  write_at-HasStatus n [] s h k = k
  write_at-HasStatus zero (p ∷ ps) s h (b, there, now) = (
    _,
    find_job-write_call i p s there,
    elim (Bool-cases (p.id == i)) [
      | inl y ↦ rw y (left p.call (h.0 ((eq_iff p.id i).0 y)))
      | inr n ↦ rw n now
    ],
  )
    where
      left : (call : Call) → Leaves st call → (row_written call p.current s.now b).status ≡ st
      left (status_call to ch) e = e
      left (runtime_call r) e = now
  write_at-HasStatus (suc n) (p ∷ ps) s h k = write_at-HasStatus n ps s h.1 k

  begun-AllLeave :
      (k : String) (call : Call) (r : Result Job)
      → ((c : Job) → r ≡ ok c → k ≡ i → Leaves st call)
      → AllLeave (begun k call r)
  unfolding begun
  begun-AllLeave k call (ok c) h = (h c refl, tt)
  begun-AllLeave k call (err e) h = tt

  read_call-Leaves :
      (k : String) (call : Call) (s : Db)
      → is_terminal st ≡ true
      → HasStatus s
      → (c : Job) → read_call k call s ≡ ok c
      → k ≡ i
      → Leaves st call
  unfolding read_call
  read_call-Leaves k (runtime_call r) s t h c e same_id = tt
  read_call-Leaves k (status_call to ch) s t (b, there, now) c e same_id =
      let (read, way) = check_status-read k to ch c s e in
      let b_is_c : b ≡ c = some_inj (sym there ∙ rw (sym same_id) read) in
      terminal_final st c.status to t (rw (sym b_is_c) now) way

  module _ (fin : is_terminal st ≡ true) where
    run_turn-keeps :
        (x : Turn) (t : Threads)
        → HasStatus t.db
        → AllLeave t.pending
        → HasStatus (run_turn x t).db × AllLeave (run_turn x t).pending
    unfolding run_turn run_op run_ops
    run_turn-keeps (whole o) t (b, there, now) w =
        let (d, found, same) = run_ops-terminal i (o ∷ []) t.db there (rw now fin) in
        ((d, found, same ∙ now), w)
    run_turn-keeps (reads k call) t h w = (
      h,
      AllLeave-append t.pending _ w (begun-AllLeave k call _ (read_call-Leaves k call t.db fin h)),
    )
    run_turn-keeps (writes n) t h w =
        (write_at-HasStatus n t.pending t.db w h, AllLeave-without n t.pending w)

    run_turns-keeps :
        (xs : List Turn) (t : Threads)
        → HasStatus t.db
        → AllLeave t.pending
        → HasStatus (run_turns xs t).db
    unfolding run_turns
    run_turns-keeps [] t h w = h
    run_turns-keeps (x ∷ xs) t h w = let (k, v) = run_turn-keeps x t h w in run_turns-keeps xs _ k v

-- However the calls of the threads overlap from now on, a job that is complete, failed or cancelled
-- keeps that status, if no call of `set_job_status` for it that has read its row already, and has not
-- written yet, is for another status.
pub run_turns-terminal :
    (i : String) (xs : List Turn) (t : Threads) {a : Job}
    → find_job i t.db.jobs ≡ some a
    → is_terminal a.status ≡ true
    → AllLeave i a.status t.pending
    → (b : Job) × (find_job i (run_turns xs t).db.jobs ≡ some b) × (b.status ≡ a.status)
run_turns-terminal i xs t {a} there fin settled =
    run_turns-keeps i a.status fin xs t (a, there, refl) settled
