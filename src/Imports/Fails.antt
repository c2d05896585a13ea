-- ===== src/Imports/Fails.antt =====
-- bridge/services/import_service.py: an import that raises.
use suno_studio.Prelude.{
  ℕ, String, ◌≡◌, refl, subst, ◌∙◌, Bool, true, false, Option, none, some, List,
}
use suno_studio.Exec.{
  Exn, file_not_found, Result, ok, err, Exec, pure, proceed, require, or_raise, modify, ◌>>=◌,
}
use suno_studio.Models.Values.{Fields}
use suno_studio.Storage.{save_imported_asset}
use suno_studio.Orchestrator.Runtime.{World, on_db}
use suno_studio.Http.{lift}
use suno_studio.Imports.{
  read_file, write_file, copy_file, derive, import_audio, validate_manifest, import_file,
}
use suno_studio.Imports.Analysis.{ImportSettings, Source, LoudnessAnalysis}

-- The tables are as before.
record Keeps {P A : Type 0} (m : Exec (World P) A) : Type 0 where
  kept : (w : World P) → (m w).1.db ≡ w.db

-- The tables are as before if the call raised.
OnError : {P A : Type 0} → World P → Result A × World P → Type 0
OnError w (ok a, w') = Unit
OnError w (err e, w') = w'.db ≡ w.db

record Cleans {P A : Type 0} (m : Exec (World P) A) : Type 0 where
  clean : (w : World P) → OnError w (m w)

module _ {P : Type 0} where
  module _ {A B : Type 0} (f : A → Exec (World P) B) where
    proceed_kept :
        (w : World P) (r : Result A × World P)
        → r.1.db ≡ w.db
        → ((a : A) → Keeps (f a))
        → (proceed r f).1.db ≡ w.db
    proceed_kept w (ok a, w') h k = (k a).kept w' ∙ h
    proceed_kept w (err e, w') h k = h

    clean_after :
        (w w' : World P) (r : Result B × World P) → w'.db ≡ w.db → OnError w' r → OnError w r
    unfolding OnError
    clean_after w w' (ok b, v) h k = tt
    clean_after w w' (err e, v) h k = k ∙ h

    proceed_clean :
        (w : World P) (r : Result A × World P)
        → r.1.db ≡ w.db
        → ((a : A) → Cleans (f a))
        → OnError w (proceed r f)
    unfolding OnError
    proceed_clean w (ok a, w') h k = clean_after w w' (f a w') h ((k a).clean w')
    proceed_clean w (err e, w') h k = h

  module _ {A B : Type 0} {m : Exec (World P) A} {f : A → Exec (World P) B} where
    >>=-Keeps : Keeps m → ((a : A) → Keeps (f a)) → Keeps (m >>= f)
    unfolding ◌>>=◌
    >>=-Keeps h k = record { kept = λ w. proceed_kept f w (m w) (h.kept w) k }

    >>=-Cleans : Keeps m → ((a : A) → Cleans (f a)) → Cleans (m >>= f)
    unfolding ◌>>=◌
    >>=-Cleans h k = record { clean = λ w. proceed_clean f w (m w) (h.kept w) k }

  pure-Keeps : {A : Type 0} (a : A) → Keeps {P = P} (pure a)
  unfolding pure
  pure-Keeps a = record { kept = λ w. refl }

  lift-Keeps : {A : Type 0} (r : Result A) → Keeps {P = P} (lift r)
  lift-Keeps r = record { kept = λ w. refl }

  require-Keeps : (b : Bool) (e : Exn) → Keeps {P = P} (require b e)
  unfolding require
  require-Keeps true e = record { kept = λ w. refl }
  require-Keeps false e = record { kept = λ w. refl }

  or_raise_kept : {A : Type 0} (e : Exn) (o : Option A) (w : World P) → (or_raise e o w).1.db ≡ w.db
  unfolding or_raise pure
  or_raise_kept e none w = refl
  or_raise_kept e (some a) w = refl

  module _ {F : Type 0} (settings : ImportSettings F) where
    write_file-Keeps :
        (path : String) (content : List ℕ) → Keeps {P = P} (write_file settings path content)
    unfolding write_file modify
    write_file-Keeps path content = record { kept = λ w. refl }

    read_file-Keeps :
        (path : String)
        → Keeps (λ (w : World P). or_raise file_not_found (read_file settings path w.files) w)
    read_file-Keeps path = record { kept = λ w. or_raise_kept _ _ w }

    copy_file-Keeps : (source target : String) → Keeps {P = P} (copy_file settings source target)
    copy_file-Keeps source target =
        >>=-Keeps (read_file-Keeps source)
          λ content. >>=-Keeps (write_file-Keeps target content) λ u. pure-Keeps content

    derive-Keeps :
        (i : String) (source : Source) (analysis : LoudnessAnalysis F) (normalize : Bool)
        → Keeps {P = P} (derive settings i source analysis normalize)
    derive-Keeps i source analysis false = pure-Keeps _
    derive-Keeps i source analysis true = >>=-Keeps (copy_file-Keeps _ _) λ content. pure-Keeps _

    import_audio-Keeps :
        (i : String) (source : Source) (normalize : Bool)
        → Keeps {P = P} (import_audio settings i source normalize)
    unfolding import_audio
    import_audio-Keeps i source normalize = >>=-Keeps (write_file-Keeps _ _) λ u.
        >>=-Keeps (lift-Keeps _)
          λ found. >>=-Keeps (derive-Keeps i source found.1 normalize) λ derived. pure-Keeps _

    validate_manifest-Keeps : (m : Fields) → Keeps {P = P} (validate_manifest settings m)
    unfolding validate_manifest
    validate_manifest-Keeps m = >>=-Keeps (require-Keeps _ _) λ u.
        >>=-Keeps (lift-Keeps _) λ checksum.
          >>=-Keeps (lift-Keeps _) λ value. >>=-Keeps (lift-Keeps _) λ size. require-Keeps _ _

    save-Cleans :
        (i : String) (m : Fields) → Cleans {P = P} (on_db (save_imported_asset i m) >>= λ u. pure m)
    unfolding OnError ◌>>=◌ on_db save_imported_asset modify pure
    save-Cleans i m = record { clean = λ w. tt }

    import_file-Cleans :
        (i : String) (source : Source) (normalize : Bool)
        → Cleans {P = P} (import_file settings i source normalize)
    unfolding import_file
    import_file-Cleans i source normalize = >>=-Cleans (import_audio-Keeps i source normalize) λ a.
        >>=-Cleans (validate_manifest-Keeps _)
          λ u. >>=-Cleans (write_file-Keeps _ _) λ v. save-Cleans i _

    -- An import that raises leaves the tables as they were: no row for an asset, whatever stopped it.
    pub import_file-fails :
        (i : String) (source : Source) (normalize : Bool) (w w' : World P) (e : Exn)
        → import_file settings i source normalize w ≡ (err e, w')
        → w'.db ≡ w.db
    unfolding OnError
    import_file-fails i source normalize w w' e h =
        subst (OnError w) h ((import_file-Cleans i source normalize).clean w)
