-- ===== src/Authorization/Install.antt =====
-- `install_authorization_candidate` of bridgewire/authorization.py. A file is its text, and the
-- operations of the file system and the failure injector are parameters; where there is no injector,
-- it returns for every stage. `on_failure` is a list of the stages that it was told.
pub mod Atomic
use frontdoor.Prelude.{
  String, Bool, true, false, Option, none, some, List, [], ◌∷◌, ◌++◌, Exception, value_error,
  Result, ok, err, Exec, pure, raise, modify, try_else, ◌>>=◌, ◌>>◌,
}
use frontdoor.Reader.Record.{Text}
use frontdoor.Reader.Supervisor.State.{is_os_error}
use frontdoor.Authorization.{Parsing, load_stream}

-- `copy` gives what has reached the temporary file when it returns or raises.
pub record Installing (W : Type 0) : Type 0 where
  pub inject : String → W → Result (Unit {0}) × W
  pub read_candidate : W → Result Text × W
  pub make_directory : W → Result (Unit {0}) × W
  pub list_abandoned : W → Result (List String) × W
  pub unlink : String → W → Result (Unit {0}) × W
  pub create_temporary : W → Result (Unit {0}) × W
  pub copy : W → (Text × Result (Unit {0})) × W
  pub flush : W → Result (Unit {0}) × W
  pub fsync : W → Result (Unit {0}) × W
  pub read_temporary : W → Result (Unit {0}) × W
  pub replace : W → Result (Unit {0}) × W
  pub unlink_temporary : W → Result (Unit {0}) × W

-- The local variables of the function, the two files that it writes, and the world.
pub record Installation (W : Type 0) : Type 0 where
  pub stage : String
  pub temporary : Option Text
  pub destination : Option Text
  pub reports : List String
  pub world : W

module _ {W : Type 0} (parsing : Parsing) (disk : Installing W) where
  abbrev pub on_disk : {A : Type 0} → (W → Result A × W) → Exec (Installation W) A
  on_disk f i = let (result, w) = f i.world in (result, record i { world = w })

  pub report : String → Exec (Installation W) Unit
  report stage = modify (λ i. record i { reports = i.reports ++ stage ∷ [] })

  -- `stage = …` and the call of the injector.
  pub enter_stage : String → Exec (Installation W) Unit
  enter_stage stage = do modify (λ i. record i { stage = stage }); on_disk (disk.inject stage)

  -- `parser.load` of a text that was read.
  abbrev pub accept : Result Text → Result (Unit {0})
  accept (err e) = err value_error
  accept (ok text) = elim (load_stream parsing text) [ ok records ↦ ok tt | err e ↦ err e ]

  pub load_candidate : Exec (Installation W) Unit
  load_candidate i =
      let (read, w) = disk.read_candidate i.world in (accept read, record i { world = w })

  pub abandoned_failed : Bool → Exception → Exec (Installation W) Unit
  unfolding report
  abandoned_failed true e = report "abandoned_cleanup"
  abandoned_failed false e = raise e

  pub clear_abandoned : List String → Exec (Installation W) Unit
  unfolding abandoned_failed
  clear_abandoned [] = pure tt
  clear_abandoned (name ∷ names) = do
    try_else (on_disk (disk.unlink name)) (λ e. abandoned_failed (is_os_error e) e) (λ _. pure tt)
    clear_abandoned names

  pub create : Exec (Installation W) Unit
  create = do on_disk disk.create_temporary; modify (λ i. record i { temporary = some [] })

  pub copy_chunks : Exec (Installation W) Unit
  copy_chunks i =
      let ((text, result), w) = disk.copy i.world in
      (result, record i { temporary = some text; world = w })

  abbrev pub accept_temporary : Option Text → Result (Unit {0}) → Result (Unit {0})
  accept_temporary none read = err value_error
  accept_temporary (some text) (err e) = err value_error
  accept_temporary (some text) (ok _) = accept (ok text)

  pub load_temporary : Exec (Installation W) Unit
  load_temporary i =
      let (read, w) = disk.read_temporary i.world in
      (accept_temporary i.temporary read, record i { world = w })

  -- `os.replace` and `temporary_path = None`.
  pub replace_destination : Exec (Installation W) Unit
  replace_destination i =
      let (replaced, w) = disk.replace i.world in
      elim replaced [
        | err e ↦ (err e, record i { world = w })
        | ok _ ↦ (ok tt, record i { destination = i.temporary; temporary = none; world = w })
      ]

  -- The stages up to the copy in the temporary file.
  pub prepare : Exec (Installation W) Unit
  unfolding enter_stage load_candidate create copy_chunks clear_abandoned
  prepare = do
    enter_stage "candidate_validation"
    load_candidate
    on_disk disk.make_directory
    names ← on_disk disk.list_abandoned
    clear_abandoned names
    enter_stage "temporary_creation"
    create
    enter_stage "candidate_copy"
    copy_chunks
    enter_stage "temporary_flush"
    on_disk disk.flush
    enter_stage "temporary_fsync"
    on_disk disk.fsync

  -- The stages from the validation of the temporary file on.
  pub commit : Exec (Installation W) Unit
  unfolding enter_stage load_temporary replace_destination
  commit = do
    enter_stage "temporary_validation"
    load_temporary
    enter_stage "atomic_replace"
    replace_destination

  -- The `except` clause.
  pub report_failure : Result (Unit {0}) → Exec (Installation W) Unit
  unfolding report
  report_failure (ok _) i = (ok tt, i)
  report_failure (err e) i = (report i.stage >> raise e) i

  pub cleanup_failed : Bool → Exception → Result (Unit {0}) → Exec (Installation W) Unit
  unfolding report
  cleanup_failed true e outcome = report "temporary_cleanup" >> (λ i. (outcome, i))
  cleanup_failed false e outcome = raise e

  -- The `finally` clause; what it raises replaces the outcome.
  pub cleanup_temporary : Option Text → Result (Unit {0}) → Exec (Installation W) Unit
  unfolding cleanup_failed
  cleanup_temporary none outcome i = (outcome, i)
  cleanup_temporary (some _) outcome i =
      try_else
        (on_disk (disk.inject "temporary_cleanup")
          >> on_disk disk.unlink_temporary
          >> modify (λ i. record i { temporary = none }))
        (λ e. cleanup_failed (is_os_error e) e outcome) (λ _ i. (outcome, i)) i

  unfoldable pub install : Exec (Installation W) Unit
  unfolding prepare commit report_failure cleanup_temporary
  install i =
      let (result, after) = (prepare >> commit) i in
      let (outcome, reported) = report_failure result after in
      cleanup_temporary reported.temporary outcome reported
