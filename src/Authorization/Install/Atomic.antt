-- ===== src/Authorization/Install/Atomic.antt =====
-- What `install_authorization_candidate` of bridgewire/authorization.py leaves at the destination.
use frontdoor.Prelude.{
  ◌≡◌, refl, String, Bool, true, false, Option, none, some, List, [], ◌∷◌, Exception, Result, ok,
  err, is_ok, arith,
}
use frontdoor.Reader.Record.{Text}
use frontdoor.Authorization.{Parsing, load_stream}
use frontdoor.Authorization.Install.{
  Installing, Installation, enter_stage, load_candidate, clear_abandoned, abandoned_failed, create,
  copy_chunks, load_temporary, replace_destination, prepare, commit, report_failure, cleanup_failed,
  cleanup_temporary, install, report,
}

module _ {W : Type 0} (parsing : Parsing) (disk : Installing W) where
  clear_abandoned-destination :
      (names : List String) (i : Installation W)
      → (clear_abandoned parsing disk names i).1.destination ≡ i.destination
  unfolding clear_abandoned abandoned_failed report
  clear_abandoned-destination [] i = refl
  clear_abandoned-destination (name ∷ names) i = grind (arith, clear_abandoned-destination names)

  prepare-destination :
      (i : Installation W) → (prepare parsing disk i).1.destination ≡ i.destination
  unfolding prepare enter_stage load_candidate create copy_chunks
  prepare-destination i = grind (arith, clear_abandoned-destination)

  -- A file whose text is an authorization file.
  abbrev pub loads : Option Text → Bool
  loads none = false
  loads (some text) = is_ok (load_stream parsing text)

  commit-destination :
      (i : Installation W)
      → let (result, i') = commit parsing disk i in
        ((e : Exception) → result ≡ err e → i'.destination ≡ i.destination)
        × (result ≡ ok tt → (i'.temporary ≡ none) × (loads i'.destination ≡ true))
  unfolding commit enter_stage load_temporary replace_destination
  commit-destination i = (λ e failed. grind arith, λ done. (grind arith, grind arith))

  report_failure-fields :
      (result : Result (Unit {0})) (i : Installation W)
      → let (outcome, i') = report_failure parsing disk result i in
        (outcome ≡ result) × (i'.destination ≡ i.destination) × (i'.temporary ≡ i.temporary)
  unfolding report_failure report
  report_failure-fields (ok done) i = (refl, refl, refl)
  report_failure-fields (err e) i = (refl, refl, refl)

  cleanup_temporary-destination :
      (temporary : Option Text) (outcome : Result (Unit {0})) (i : Installation W)
      → let (final, i') = cleanup_temporary parsing disk temporary outcome i in
        (i'.destination ≡ i.destination)
        × (temporary ≡ none → final ≡ outcome)
        × (final ≡ ok tt → outcome ≡ ok tt)
  unfolding cleanup_temporary cleanup_failed report
  cleanup_temporary-destination none outcome i = (refl, λ absent. refl, λ done. done)
  cleanup_temporary-destination (some text) outcome i =
      (grind arith, λ absent. absurd (cc), λ done. grind arith)

  -- At whatever stage an operation of the file system or the injector raises: an installation that
  -- raises leaves the destination as it was, and one that returns leaves there a text that the parser
  -- accepts.
  pub install_atomic :
      (i : Installation W)
      → let (outcome, i') = install parsing disk i in
        ((e : Exception) → outcome ≡ err e → i'.destination ≡ i.destination)
        × (outcome ≡ ok tt → loads i'.destination ≡ true)
  unfolding install
  install_atomic i = grind (
    arith,
    prepare-destination i,
    commit-destination,
    report_failure-fields,
    cleanup_temporary-destination,
  )
