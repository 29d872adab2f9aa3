-- ===== src/Serial/Found.antt =====
-- A reader that is configured by its entry of /dev/serial/by-id, as
-- bridgewire/adapters/reader/posix_serial.py lists the devices and bridgewire/reader.py discovers it.
use frontdoor.Prelude.{
  ℕ, String, Bool, true, false, ◌&&◌, Option, none, some, List, [], ◌∷◌, ◌≡◌, ◌≢◌, ◌↔◌,
  subprocess_error, ok, err, text_in, str_eq, eq_iff, count, refl, arith, Bool-cases, inl, inr,
  if◌then◌else◌,
}
use frontdoor.Prelude.Results.{◌>>=◌ as and_then}
use frontdoor.Reader.Discovery.{
  SerialDevice, ReaderIdentity, found, ambiguous, matches, discover_reader,
}
use frontdoor.Reader.Discovery.Counting.{discover_reader-candidates}
use frontdoor.Serial.{
  Host, get_last, properties_of, optional_int, device_of, described, serial_device_from_by_id,
  devices_at, enumerate_serial_devices,
}

abbrev pub AreDistinct : List String → Type 0
AreDistinct [] = Unit
AreDistinct (x ∷ xs) = (text_in x xs ≡ false) × AreDistinct xs

-- A file system that stands still, with some entries, of which some are links, for some of which
-- udevadm answers; the vendor and the model of an answer for a link, where it has them, are
-- hexadecimal.
pub record Still {W : Type 0} (host : Host W) (paths : List String) (link : String → Bool)
    (answers : String → Bool) : Type 0 where
  pub is_dirs : (w : W) → host.is_dir w ≡ (ok true, w)
  pub lists : (w : W) → host.by_id w ≡ (ok paths, w)
  pub links : (path : String) (w : W) → host.is_symlink path w ≡ (ok (link path), w)
  pub output : String → String
  pub queries :
      (path : String) (w : W)
      → host.query path w ≡ (if answers path then ok (output path) else err subprocess_error, w)
  pub resolved : String → String
  pub resolves : (path : String) (w : W) → host.resolve path w ≡ (ok (resolved path), w)
  pub vendor : String → Option ℕ
  pub vendors :
      (path : String)
      → link path ≡ true
      → answers path ≡ true
      → optional_int host (get_last "ID_VENDOR_ID" (properties_of (output path))) ≡ ok (vendor path)
  pub model : String → Option ℕ
  pub models :
      (path : String)
      → link path ≡ true
      → answers path ≡ true
      → optional_int host (get_last "ID_MODEL_ID" (properties_of (output path))) ≡ ok (model path)

-- An identity by the path alone.
abbrev pub by_path : String → ReaderIdentity
by_path path = record {
  by_id_path = some path;
  vid = none;
  pid = none;
  serial_number = none;
  manufacturer = none;
  product = none;
}

module _ {W : Type 0} (host : Host W) (paths : List String) (link answers : String → Bool)
    (still : Still host paths link answers) where
  device_of_total :
      (path resolved : String)
      → link path ≡ true
      → answers path ≡ true
      → let properties = properties_of (still.output path) in
        (d : SerialDevice) × (device_of host path resolved properties ≡ ok d)
        × (d.by_id_path ≡ some path)
  unfolding device_of and_then
  device_of_total path resolved linked answered =
      let properties = properties_of (still.output path) in
      (
        record {
          path = resolved;
          by_id_path = some path;
          vid = still.vendor path;
          pid = still.model path;
          serial_number = get_last "ID_SERIAL_SHORT" properties;
          manufacturer = get_last "ID_VENDOR" properties;
          product = get_last "ID_MODEL" properties;
        },
        rw (still.vendors path linked answered, still.models path linked answered) refl,
        refl,
      )

  serial_device_answered :
      (path : String) (w : W)
      → link path ≡ true
      → answers path ≡ true
      → (d : SerialDevice) × (serial_device_from_by_id host path w ≡ (ok (some d), w))
        × (d.by_id_path ≡ some path)
  unfolding serial_device_from_by_id described
  serial_device_answered path w linked answered =
      let (d, made, same) = device_of_total path (still.resolved path) linked answered in
      (d, ground (arith, still.queries path w, answered, still.resolves path w, made), same)

  serial_device_silent :
      (path : String) (w : W)
      → answers path ≡ false
      → serial_device_from_by_id host path w ≡ (ok none, w)
  unfolding serial_device_from_by_id described
  serial_device_silent path w silent = ground (arith, still.queries path w, silent)

  -- Whether the device of an entry is listed.
  abbrev is_shown : String → Bool
  is_shown path = link path && answers path

  abbrev fits : String → String → Bool
  fits wanted path = is_shown path && str_eq path wanted

  matches-by_path :
      (wanted path : String) (d : SerialDevice)
      → d.by_id_path ≡ some path
      → matches d (by_path wanted) ≡ str_eq path wanted
  unfolding matches
  matches-by_path wanted path d same = rw same refl

  devices_at-count :
      (wanted : String) (some_paths : List String) (w : W)
      → (ds : List SerialDevice) × (devices_at host some_paths w ≡ (ok ds, w))
        × (count (λ d. matches d (by_path wanted)) ds ≡ count (fits wanted) some_paths)
  unfolding devices_at
  devices_at-count wanted [] w = ([], refl, refl)
  devices_at-count wanted (path ∷ rest) w =
      let (ds, made, counted) = devices_at-count wanted rest w in
      elim (Bool-cases (link path)) [
        | inr plain ↦
            (ds, ground (arith, still.links path w, plain, made), ground (arith, plain, counted))
        | inl linked ↦ elim (Bool-cases (answers path)) [
          | inr silent ↦
              let skipped = serial_device_silent path w silent in
              (
                ds,
                ground (arith, still.links path w, linked, skipped, made),
                ground (arith, silent, linked, counted),
              )
          | inl answered ↦
              let (d, found_, same) = serial_device_answered path w linked answered in
              (
                d ∷ ds,
                ground (arith, still.links path w, linked, found_, made),
                ground (arith, answered, linked, counted, matches-by_path wanted path d same),
              )
        ]
      ]

  count-distinct :
      (wanted : String) (some_paths : List String)
      → AreDistinct some_paths
      → count (fits wanted) some_paths
        ≡ (if text_in wanted some_paths && is_shown wanted then 1 else 0)
  count-distinct wanted [] h = refl
  count-distinct wanted (path ∷ rest) h =
      ground (arith, eq_iff path wanted, eq_iff wanted path, count-distinct wanted rest h.1, h.0)

-- On a file system that stands still and whose entries have different names, where udevadm gives for no
-- link a vendor or a model that is not hexadecimal, a reader that is configured by the path of its entry is found exactly if the entry is there, is a link and udevadm
-- answers for it; it is never ambiguous.
pub discover_reader-by_path :
    {W : Type 0} (host : Host W) (paths : List String) (link answers : String → Bool)
    (wanted : String) (w : W)
    → Still host paths link answers
    → AreDistinct paths
    → (ds : List SerialDevice) × (enumerate_serial_devices host w ≡ (ok ds, w))
      × ((discover_reader ds (by_path wanted)).status ≢ ambiguous)
      × (((discover_reader ds (by_path wanted)).status ≡ found)
          ↔ ((text_in wanted paths ≡ true) × (link wanted ≡ true) × (answers wanted ≡ true)))
unfolding enumerate_serial_devices
discover_reader-by_path host paths link answers wanted w still distinct =
    let (ds, made, counted) = devices_at-count host paths link answers still wanted paths w in
    let one = count-distinct host paths link answers still wanted paths distinct in
    let (absent, present, several, total) = discover_reader-candidates ds (by_path wanted) in
    (
      ds,
      ground (arith, still.is_dirs w, still.lists w, made),
      ground (arith, several, counted, one),
      ground (arith, present, counted, one),
    )
