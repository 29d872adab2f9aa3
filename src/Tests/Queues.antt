-- ===== src/Tests/Queues.antt =====
-- A queue of two events, which JSON tells apart by their ids.
use frontdoor.Prelude.{
  List, ℕ, suc, ◌≡◌, refl, String, true, false, some, none, [], ◌∷◌, length, Result, ok, err,
  Exception, os_error, if◌then◌else◌,
}
use frontdoor.Clock.{utc}
use frontdoor.Authorization.{text_eq}
use frontdoor.Audit.{AuditEvent, codes, escalation_critical, critical}
use frontdoor.Notifications.{
  Item, as_dict, Json, Disk, DurableNotificationQueue, enqueue, pending, deliver_one,
}
use frontdoor.Notifications.Delivery.{
  IsCoded, IsWorking, Holds, pending-enqueue, Removes, deliver_one_first,
}

abbrev demo_event : String → AuditEvent
demo_event id = record {
  event_type = escalation_critical;
  severity = critical;
  timestamp = record { instant = 3; zone = utc };
  correlation = [];
  reader_state = none;
  controller_state = some "ready";
  delivery_status = none;
  event_id = id;
}

abbrev demo_item : String → Item
demo_item id = record {
  event_id = id;
  timestamp = record { instant = 3; zone = utc };
  event_type = escalation_critical;
  severity = critical;
  correlation = [];
  reader_state = none;
  controller_state = some "ready";
  delivery_status = none;
}

abbrev demo_json : Json
demo_json = record {
  dumps = λ item. codes item.event_id;
  loads = λ text. ok (demo_item (if text_eq text (b'a' ∷ []) then "a" else "b"));
}

a-IsCoded : IsCoded demo_json (demo_item "a")
a-IsCoded = record { back = refl; plain = refl; filled = λ lines. refl }

b-IsCoded : IsCoded demo_json (demo_item "b")
b-IsCoded = record { back = refl; plain = refl; filled = λ lines. refl }

abbrev demo_disk : Disk ℕ
demo_disk = record {
  make_directory = λ w. (ok tt, w);
  open_append = λ w. (ok tt, w);
  append = λ text w. ((length text, ok tt), w);
  read = λ w. (ok tt, w);
  create_temporary = λ w. (ok tt, w);
  write_temporary = λ text w. ((length text, ok tt), w);
  replace = λ w. (ok tt, w);
  unlink = λ w. (ok tt, w);
}

demo_disk-IsWorking : IsWorking demo_disk
demo_disk-IsWorking = record {
  makes = λ w. refl;
  opens = λ w. refl;
  appends = λ text w. refl;
  reads = λ w. refl;
  creates = λ w. refl;
  writes = λ text w. refl;
  replaces = λ w. refl;
}

abbrev demo_queue : DurableNotificationQueue ℕ
demo_queue = record { file = some (b'a' ∷ 10 ∷ []); temporary = none; world = 0 }

pending-enqueue_example :
    let (outcome, q') = enqueue demo_json demo_disk (demo_event "b") demo_queue in
    (outcome ≡ ok tt)
    × Holds demo_json q' (demo_item "a" ∷ demo_item "b" ∷ [])
    × ((pending demo_json demo_disk q').0 ≡ ok (demo_item "a" ∷ demo_item "b" ∷ []))
unfolding as_dict
pending-enqueue_example =
    pending-enqueue demo_json demo_disk demo_disk-IsWorking (demo_event "b") demo_queue
      (demo_item "a" ∷ []) (refl, (a-IsCoded, tt)) b-IsCoded

abbrev deliver : Item → ℕ → Result (Unit {0}) × ℕ
deliver item w = (ok tt, suc w)

deliver_one_first_example :
    (Holds demo_json demo_queue []
      → ((deliver_one demo_json demo_disk deliver demo_queue).0 ≡ ok false)
        × ((deliver_one demo_json demo_disk deliver demo_queue).1.file ≡ demo_queue.file))
    × (Holds demo_json demo_queue (demo_item "a" ∷ [])
        → let w = (pending demo_json demo_disk demo_queue).1.world in
          let (outcome, q') = deliver_one demo_json demo_disk deliver demo_queue in
          ((deliver (demo_item "a") w).0 ≡ ok tt
            → (outcome ≡ ok true)
              × ((left : List Item) × Removes "a" (demo_item "a" ∷ []) left
                  × Holds demo_json q' left))
          × ((e : Exception)
              → (deliver (demo_item "a") w).0 ≡ err e
              → (outcome ≡ err e) × (q'.file ≡ demo_queue.file)))
deliver_one_first_example =
    deliver_one_first demo_json demo_disk demo_disk-IsWorking deliver demo_queue (demo_item "a") []

abbrev full_disk : Disk ℕ
full_disk = record demo_disk { write_temporary = λ text w. ((1, err os_error), w) }
