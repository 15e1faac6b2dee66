-- ===== src/Privacy/Erasure.antt =====
-- What the erasure of a driver leaves behind. The code does not touch the titles of coaching
-- actions, assignments and the raw messages of the ingestion.
use visi_on_route.Prelude.{
  ==_iff, Bool, Bool-cases, List, Option-cases, String, Time, [], any, ap, arith, count,
  count-cleared, count-removed, false, find, find-holds, find-updated, inl, inr, is_some, none,
  refl, same, select, some, subst, sym, true, update_where, ℕ, ◌&&◌, ◌==◌, ◌||◌, ◌∙◌, ◌∷◌, ◌≡◌, ◌≤◌,
}
use visi_on_route.Privacy.Store.{Subjects, Driver, Trip, SafetyEvent, Evidence, CoachingAction}
use visi_on_route.Privacy.Erasing.{
  Worker, delete_files, is_point_of, is_trip_of, is_event_of, is_action_of, is_evidence_of,
  erase_driver, own_subject, remove_file, without_driver, Outcome, hide_trip, driver_counts,
  hide_event, hide_action, delete_evidence, erased_driver, is_pseudonym_taken,
}

abbrev tells : Trip → Bool
tells t = is_some t.last_latitude || is_some t.last_longitude

abbrev event_tells : SafetyEvent → Bool
event_tells e = is_some e.latitude || (is_some e.longitude || is_some e.reviewer_notes)

abbrev action_tells : CoachingAction → Bool
action_tells a = is_some a.description || (is_some a.notes || is_some a.outcome_notes)

abbrev evidence_tells : Evidence → Bool
evidence_tells e = is_some e.storage_key || is_some e.telemetry_window

abbrev driver_tells : Driver → Bool
driver_tells d = is_some d.phone || (is_some d.license_number_enc || is_some d.user_id)

-- A driver's row under the pseudonym
pub record IsPseudonymous (w : Worker) (k : ℕ) (d : Driver) : Type 0 where
  pub full_name : d.full_name ≡ (w.pseudonym k).0
  pub external_id : d.external_id ≡ (w.pseudonym k).1
  pub erased : d.is_erased ≡ true
  pub phone : d.phone ≡ none
  pub license : d.license_number_enc ≡ none
  pub user : d.user_id ≡ none

-- What the erasure of a driver removes: the telemetry of the driver, the places of the trips and of
-- the events, the reviewers' notes, the description and the notes of coaching, the media and the
-- telemetry of the evidence with its files; the driver's own row is under the pseudonym. The
-- evidence is that of the events before.
pub record IsForgotten (w : Worker) (org k : ℕ) (before s : Subjects) : Type 0 where
  pub row :
      (d : Driver) × (find (λ (x : Driver). x.id == k) s.drivers ≡ some d) × IsPseudonymous w k d
  pub points : count (is_point_of org k) s.points ≡ 0
  pub trips : count (λ t. is_trip_of org k t && tells t) s.trips ≡ 0
  pub events : count (λ e. is_event_of org k e && event_tells e) s.events ≡ 0
  pub actions : count (λ a. is_action_of org k a && action_tells a) s.actions ≡ 0
  pub evidence :
      count (λ e. is_evidence_of org k before.events e && evidence_tells e) s.evidence ≡ 0
  pub driver : count (λ (d : Driver). (d.id == k) && driver_tells d) s.drivers ≡ 0
  pub files :
      (f : ℕ)
      → any
          (λ e. is_evidence_of org k before.events e && same e.storage_key (some f))
          before.evidence
        ≡ true
      → count (λ g. g == f) s.files ≡ 0

any-select :
    (q r : Evidence → Bool) (xs : List Evidence) → any (λ x. q x && r x) xs ≡ any r (select q xs)
any-select q r [] = refl
any-select q r (x ∷ xs) = ground (arith, any-select q r xs)

remove_none : (f : ℕ) (files : List ℕ) → count (λ g. g == f) (remove_file f files) ≡ 0
remove_none f [] = refl
remove_none f (g ∷ files) = ground (arith, remove_none f files)

remove_fewer :
    (f k : ℕ) (files : List ℕ)
    → count (λ g. g == f) (remove_file k files) ≤ count (λ g. g == f) files
remove_fewer f k [] = omega arith
remove_fewer f k (g ∷ files) = ground (arith, remove_fewer f k files)

module _ (deletes : ℕ → Bool) (h : (f : ℕ) → deletes f ≡ true) where
  delete_all : (es : List Evidence) (files : List ℕ) → (delete_files deletes es files).0 ≡ true
  delete_all [] files = refl
  delete_all (e ∷ es) files = elim (Option-cases e.storage_key) [
    | inl q ↦ ground (arith, q, delete_all es files)
    | inr (f, q) ↦ ground (arith, q, h f, delete_all es (remove_file f files))
  ]

  delete_fewer :
      (f : ℕ) (es : List Evidence) (files : List ℕ)
      → count (λ g. g == f) (delete_files deletes es files).1 ≤ count (λ g. g == f) files
  delete_fewer f [] files = omega arith
  delete_fewer f (e ∷ es) files = elim (Option-cases e.storage_key) [
    | inl q ↦ ground (arith, q, delete_fewer f es files)
    | inr (j, q) ↦
        ground (arith, q, h j, delete_fewer f es (remove_file j files), remove_fewer f j files)
  ]

  delete_none :
      (f : ℕ) (es : List Evidence) (files : List ℕ)
      → any (λ e. same e.storage_key (some f)) es ≡ true
      → count (λ g. g == f) (delete_files deletes es files).1 ≡ 0
  delete_none f [] files a = absurd (cc a)
  delete_none f (e ∷ es) files a = elim (Option-cases e.storage_key) [
    | inl q ↦ ground (arith, q, delete_none f es files)
    | inr (j, q) ↦ elim (Bool-cases (j == f)) [
      | inr ne ↦ ground (arith, q, h j, ne, a, delete_none f es (remove_file j files))
      | inl eq ↦ ground (
        arith,
        q,
        h j,
        delete_fewer f es (remove_file j files),
        subst (λ i. count (λ g. g == i) (remove_file j files) ≡ 0) ((==_iff j f).0 eq)
            (remove_none j files),
      )
    ]
  ]

module _ (w : Worker) (now : Time) (org k : ℕ) (s : Subjects) where
  -- The files that are left
  abbrev files_left : List ℕ
  files_left =
      (delete_files w.deletes (select (is_evidence_of org k s.events) s.evidence) s.files).1

  -- The driver is there, no other driver has the pseudonym's external identifier, and the storage
  -- deletes what it is asked to.
  pub record IsErasable : Type 0 where
    pub known : is_some (own_subject org k s) ≡ true
    pub fresh : is_pseudonym_taken w org k s ≡ false
    pub deletes : (f : ℕ) → w.deletes f ≡ true

  renamed :
      is_some (own_subject org k s) ≡ true
      → (d : Driver) × (find
            (λ (x : Driver). x.id == k)
            (update_where (λ (x : Driver). x.id == k) (erased_driver w now) s.drivers)
          ≡ some d)
        × IsPseudonymous w k d
  renamed known = elim (Option-cases (find (λ (x : Driver). x.id == k) s.drivers)) [
    | inl q ↦ absurd (absent q)
    | inr (d, q) ↦ (
      erased_driver w now d,
      ground (
        arith,
        q,
        find-holds (λ (x : Driver). x.id == k) s.drivers d q,
        find-updated (λ (x : Driver). x.id) k (λ x. x.id == k) (erased_driver w now) s.drivers
            (λ x. refl),
      ),
      pseudonymous d ((==_iff d.id k).0 (find-holds (λ (x : Driver). x.id == k) s.drivers d q)),
    )
  ]
    where
      absent : find (λ (x : Driver). x.id == k) s.drivers ≡ none → ⊥
      absent q = ground (arith, known, q)

      pseudonymous : (d : Driver) → d.id ≡ k → IsPseudonymous w k (erased_driver w now d)
      pseudonymous d e = record {
        full_name = ap (λ i. (w.pseudonym i).0) e;
        external_id = ap (λ i. (w.pseudonym i).1) e;
        erased = refl;
        phone = refl;
        license = refl;
        user = refl;
      }

  forgotten : IsErasable → IsForgotten w org k s (without_driver w now org k files_left s)
  unfolding without_driver
  forgotten e = record {
    row = renamed e.known;
    points = count-removed (is_point_of org k) (is_point_of org k) (λ x q. q) s.points;
    trips =
        count-cleared (λ t. is_trip_of org k t && tells t) (is_trip_of org k)
          (λ x q. ground (arith, q)) hide_trip s.trips (λ x. ground arith);
    events =
        count-cleared (λ t. is_event_of org k t && event_tells t) (is_event_of org k)
          (λ x q. ground (arith, q)) hide_event s.events (λ x. ground arith);
    actions =
        count-cleared (λ t. is_action_of org k t && action_tells t) (is_action_of org k)
          (λ x q. ground (arith, q)) hide_action s.actions (λ x. ground arith);
    evidence =
        count-cleared (λ t. is_evidence_of org k s.events t && evidence_tells t)
          (is_evidence_of org k s.events) (λ x q. ground (arith, q)) (delete_evidence now)
          s.evidence (λ x. ground arith);
    driver =
        count-cleared (λ (d : Driver). (d.id == k) && driver_tells d) (λ d. d.id == k)
          (λ x q. ground (arith, q)) (erased_driver w now) s.drivers (λ x. ground arith);
    files = λ f h.
        delete_none w.deletes e.deletes f (select (is_evidence_of org k s.events) s.evidence)
          s.files
          (sym (
              any-select (is_evidence_of org k s.events) (λ x. same x.storage_key (some f))
                s.evidence)
            ∙ h);
  }

  -- Where the driver belongs to the organization, no other driver has the pseudonym's external
  -- identifier and the storage deletes what it is asked to, the erasure succeeds. Name and external
  -- identifier of the driver are then the pseudonym's, telephone, licence and account are gone, the
  -- row is marked as erased, and the driver's telemetry, the places of trips and events, the
  -- reviewers' notes, the description and notes of coaching, and the media and telemetry of the
  -- evidence with its files are removed.
  pub erase_driver-forgets :
      IsErasable
      → (after : Subjects) × (counts : List (String × ℕ)) × ((erase_driver w now org k s
            ≡ Outcome.done after none counts)
          × IsForgotten w org k s after)
  unfolding erase_driver
  erase_driver-forgets e = (
    without_driver w now org k files_left s,
    driver_counts org k s,
    (
      ground (
        arith,
        e.known,
        e.fresh,
        delete_all w.deletes e.deletes (select (is_evidence_of org k s.events) s.evidence) s.files,
      ),
      forgotten e,
    ),
  )
