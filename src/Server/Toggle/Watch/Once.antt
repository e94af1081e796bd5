-- ===== src/Server/Toggle/Watch/Once.antt =====
-- toggle.rs: a suspended device comes back only after its chord has been let go.
use padwire.Prelude.{
  ℕ, zero, suc, ◌+◌, ◌≤◌, ◌≡◌, refl, ap, ◌∙◌, Option, none, some, List, [], ◌∷◌, Result, ok, err,
  arith, inl, inr, Bool-cases, Result-cases,
}
use padwire.Prelude.Text.{is_nil}
use padwire.Usbip.Io.Stream.{IoError}
use padwire.Server.Chord.{Chord, Detector, feed, new as new_detector}
use padwire.Server.Chord.Presses.{one, is_release, feed-once, chord-feed}
use padwire.Server.Toggle.{any_fired}
use padwire.Server.Toggle.Watch.{
  Taps, Hotkey, Watched, Step, fired, polled, idle, detector_of, attach_opened, attach_nodes,
  attach_tap, complain, judged, polled_with, tapped, attached, step, is_none,
}

abbrev pub count_up : Chord → List (List ℕ) → ℕ
count_up chord [] = 0
count_up chord (r ∷ rs) = one (is_release chord r) + count_up chord rs

any_fired-once :
    (det : Detector) (reports : List (List ℕ)) (now : ℕ)
    → (one (any_fired det reports now).0 + one (any_fired det reports now).1.armed
        ≤ one det.armed + count_up det.chord reports)
      × ((any_fired det reports now).1.chord ≡ det.chord)
unfolding any_fired
any_fired-once det [] now = (omega arith, refl)
any_fired-once det (r ∷ rs) now =
    let once = feed-once det r now in
    let same = chord-feed det r now in
    let (rest, same') = any_fired-once (feed det r now).1 rs now in
    let less = rest in
    elim (Bool-cases (feed det r now).0.fired) [
      | inl e ↦ rw e (omega (arith, once, ap one e), same)
      | inr e ↦
          rw e (omega (arith, once, rest, ap one e, ap (λ c. count_up c rs) same), same' ∙ same)
    ]

module _ {T N K : Type 0} (taps : Taps T N K) (hotkey : Hotkey) where
  -- The reports that a tap gives.
  abbrev read_from : Result IoError (Option (List (List ℕ))) → List (List ℕ)
  read_from (err e) = []
  read_from (ok none) = []
  read_from (ok (some reports)) = reports

  abbrev heard_by : Option T → K → List (List ℕ)
  heard_by none k = []
  heard_by (some tap) k = read_from (taps.read tap k).0

  -- The reports that a step reads.
  unfoldable pub heard : Watched T → K → List (List ℕ)
  heard w k = heard_by (attached taps hotkey w k).0.tap (attached taps hotkey w k).1

  abbrev once : Step → ℕ
  once fired = 1
  once polled = 0
  once idle = 0

  -- What a step does to a detector: it fires and stays armed no oftener than it was armed and then saw
  -- the chord up.
  abbrev Holds : Watched T → List (List ℕ) → Step × Watched T × K → Type 0
  Holds w reports r =
      (once r.0 + one r.1.detector.armed ≤ one w.detector.armed + count_up w.detector.chord reports)
      × (r.1.detector.chord ≡ w.detector.chord)

  polled_with-Holds :
      (answer : Result IoError (Option (List (List ℕ)))) (w : Watched T) (k : K)
      → Holds w (read_from answer) (polled_with taps hotkey answer w k)
  unfolding polled_with judged
  polled_with-Holds (err e) w k = (omega arith, refl)
  polled_with-Holds (ok none) w k = (omega arith, refl)
  polled_with-Holds (ok (some reports)) w k =
      let now = (taps.now k).0 in
      let h = any_fired-once w.detector reports now in
      elim (Bool-cases (any_fired w.detector reports now).0) [
        | inl e ↦ (rw e (omega (arith, h.0, ap one e)), h.1)
        | inr e ↦ (rw e (omega (arith, h.0, ap one e)), h.1)
      ]

  complain-detector : (w : Watched T) (k : K) → (complain taps hotkey w k).0.detector ≡ w.detector
  unfolding complain
  complain-detector w k = ground arith

  tapped-Holds :
      (o : Option T) (w : Watched T) (k : K) → Holds w (heard_by o k) (tapped taps hotkey o w k)
  unfolding tapped
  tapped-Holds none w k =
      let e = complain-detector w k in
      (omega (arith, ap (λ (d : Detector). one d.armed) e), ap (λ (d : Detector). d.chord) e)
  tapped-Holds (some tap) w k = polled_with-Holds (taps.read tap k).0 w (taps.read tap k).1

  -- A tap that is opened starts unarmed.
  attached-detector :
      (w : Watched T) (k : K)
      → w.detector.chord ≡ hotkey.chord
      → (one (attached taps hotkey w k).0.detector.armed ≤ one w.detector.armed)
        × ((attached taps hotkey w k).0.detector.chord ≡ hotkey.chord)
  unfolding attached attach_tap attach_nodes attach_opened new_detector
  attached-detector w k same = elim (Bool-cases (is_none taps hotkey w.tap)) [
    | inr e ↦ rw e (omega arith, same)
    | inl e ↦ rw e (elim (Result-cases (taps.nodes_for_busid w.busid k).0) [
      | inr (x, e') ↦ rw (e', attach_nodes) (omega arith, same)
      | inl (nodes, e') ↦
          rw (e', attach_nodes)
            (elim (Bool-cases (is_nil nodes)) [
              | inl empty ↦ rw empty (omega arith, same)
              | inr full ↦
                  rw full
                    (elim (Bool-cases
                      (taps.is_empty (taps.open_tap nodes (taps.nodes_for_busid w.busid k).1).0)) [
                        | inl gone ↦ rw gone (omega arith, same)
                        | inr there ↦ rw there (omega arith, refl)
                      ])
            ])
    ])
  ]

  -- Steps of one watched device: how often it fires, and how often it has seen the chord up.
  unfoldable pub steps : ℕ → Watched T → K → ℕ × ℕ
  unfolding heard
  steps zero w k = (0, 0)
  steps (suc n) w k =
      let (s, w', k') = step taps hotkey w k in
      let (fires, ups) = steps n w' k' in (once s + fires, count_up hotkey.chord (heard w k) + ups)

  steps-armed :
      (n : ℕ) (w : Watched T) (k : K)
      → w.detector.chord ≡ hotkey.chord
      → (steps n w k).0 ≤ one w.detector.armed + (steps n w k).1
  unfolding steps step heard
  steps-armed zero w k same = omega arith
  steps-armed (suc n) w k same =
      let (armed, same') = attached-detector w k same in
      let (w', k') = attached taps hotkey w k in
      let (held, same'') = tapped-Holds w'.tap w' k' in
      let (s, w'', k'') = tapped taps hotkey w'.tap w' k' in
      let rest = steps-armed n w'' k'' (same'' ∙ same') in
      omega (arith, armed, held, rest, ap (λ c. count_up c (heard_by w'.tap k')) same')

  -- A suspended device that is being watched is put back on offer at most as often as a report of its
  -- has shown the chord up, whenever its taps come and go: the press that suspended it never brings it
  -- back.
  pub steps-fires :
      (n : ℕ) (w : Watched T) (k : K)
      → w.detector ≡ detector_of hotkey
      → (steps n w k).0 ≤ (steps n w k).1
  unfolding new_detector
  steps-fires n w k fresh = omega (
    arith,
    steps-armed n w k (ap (λ (d : Detector). d.chord) fresh),
    ap (λ (d : Detector). one d.armed) fresh,
  )
