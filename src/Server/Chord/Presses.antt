-- ===== src/Server/Chord/Presses.antt =====
-- chord.rs, `Detector::feed`: one firing for each press.
use padwire.Prelude.{ℕ, ◌+◌, ◌≤◌, ◌≡◌, Bool, true, false, not, none, some, List, [], ◌∷◌, arith}
use padwire.Server.Chord.{
  Chord, Detector, Verdict, buttons, held_in, released, held, fed, feed, new,
}

-- The reports of a stream, each with the time at which it is read.
abbrev pub Timed : Type 0
Timed = List (List ℕ × ℕ)

unfoldable pub feed_all : Detector → Timed → List Verdict × Detector
feed_all det [] = ([], det)
feed_all det ((report, now) ∷ rest) =
    let (v, det') = feed det report now in let (vs, det'') = feed_all det' rest in (v ∷ vs, det'')

abbrev pub one : Bool → ℕ
one false = 0
one true = 1

unfoldable pub firings : List Verdict → ℕ
firings [] = 0
firings (v ∷ vs) = one v.fired + firings vs

-- Whether a report shows the chord up, which an unknown report does not.
unfoldable pub is_release : Chord → List ℕ → Bool
is_release chord report = elim (buttons report) [ none ↦ false | some b ↦ not (held_in chord b) ]

unfoldable pub releases : Chord → Timed → ℕ
releases chord [] = 0
releases chord ((report, now) ∷ rest) = one (is_release chord report) + releases chord rest

held-once :
    (det : Detector) (now : ℕ)
    → one (held det now).0.fired + one (held det now).1.armed ≤ one det.armed
unfolding held
held-once det now = ground arith

pub feed-once :
    (det : Detector) (report : List ℕ) (now : ℕ)
    → one (feed det report now).0.fired + one (feed det report now).1.armed
      ≤ one det.armed + one (is_release det.chord report)
unfolding feed fed is_release released
feed-once det report now = ground (arith, held-once det now)

pub chord-feed :
    (det : Detector) (report : List ℕ) (now : ℕ) → (feed det report now).1.chord ≡ det.chord
unfolding feed fed released held
chord-feed det report now = ground arith

firings-armed :
    (det : Detector) (stream : Timed)
    → firings (feed_all det stream).0 + one (feed_all det stream).1.armed
      ≤ one det.armed + releases det.chord stream
unfolding feed_all firings releases
firings-armed det [] = ground arith
firings-armed det ((report, now) ∷ rest) =
    let (v, det') = feed det report now in
    let once = feed-once det report now in
    let same : det'.chord ≡ det.chord = chord-feed det report now in
    let rest_lem : firings (feed_all det' rest).0 + one (feed_all det' rest).1.armed
        ≤ one det'.armed + releases det.chord rest =
      rw same at (firings-armed det' rest) in
    omega arith

-- A new detector fires at most as often as it has seen the chord up, however long it is held.
pub firings-releases :
    (chord : Chord) (hold : ℕ) (stream : Timed)
    → firings (feed_all (new chord hold) stream).0 ≤ releases chord stream
unfolding new
firings-releases chord hold stream = let h = firings-armed (new chord hold) stream in omega arith
