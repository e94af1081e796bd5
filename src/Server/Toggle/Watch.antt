-- ===== src/Server/Toggle/Watch.antt =====
-- toggle.rs: the watcher of suspended devices. The log is left out. The nodes of hidraw.rs, which are
-- input and output, are a parameter; so is the sorting of the list of suspended devices.
pub mod Once
use padwire.Prelude.{
  ℕ, ◌-◌, Bool, true, false, ◌&&◌, not, Option, none, some, List, [], ◌∷◌, ltb, if◌then◌else◌,
  Result, ok, err,
}
use padwire.Prelude.Text.{is_nil}
use padwire.Usbip.Io.Stream.{IoError}
use padwire.Server.Names.{Name, contains, is_same}
use padwire.Server.Chord.{Chord, Detector, new as new_detector}
use padwire.Server.Toggle.{Toggle, any_fired, resume, resume_all}

-- Milliseconds.
abbrev pub rebind_grace : ℕ
rebind_grace = 3000

abbrev pub nag : ℕ
nag = 30000

pub record Hotkey : Type 0 where
  pub chord : Chord
  pub hold : ℕ

abbrev pub detector_of : Hotkey → Detector
detector_of h = new_detector h.chord h.hold

-- A tap is a `T`, a path an `N`, over the state `K` of the nodes, the clock and the signals.
pub record Taps (T N K : Type 0) : Type 0 where
  pub nodes_for_busid : Name → K → Result IoError (List N) × K
  pub open_tap : List N → K → T × K
  pub is_empty : T → Bool
  pub read : T → K → Result IoError (Option (List (List ℕ))) × K
  pub now : K → ℕ × K
  pub take_hangup : K → Bool × K
  pub sleep : K → K
  pub sorted : List Name → List Name

pub data Step : Type 0 where
  fired polled idle : Step

pub record Watched (T : Type 0) : Type 0 where
  pub busid : Name
  pub tap : Option T
  pub detector : Detector
  pub suspended_at : ℕ
  pub complained_at : Option ℕ

module _ {T N K : Type 0} (taps : Taps T N K) (hotkey : Hotkey) where
  abbrev pub new : Name → ℕ → Watched T
  new busid now = record {
    busid = busid;
    tap = none;
    detector = detector_of hotkey;
    suspended_at = now;
    complained_at = none;
  }

  unfoldable pub attach_opened : List N → Watched T → K → Watched T × K
  attach_opened nodes w k =
      let (tap, k') = taps.open_tap nodes k in
      if taps.is_empty tap
      then (w, k')
      else (record w { detector = detector_of hotkey; complained_at = none; tap = some tap }, k')

  unfoldable pub attach_nodes : Result IoError (List N) → Watched T → K → Watched T × K
  unfolding attach_opened
  attach_nodes (err e) w k = (w, k)
  attach_nodes (ok nodes) w k = if is_nil nodes then (w, k) else attach_opened nodes w k

  unfoldable pub attach_tap : Watched T → K → Watched T × K
  unfolding attach_nodes
  attach_tap w k = let (nodes, k') = taps.nodes_for_busid w.busid k in attach_nodes nodes w k'

  abbrev within_nag : Option ℕ → ℕ → Bool
  within_nag none now = false
  within_nag (some t) now = ltb (now - t) nag

  unfoldable pub complain : Watched T → K → Watched T × K
  complain w k =
      let (now, k') = taps.now k in
      if ltb (now - w.suspended_at) rebind_grace
      then (w, k')
      else if within_nag w.complained_at now
      then (w, k')
      else (record w { complained_at = some now }, k')

  unfoldable pub judged : List (List ℕ) → Watched T → K → Step × Watched T × K
  judged reports w k =
      let (now, k') = taps.now k in
      let (on, det) = any_fired w.detector reports now in
      (if on then fired else polled, record w { detector = det }, k')

  unfoldable pub polled_with :
      Result IoError (Option (List (List ℕ))) → Watched T → K → Step × Watched T × K
  unfolding judged
  polled_with (err e) w k = (idle, record w { tap = none }, k)
  polled_with (ok none) w k = (idle, record w { tap = none }, k)
  polled_with (ok (some reports)) w k = judged reports w k

  unfoldable pub tapped : Option T → Watched T → K → Step × Watched T × K
  unfolding polled_with complain
  tapped none w k = let (w', k') = complain w k in (idle, w', k')
  tapped (some tap) w k = let (answer, k') = taps.read tap k in polled_with answer w k'

  unfoldable pub is_none : Option T → Bool
  is_none none = true
  is_none (some tap) = false

  unfoldable pub attached : Watched T → K → Watched T × K
  unfolding attach_tap is_none
  attached w k = let tried = attach_tap w k in if is_none w.tap then tried else (w, k)

  unfoldable pub step : Watched T → K → Step × Watched T × K
  unfolding tapped attached
  step w k = let (w', k') = attached w k in tapped w'.tap w' k'

  unfoldable pub retain : List Name → List (Watched T) → List (Watched T)
  retain names [] = []
  retain names (w ∷ ws) =
      let rest = retain names ws in if contains w.busid names then w ∷ rest else rest

  unfoldable pub lookup : Name → List (Watched T) → Option (Watched T)
  lookup busid [] = none
  lookup busid (w ∷ ws) =
      let rest = lookup busid ws in if is_same w.busid busid then some w else rest

  unfoldable pub without : Name → List (Watched T) → List (Watched T)
  without busid [] = []
  without busid (w ∷ ws) =
      let rest = without busid ws in if is_same w.busid busid then rest else w ∷ rest

  -- The clock is read for a device that is new.
  unfoldable pub entry : Name → List (Watched T) → K → Watched T × K
  unfolding lookup
  entry busid ws k = elim (lookup busid ws) [
    | some w ↦ (w, k)
    | none ↦ let (now, k') = taps.now k in (new busid now, k')
  ]

  unfoldable pub after_step : Name → Step → Bool → Toggle → Bool × Toggle
  unfolding resume
  after_step busid fired polled_yet toggle = (true, (resume toggle busid).1)
  after_step busid polled polled_yet toggle = (true, toggle)
  after_step busid idle polled_yet toggle = (polled_yet, toggle)

  -- The suspended devices left, and whether one has been polled.
  unfoldable pub watch_each :
      List Name → Bool → List (Watched T) → Toggle → K → Bool × List (Watched T) × Toggle × K
  unfolding step entry without after_step
  watch_each [] polled_yet ws toggle k = (polled_yet, ws, toggle, k)
  watch_each (busid ∷ rest) polled_yet ws toggle k =
      let (w, k1) = entry busid ws k in
      let (s, w', k2) = step w k1 in
      let (polled_yet', toggle') = after_step w'.busid s polled_yet toggle in
      watch_each rest polled_yet' (w' ∷ without busid ws) toggle' k2

  -- One round of the loop of `watch`.
  unfoldable pub watch : List (Watched T) → Toggle → K → List (Watched T) × Toggle × K
  unfolding watch_each retain resume_all
  watch ws toggle k =
      let (hangup, k1) = taps.take_hangup k in
      let toggle' = if hangup then (resume_all toggle).1 else toggle in
      let suspended = taps.sorted toggle'.suspended in
      let (polled_yet, ws', toggle'', k2) =
        watch_each suspended false (retain suspended ws) toggle' k1 in
      (ws', toggle'', if polled_yet then k2 else taps.sleep k2)
