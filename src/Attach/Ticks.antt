-- ===== src/Attach/Ticks.antt =====
-- main.rs: what a daemon keeps attached, over any number of ticks.
use padwire.Prelude.{
  ℕ, zero, suc, ◌≤◌, ◌≡◌, refl, true, false, List, [], ◌∷◌, length, arith, ◌⊎◌, inl, inr,
  Bool-cases, Result-cases,
}
use padwire.Prelude.Text.{is_nil}
use padwire.Attach.{
  System, Config, Daemon, Tracked, Port, Fate, kept, dropped, broken, fate_of, find_port, pruned,
  is_tracked, prune, satisfied, endpoints, tick,
}
use padwire.Attach.Tries.{AreDistinct, try_each-AreDistinct, try_each-length}

is_nil-length : (ts : List Tracked) → is_nil ts ≡ true → length ts ≡ 0
is_nil-length [] e = refl
is_nil-length (t ∷ ts) e = absurd (ground (arith, e))

Fate-cases : (f : Fate) → (f ≡ kept) ⊎ ((f ≡ dropped) ⊎ (f ≡ broken))
Fate-cases kept = inl refl
Fate-cases dropped = inr (inl refl)
Fate-cases broken = inr (inr refl)

-- What `prune` keeps: as distinct and as few as before, and nothing tracked that was not.
abbrev Prunes : List Tracked → List Tracked → Type 0
Prunes ts ts' =
    (length ts' ≤ length ts)
    × ((server busid : List ℕ)
        → is_tracked server busid ts ≡ false
        → is_tracked server busid ts' ≡ false)
    × (AreDistinct ts → AreDistinct ts')

pruned-Prunes : (ports : List Port) (ts : List Tracked) → Prunes ts (pruned ports ts).0
unfolding pruned is_tracked
pruned-Prunes ports [] = (omega arith, λ server busid h. h, λ v. v)
pruned-Prunes ports (t ∷ ts) =
    let (fewer, fresh, distinct) = pruned-Prunes ports ts in
    elim (Fate-cases (fate_of (find_port t.port ports))) [
      | inl e ↦
          rw (e, pruned)
            (
              omega (arith, fewer),
              λ server busid h. ground (arith, h, fresh server busid (ground (arith, h))),
              λ v. (fresh t.server t.busid v.0, distinct v.1),
            )
      | inr (inl e) ↦
          rw (e, pruned)
            (
              omega (arith, fewer),
              λ server busid h. fresh server busid (ground (arith, h)),
              λ v. distinct v.1,
            )
      | inr (inr e) ↦
          rw (e, pruned)
            (
              omega (arith, fewer),
              λ server busid h. fresh server busid (ground (arith, h)),
              λ v. distinct v.1,
            )
    ]

module _ {K : Type 0} (sys : System K) (cfg : Config) where
  prune-Prunes : (d : Daemon K) → Prunes d.attached (prune sys cfg d).attached
  unfolding prune
  prune-Prunes d = elim (Result-cases (sys.ports d.system)) [
    | inr (x, e) ↦ rw (e, prune) (omega arith, λ server busid h. h, λ v. v)
    | inl (ports, e) ↦ rw (e, prune) (pruned-Prunes ports d.attached)
  ]

  -- The daemon's loop: any number of ticks.
  unfoldable pub ticks : ℕ → ℕ → Daemon K → Daemon K
  ticks rounds zero d = d
  ticks rounds (suc n) d = ticks rounds n (tick sys cfg rounds d)

  tick-AreDistinct :
      (rounds : ℕ) (d : Daemon K)
      → AreDistinct d.attached
      → AreDistinct (tick sys cfg rounds d).attached
  unfolding tick
  tick-AreDistinct rounds d v =
      let d' = prune sys cfg d in
      let (servers, k) = endpoints sys cfg d'.system in
      let v' = (prune-Prunes d).2 v in
      elim (Bool-cases (satisfied sys cfg d')) [
        | inl e ↦ rw e v'
        | inr e ↦ rw e (try_each-AreDistinct sys cfg rounds servers (record d' { system = k }) v')
      ]

  -- However the network, the kernel and the clock behave, over any number of ticks a daemon that tracks
  -- no device of one server twice never comes to track one twice.
  pub ticks-AreDistinct :
      (rounds n : ℕ) (d : Daemon K)
      → AreDistinct d.attached
      → AreDistinct (ticks rounds n d).attached
  unfolding ticks
  ticks-AreDistinct rounds zero d v = v
  ticks-AreDistinct rounds (suc n) d v =
      ticks-AreDistinct rounds n (tick sys cfg rounds d) (tick-AreDistinct rounds d v)

  tick-length :
      (rounds : ℕ) (d : Daemon K)
      → cfg.stop_after_first ≡ true
      → length d.attached ≤ 1
      → length (tick sys cfg rounds d).attached ≤ 1
  unfolding tick satisfied
  tick-length rounds d one h =
      let d' = prune sys cfg d in
      let (servers, k) = endpoints sys cfg d'.system in
      let fewer = (prune-Prunes d).0 in
      elim (Bool-cases (satisfied sys cfg d')) [
        | inl e ↦ rw e (omega (arith, fewer, h))
        | inr e ↦
            let none_yet : is_nil d'.attached ≡ true = ground (arith, e, one) in
            rw e (
              omega (
                arith,
                is_nil-length d'.attached none_yet,
                try_each-length sys cfg rounds servers (record d' { system = k }) one,
              ))
      ]

  -- With `stop_after_first`, over any number of ticks a daemon that starts with at most one device never
  -- holds more than one.
  pub ticks-length :
      (rounds n : ℕ) (d : Daemon K)
      → cfg.stop_after_first ≡ true
      → length d.attached ≤ 1
      → length (ticks rounds n d).attached ≤ 1
  unfolding ticks
  ticks-length rounds zero d one h = h
  ticks-length rounds (suc n) d one h =
      ticks-length rounds n (tick sys cfg rounds d) one (tick-length rounds d one h)
