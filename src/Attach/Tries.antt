-- ===== src/Attach/Tries.antt =====
-- main.rs: what a try of a server, and a round over the servers, does to the attachments.
use padwire.Prelude.{
  ℕ, ◌+◌, ◌≤◌, ◌≡◌, refl, ap, sym, subst, ◌∙◌, Bool, true, false, ◌&&◌, ◌||◌, not, Option, none,
  some, List, [], ◌∷◌, ◌++◌, length, length-append, ltb, if◌then◌else◌, arith, ◌⊎◌, inl, inr,
  Bool-cases, Option-cases, Result-cases,
}
use padwire.Prelude.Text.{is_same, is_same_refl, is_same-eq}
use padwire.Usbip.Device.{UsbDevice}
use padwire.Backend.Filter.{matches}
use padwire.Attach.{
  System, Config, Daemon, Server, Tracked, lookup, is_tracked, candidate, record_failure,
  clear_failure, settled, attach, attach_one, listed, connect, try_server, try_each,
}

-- No device is tracked twice from one server.
abbrev pub AreDistinct : List Tracked → Type 0
AreDistinct [] = Unit {0}
AreDistinct (t ∷ ts) = (is_tracked t.server t.busid ts ≡ false) × AreDistinct ts

-- What a try leaves: the attachments as they were, or one more, of a device that was not tracked.
abbrev Tries : List Tracked → Bool → List Tracked → Type 0
Tries ts attached ts' =
    ((attached ≡ false) × (ts' ≡ ts))
    ⊎ ((attached ≡ true)
        × ((t : Tracked) × (is_tracked t.server t.busid ts ≡ false) × (ts' ≡ ts ++ t ∷ [])))

is_tracked-append :
    (server busid : List ℕ) (t : Tracked) (ts : List Tracked)
    → is_tracked server busid (ts ++ t ∷ [])
      ≡ (is_tracked server busid ts || is_same t.server server && is_same t.busid busid)
unfolding is_tracked
is_tracked-append server busid t [] = ground arith
is_tracked-append server busid t (u ∷ ts) = ground (arith, is_tracked-append server busid t ts)

-- The comparison of names reads both ways.
mirrored : (s b s' b' : List ℕ) → (is_same s s' && is_same b b') ≡ true → (s ≡ s') × (b ≡ b')
mirrored s b s' b' h = (is_same-eq s s' (ground (arith, h)), is_same-eq b b' (ground (arith, h)))

turned :
    (t u : Tracked)
    → t.server ≡ u.server
    → t.busid ≡ u.busid
    → (is_same u.server t.server && is_same u.busid t.busid) ≡ true
turned t u e e' =
    ap (λ x. is_same u.server x && is_same u.busid t.busid) e
    ∙ ap (λ x. is_same u.server u.server && is_same u.busid x) e'
    ∙ ground (arith, is_same_refl u.server, is_same_refl u.busid)

append-AreDistinct :
    (t : Tracked) (ts : List Tracked)
    → AreDistinct ts
    → is_tracked t.server t.busid ts ≡ false
    → AreDistinct (ts ++ t ∷ [])
unfolding is_tracked
append-AreDistinct t [] v h = (refl, tt)
append-AreDistinct t (u ∷ ts) v h =
    elim (Bool-cases (is_same t.server u.server && is_same t.busid u.busid)) [
      | inl same ↦
          let (e, e') = mirrored t.server t.busid u.server u.busid same in
          absurd (ground (arith, h, turned t u e e'))
      | inr other ↦ (
        is_tracked-append u.server u.busid t ts ∙ ground (arith, v.0, other),
        append-AreDistinct t ts v.1 (ground (arith, h)),
      )
    ]

candidate-fresh :
    (server : Server) (ts : List Tracked) (ds : List UsbDevice) (d : UsbDevice)
    → candidate server ts ds ≡ some d
    → is_tracked server.name d.busid ts ≡ false
unfolding candidate
candidate-fresh server ts [] d h = cc
candidate-fresh server ts (x ∷ ds) d h =
    elim (Bool-cases (
      matches server.devices x.id_vendor x.id_product && not (is_tracked server.name x.busid ts))) [
        | inl e ↦
            let same : x ≡ d = cc (rw e at h) in
            ap (λ (y : UsbDevice). is_tracked server.name y.busid ts) (sym same) ∙ ground (arith, e)
        | inr e ↦ candidate-fresh server ts ds d (rw e at h)
      ]

module _ {K : Type 0} (sys : System K) (cfg : Config) where
  settled-Tries :
      (server : Server) (dev : UsbDevice) (found : Option ℕ × K) (d : Daemon K)
      → is_tracked server.name dev.busid d.attached ≡ false
      → Tries d.attached
          (settled sys cfg server dev found d).0
          (settled sys cfg server dev found d).1.attached
  unfolding settled
  settled-Tries server dev (none, k) d h = inl (refl, refl)
  settled-Tries server dev (some p, k) d h = inr (refl, (_, h, refl))

  attach-Tries :
      (rounds : ℕ) (server : Server) (dev : UsbDevice) (d : Daemon K)
      → is_tracked server.name dev.busid d.attached ≡ false
      → Tries d.attached
          (attach sys cfg rounds server dev d).0
          (attach sys cfg rounds server dev d).1.attached
  unfolding attach record_failure
  attach-Tries rounds server dev d h =
      elim (Result-cases (sys.attach server.host server.port dev.busid d.system).0) [
        | inr (x, e) ↦ rw (e, attach) (inl (refl, refl))
        | inl (u, e) ↦ rw (e, attach) (settled-Tries server dev _ d h)
      ]

  attach_one-Tries :
      (rounds : ℕ) (server : Server) (o : Option UsbDevice) (d : Daemon K)
      → ((x : UsbDevice) → o ≡ some x → is_tracked server.name x.busid d.attached ≡ false)
      → Tries d.attached
          (attach_one sys cfg rounds server o d).0
          (attach_one sys cfg rounds server o d).1.attached
  unfolding attach_one
  attach_one-Tries rounds server none d h = inl (refl, refl)
  attach_one-Tries rounds server (some x) d h = attach-Tries rounds server x d (h x refl)

  connect-Tries :
      (rounds : ℕ) (server : Server) (d : Daemon K)
      → Tries d.attached
          (connect sys cfg rounds server d).0
          (connect sys cfg rounds server d).1.attached
  unfolding connect listed record_failure clear_failure
  connect-Tries rounds server d =
      elim (Result-cases (sys.devlist server.host server.port d.system).0) [
        | inr (x, e) ↦ rw (e, listed) (inl (refl, refl))
        | inl (devices, e) ↦
            rw (e, listed)
              (attach_one-Tries rounds server (candidate server d.attached devices) _
                λ x found. candidate-fresh server d.attached devices x found)
      ]

  try_server-Tries :
      (rounds : ℕ) (server : Server) (d : Daemon K)
      → Tries d.attached
          (try_server sys cfg rounds server d).0
          (try_server sys cfg rounds server d).1.attached
  unfolding try_server
  try_server-Tries rounds server d = elim (Option-cases (lookup server.name d.backoff)) [
    | inl e ↦ rw (e, try_server) (connect-Tries rounds server d)
    | inr (b, e) ↦ elim (Bool-cases (ltb (sys.now d.system).0 b.next_try)) [
      | inl early ↦ rw (e, try_server) (rw early (inl (refl, refl)))
      | inr due ↦
          rw (e, try_server)
            (rw due (connect-Tries rounds server (record d { system = (sys.now d.system).1 })))
    ]
  ]

  Tries-AreDistinct :
      (ts ts' : List Tracked) (a : Bool) → Tries ts a ts' → AreDistinct ts → AreDistinct ts'
  Tries-AreDistinct ts ts' a (inl (off, same)) v = subst AreDistinct (sym same) v
  Tries-AreDistinct ts ts' a (inr (on, (t, fresh, more))) v =
      subst AreDistinct (sym more) (append-AreDistinct t ts v fresh)

  pub try_each-AreDistinct :
      (rounds : ℕ) (ss : List Server) (d : Daemon K)
      → AreDistinct d.attached
      → AreDistinct (try_each sys cfg rounds ss d).attached
  unfolding try_each
  try_each-AreDistinct rounds [] d v = v
  try_each-AreDistinct rounds (s ∷ ss) d v =
      let r = try_server sys cfg rounds s d in
      let v' = Tries-AreDistinct d.attached r.1.attached r.0 (try_server-Tries rounds s d) v in
      elim (Bool-cases (not s.auto_attach)) [
        | inl off ↦ rw off (try_each-AreDistinct rounds ss d v)
        | inr on ↦ rw on (elim (Bool-cases (r.0 && cfg.stop_after_first)) [
          | inl stop ↦ rw stop v'
          | inr go ↦ rw go (try_each-AreDistinct rounds ss r.1 v')
        ])
      ]

  -- With `stop_after_first`, a round over the servers attaches one device at most.
  pub try_each-length :
      (rounds : ℕ) (ss : List Server) (d : Daemon K)
      → cfg.stop_after_first ≡ true
      → length (try_each sys cfg rounds ss d).attached ≤ length d.attached + 1
  unfolding try_each
  try_each-length rounds [] d one = omega arith
  try_each-length rounds (s ∷ ss) d one = elim (Bool-cases (not s.auto_attach)) [
    | inl off ↦ rw off (try_each-length rounds ss d one)
    | inr on ↦ rw on (
        tried (try_server-Tries rounds s d)
          (try_each-length rounds ss (try_server sys cfg rounds s d).1 one))
  ]
    where
      tried :
          Tries d.attached
            (try_server sys cfg rounds s d).0
            (try_server sys cfg rounds s d).1.attached
          → length (try_each sys cfg rounds ss (try_server sys cfg rounds s d).1).attached
            ≤ length (try_server sys cfg rounds s d).1.attached + 1
          → length
              (if (try_server sys cfg rounds s d).0 && cfg.stop_after_first
                then (try_server sys cfg rounds s d).1
                else try_each sys cfg rounds ss (try_server sys cfg rounds s d).1).attached
            ≤ length d.attached + 1
      tried (inl (off, same)) rest = rw off (omega (arith, rest, ap length same))
      tried (inr (found, (t, fresh, more))) rest =
          let stop : ((try_server sys cfg rounds s d).0 && cfg.stop_after_first) ≡ true =
            ground (arith, found, one) in
          rw stop (omega (arith, ap length more, length-append d.attached (t ∷ [])))
