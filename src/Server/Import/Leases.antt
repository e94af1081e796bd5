-- ===== src/Server/Import/Leases.antt =====
-- lib.rs: the lease of an import.
use padwire.Prelude.{
  ℕ, ◌≡◌, refl, ap, sym, ◌∙◌, Bool, true, false, ◌&&◌, ◌||◌, not, Option, none, some, List, ◌∷◌,
  inl, inr, Bool-cases, Option-cases, Result-cases,
}
use padwire.Usbip.Op.{encode_import_reply}
use padwire.Usbip.Io.Stream.{IoError}
use padwire.Backend.Summary.{to_usbip}
use padwire.Server.Names.{Name, is_same, is_same-eq, contains, insert, remove, contains-filtered}
use padwire.Server.Registry.{Registry, acquire, drop}
use padwire.Server.Toggle.{DeviceSource}
use padwire.Server.Toggle.Offer.{is_listed}
use padwire.Server.Import.{
  Opened, World, write_all, refuse, export, claim, open_leased, leased, import_listed,
  import_device,
}

removed : (s c : Bool) → (s ≡ true → c ≡ false) → (not s && (s || c)) ≡ c
removed true c h = sym (h refl)
removed false c h = refl

given_back :
    (b busid : Name) (names : List Name)
    → contains busid names ≡ false
    → contains b (drop (record { busid = busid }) (record { busy = busid ∷ names })).busy
      ≡ contains b names
unfolding drop remove contains
given_back b busid names absent =
    contains-filtered b busid (busid ∷ names)
    ∙ removed (is_same busid b) (contains b names)
        λ same. ap (λ x. contains x names) (sym (is_same-eq busid b same)) ∙ absent

module _ {D : Type 0} (source : DeviceSource (Opened D) IoError)
    (send : List ℕ → Option IoError) where
  write_all-registry :
      (b : List ℕ) (w : World D) → (write_all source send b w).1.registry ≡ w.registry
  unfolding write_all
  write_all-registry b w = elim (Option-cases (send b)) [
    | inl e ↦ rw (e, write_all) refl
    | inr (x, e) ↦ rw (e, write_all) refl
  ]

  refuse-registry : (w : World D) → (refuse source send w).1.registry ≡ w.registry
  unfolding refuse
  refuse-registry w = write_all-registry (encode_import_reply none) w

  export-registry :
      (dev : Opened D) (w : World D) → (export source send dev w).1.registry ≡ w.registry
  unfolding export
  export-registry dev w =
      let reply = encode_import_reply (some (to_usbip dev.summary)) in
      elim (Result-cases (write_all source send reply w).0) [
        | inl (u, e) ↦ rw (e, export) (write_all-registry reply w)
        | inr (x, e) ↦ rw (e, export) (write_all-registry reply w)
      ]

  claim-registry :
      (dev : Opened D) (w : World D) → (claim source send dev w).1.registry ≡ w.registry
  unfolding claim
  claim-registry dev w = elim (Result-cases (dev.claim_all w.dev).0) [
    | inl (u, e) ↦ rw (e, claim) (export-registry dev (record w { dev = (dev.claim_all w.dev).1 }))
    | inr (x, e) ↦ rw (e, claim) (refuse-registry (record w { dev = (dev.claim_all w.dev).1 }))
  ]

  open_leased-registry :
      (busid : Name) (w : World D) → (open_leased source send busid w).1.registry ≡ w.registry
  unfolding open_leased
  open_leased-registry busid w = elim (Result-cases (source.open_device busid)) [
    | inl (dev, e) ↦ rw (e, open_leased) (claim-registry dev w)
    | inr (x, e) ↦ rw (e, open_leased) (refuse-registry w)
  ]

  import_listed-registry :
      (busid b : Name) (w : World D)
      → contains b (import_listed source send busid w).1.registry.busy ≡ contains b w.registry.busy
  unfolding import_listed leased acquire insert
  import_listed-registry busid b w = elim (Bool-cases (contains busid w.registry.busy)) [
    | inl there ↦ rw (there, insert) (ap (λ (r : Registry). contains b r.busy) (refuse-registry w))
    | inr absent ↦
        let taken : World D = record w { registry = record { busy = busid ∷ w.registry.busy } } in
        rw (absent, insert)
          (ap (λ (r : Registry). contains b (drop (record { busid = busid }) r).busy)
              (open_leased-registry busid taken)
            ∙ given_back b busid w.registry.busy absent)
  ]

  -- An import that ends, in whatever way, leaves the same devices leased as before it.
  pub import_device-registry :
      (busid b : Name) (w : World D)
      → contains b (import_device source send busid w).1.registry.busy ≡ contains b w.registry.busy
  unfolding import_device
  import_device-registry busid b w = elim (Result-cases source.list) [
    | inr (x, e) ↦ rw (e, import_device) refl
    | inl (ds, e) ↦ elim (Bool-cases (is_listed busid ds)) [
      | inl on ↦ rw (e, import_device) (rw on (import_listed-registry busid b w))
      | inr off ↦
          rw (e, import_device)
            (rw off (ap (λ (r : Registry). contains b r.busy) (refuse-registry w)))
    ]
  ]
