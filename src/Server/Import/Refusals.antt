-- ===== src/Server/Import/Refusals.antt =====
-- lib.rs: imports that are refused, and requests that arrive as bytes.
use padwire.Prelude.{
  ℕ, ◌<◌, ◌≡◌, refl, ap, ◌∙◌, true, false, ◌&&◌, not, Option, none, List, ◌++◌, length, map, Result,
  ok, inl, inr, Bool-cases, Option-cases,
}
use padwire.Usbip.Wire.Error.{busid_len}
use padwire.Usbip.Wire.Text.{IsText, HasNoNul}
use padwire.Usbip.Op.{
  encode_import_reply, encode_devlist_reply, encode_devlist_request, encode_import_request,
}
use padwire.Usbip.Io.Stream.{IoError, ErrorKind}
use padwire.Usbip.Io.Setup.Requests.{before, read_op_request_lem}
use padwire.Backend.Summary.{DeviceSummary, to_usbip}
use padwire.Server.Names.{Name, contains, insert}
use padwire.Server.Registry.{acquire}
use padwire.Server.Toggle.{Toggle, DeviceSource, gated, offered, is_suspended}
use padwire.Server.Toggle.Offer.{is_listed, is_listed-offered}
use padwire.Server.Import.{
  Opened, World, write_all, refuse, leased, import_listed, import_device, device_list, answer,
  handle,
}

module _ {D : Type 0} (source : DeviceSource (Opened D) IoError)
    (send : List ℕ → Option IoError) where
  pub write_all-dev : (b : List ℕ) (w : World D) → (write_all source send b w).1.dev ≡ w.dev
  unfolding write_all
  write_all-dev b w = elim (Option-cases (send b)) [
    | inl e ↦ rw (e, write_all) refl
    | inr (x, e) ↦ rw (e, write_all) refl
  ]

  -- The refusal of an import: its reply, and no device touched.
  abbrev pub IsRefusal : World D → Result IoError (Unit {0}) × World D → Type 0
  IsRefusal w r =
      (r.0 ≡ (refuse source send w).0)
      × (r.1.dev ≡ w.dev)
      × (r.1.written ≡ (refuse source send w).1.written)

  refuse-IsRefusal : (w : World D) → IsRefusal w (refuse source send w)
  unfolding refuse
  refuse-IsRefusal w = (refl, write_all-dev (encode_import_reply none) w, refl)

  busy-IsRefusal :
      (busid : Name) (w : World D)
      → contains busid w.registry.busy ≡ true
      → IsRefusal w (import_listed source send busid w)
  unfolding import_listed leased acquire insert
  busy-IsRefusal busid w there = rw (there, insert) (refuse-IsRefusal w)

  -- An import of a bus id that is not on the list, or that another client has imported, is refused,
  -- and its device is not touched.
  pub import_device-IsRefusal :
      (busid : Name) (w : World D) (ds : List DeviceSummary)
      → source.list ≡ ok ds
      → (is_listed busid ds && not (contains busid w.registry.busy)) ≡ false
      → IsRefusal w (import_device source send busid w)
  unfolding import_device
  import_device-IsRefusal busid w ds e h = elim (Bool-cases (is_listed busid ds)) [
    | inr off ↦ rw (e, import_device) (rw off (refuse-IsRefusal w))
    | inl on ↦
        rw (e, import_device)
          (rw on (elim (Bool-cases (contains busid w.registry.busy)) [
            | inl there ↦ busy-IsRefusal busid w there
            | inr absent ↦ cc (rw absent at (rw on at h))
          ]))
  ]

module _ {D : Type 0} (inner : DeviceSource (Opened D) IoError) (denied : IoError)
    (send : List ℕ → Option IoError) where
  gated-list :
      (toggle : Toggle) (ds : List DeviceSummary)
      → inner.list ≡ ok ds
      → (gated denied inner toggle).list ≡ ok (offered toggle ds)
  unfolding gated
  gated-list toggle ds e = rw e refl

  -- Behind the gate, an import of a device that is suspended is refused, and the device is not
  -- touched.
  pub import_device_suspended :
      (toggle : Toggle) (busid : Name) (w : World D) (ds : List DeviceSummary)
      → inner.list ≡ ok ds
      → is_suspended toggle busid ≡ true
      → IsRefusal
          (gated denied inner toggle)
          send
          w
          (import_device (gated denied inner toggle) send busid w)
  import_device_suspended toggle busid w ds e off =
      let hidden : is_listed busid (offered toggle ds) ≡ false =
        is_listed-offered toggle busid ds ∙ ap (λ b. not b && is_listed busid ds) off in
      import_device-IsRefusal (gated denied inner toggle) send busid w (offered toggle ds)
        (gated-list toggle ds e) (ap (λ b. b && not (contains busid w.registry.busy)) hidden)

module _ {D : Type 0} (source : DeviceSource (Opened D) IoError)
    (send : List ℕ → Option IoError) where
  sent :
      (b : List ℕ) (w : World D)
      → send b ≡ none
      → write_all source send b w ≡ (ok tt, record w { written = w.written ++ b })
  unfolding write_all
  sent b w e = rw (e, write_all) refl

  listed :
      (w : World D) (ds : List DeviceSummary)
      → source.list ≡ ok ds
      → send (encode_devlist_reply (map to_usbip ds)) ≡ none
      → device_list source send w
        ≡ (ok tt, record w { written = w.written ++ encode_devlist_reply (map to_usbip ds) })
  unfolding device_list
  listed w ds e s = rw (e, device_list) (sent (encode_devlist_reply (map to_usbip ds)) w s)

  -- From the bytes that a client sends, with more behind them: a list request is answered by the
  -- list of the source, and an import request for a bus id is the import of it.
  pub handle_lem :
      (w : World D) (ds : List DeviceSummary) (busid rest : List ℕ) (ending : ErrorKind)
      → source.list ≡ ok ds
      → send (encode_devlist_reply (map to_usbip ds)) ≡ none
      → IsText busid × HasNoNul busid × (length busid < busid_len)
      → (handle source send (before encode_devlist_request rest ending) w
          ≡ (ok tt, record w { written = w.written ++ encode_devlist_reply (map to_usbip ds) }))
        × (handle source send (before (encode_import_request busid) rest ending) w
            ≡ import_device source send busid w)
  unfolding handle answer
  handle_lem w ds busid rest ending e s text =
      let reads = read_op_request_lem busid rest ending text in
      (rw (reads.0, handle) (listed w ds e s), rw (reads.1, handle) refl)
