-- ===== src/Server/Toggle/Offer.antt =====
-- toggle.rs: what importers see of a device that is suspended, and of one that is not.
use padwire.Prelude.{
  ◌≡◌, refl, ap, sym, ◌∙◌, Bool, true, false, ◌&&◌, ◌||◌, not, List, [], ◌∷◌, arith, inl, inr,
  Bool-cases,
}
use padwire.Server.Names.{
  Name, is_same, is_same_refl, is_same-eq, contains, contains-insert, contains-filtered, insert,
  remove,
}
use padwire.Backend.Summary.{DeviceSummary}
use padwire.Server.Toggle.{Toggle, is_suspended, suspend, resume, offered}

-- Whether a bus id is on a list of devices, as `import` asks.
unfoldable pub is_listed : Name → List DeviceSummary → Bool
is_listed busid [] = false
is_listed busid (d ∷ ds) = is_same d.busid busid || is_listed busid ds

-- The list of a gated source shows a device just when it is there and not suspended.
pub is_listed-offered :
    (toggle : Toggle) (busid : Name) (ds : List DeviceSummary)
    → is_listed busid (offered toggle ds) ≡ (not (is_suspended toggle busid) && is_listed busid ds)
unfolding is_listed offered
is_listed-offered toggle busid [] = ground arith
is_listed-offered toggle busid (d ∷ ds) = elim (Bool-cases (is_same d.busid busid)) [
  | inl same ↦
      let e : is_suspended toggle d.busid ≡ is_suspended toggle busid =
        ap (is_suspended toggle) (is_same-eq d.busid busid same) in
      ground (arith, e, same, is_listed-offered toggle busid ds)
  | inr other ↦ ground (arith, other, is_listed-offered toggle busid ds)
]

taken : (s c : Bool) → (s ≡ true → c ≡ false) → (not s && (s || c)) ≡ c
taken true c h = sym (h refl)
taken false c h = refl

-- Suspending hides one device, and resuming brings just that one back.
pub resume-suspend :
    (toggle : Toggle) (busid other : Name)
    → is_suspended toggle busid ≡ false
    → (is_suspended (suspend toggle busid).1 other
        ≡ (is_same busid other || is_suspended toggle other))
      × ((suspend toggle busid).0 ≡ true)
      × (is_suspended (resume (suspend toggle busid).1 busid).1 other ≡ is_suspended toggle other)
      × ((resume (suspend toggle busid).1 busid).0 ≡ true)
unfolding is_suspended suspend resume insert remove
resume-suspend toggle busid other h = (
  contains-insert other busid toggle.suspended,
  rw (h, insert) refl,
  contains-filtered other busid (insert busid toggle.suspended).1
      ∙ ap (λ x. not (is_same busid other) && x) (contains-insert other busid toggle.suspended)
      ∙ taken (is_same busid other) (contains other toggle.suspended)
          (λ same. ap (λ x. contains x toggle.suspended) (sym (is_same-eq busid other same)) ∙ h),
  contains-insert busid busid toggle.suspended
      ∙ ap (λ x. x || contains busid toggle.suspended) (is_same_refl busid),
)
