-- ===== src/Backend/Usbfs/Interface.antt =====
-- usbfs.rs: the endpoints to prefetch, and the device under the server's interface.
use padwire.Prelude.{
  ℕ, ◌≡◌, refl, ap, sym, ◌∙◌, Bool, true, false, ◌&&◌, ◌||◌, not, none, some, List, [], ◌∷◌, ◌++◌,
  ◌==◌, if◌then◌else◌, arith, inl, inr, Bool-cases, or_assoc,
}
use padwire.Backend.{UsbBackend}
use padwire.Backend.Descriptors.{
  AltSetting, EndpointDescriptor, ConfigDescriptor, TransferType, interrupt, transfer_type, is_in,
  config, primary_alt_settings,
}
use padwire.Backend.Usbfs.Device.{Kernel, State, Fixed, submit, unlink, reap}

abbrev is_interrupt : TransferType → Bool
is_interrupt interrupt = true
is_interrupt _ = false

unfoldable pub has_address : ℕ → List (ℕ × ℕ) → Bool
has_address a [] = false
has_address a ((b, m) ∷ out) = b == a || has_address a out

unfoldable pub is_polled : EndpointDescriptor → Bool
is_polled ep = is_in ep && is_interrupt (transfer_type ep)

unfoldable pub push_polled : List EndpointDescriptor → List (ℕ × ℕ) → List (ℕ × ℕ)
unfolding is_polled
push_polled [] out = out
push_polled (ep ∷ eps) out = push_polled eps (
    if is_polled ep && not (has_address ep.address out)
    then out ++ (ep.address, ep.max_packet_size) ∷ []
    else out)

unfoldable pub polled_of : List AltSetting → List (ℕ × ℕ) → List (ℕ × ℕ)
unfolding push_polled
polled_of [] out = out
polled_of (alt ∷ alts) out = polled_of alts (push_polled alt.endpoints out)

unfoldable pub interrupt_in_endpoints : Fixed → List (ℕ × ℕ)
unfolding polled_of
interrupt_in_endpoints fixed = elim (config fixed.descriptors fixed.config_value) [
  | none ↦ []
  | some c ↦ polled_of (primary_alt_settings c) []
]

unfoldable pub usbfs_backend : {K : Type 0} → Kernel K → Fixed → UsbBackend (State K)
unfolding interrupt_in_endpoints
usbfs_backend sys fixed = record {
  submit = submit sys fixed;
  unlink = unlink sys fixed;
  reap = reap sys fixed;
  interrupt_in_endpoints = interrupt_in_endpoints fixed;
}

-- No address stands twice in a list.
abbrev pub AreDistinct : List (ℕ × ℕ) → Type 0
AreDistinct [] = Unit {0}
AreDistinct ((a, m) ∷ out) = (has_address a out ≡ false) × AreDistinct out

-- Whether an endpoint to poll has an address.
abbrev pub polls_one : ℕ → List EndpointDescriptor → Bool
polls_one a [] = false
polls_one a (ep ∷ eps) = is_polled ep && ep.address == a || polls_one a eps

abbrev pub polls : ℕ → List AltSetting → Bool
polls a [] = false
polls a (alt ∷ alts) = polls_one a alt.endpoints || polls a alts

has_address-append :
    (a b m : ℕ) (out : List (ℕ × ℕ))
    → has_address a (out ++ (b, m) ∷ []) ≡ (has_address a out || b == a)
unfolding has_address
has_address-append a b m [] = ground arith
has_address-append a b m ((c, n) ∷ out) = ground (arith, has_address-append a b m out)

append-AreDistinct :
    (b m : ℕ) (out : List (ℕ × ℕ))
    → AreDistinct out
    → has_address b out ≡ false
    → AreDistinct (out ++ (b, m) ∷ [])
unfolding has_address
append-AreDistinct b m [] v h = (refl, tt)
append-AreDistinct b m ((c, n) ∷ out) v h = (
  has_address-append c b m out ∙ ground (arith, v.0, h),
  append-AreDistinct b m out v.1 (ground (arith, h)),
)

push_polled-AreDistinct :
    (eps : List EndpointDescriptor) (out : List (ℕ × ℕ))
    → AreDistinct out
    → AreDistinct (push_polled eps out)
unfolding push_polled
push_polled-AreDistinct [] out v = v
push_polled-AreDistinct (ep ∷ eps) out v = elim (Bool-cases (is_polled ep)) [
  | inr e ↦ rw e (push_polled-AreDistinct eps out v)
  | inl e ↦ rw e (elim (Bool-cases (has_address ep.address out)) [
    | inl old ↦ rw old (push_polled-AreDistinct eps out v)
    | inr fresh ↦ rw fresh (
        push_polled-AreDistinct eps (out ++ (ep.address, ep.max_packet_size) ∷ [])
          (append-AreDistinct ep.address ep.max_packet_size out v fresh))
  ])
]

polled_of-AreDistinct :
    (alts : List AltSetting) (out : List (ℕ × ℕ))
    → AreDistinct out
    → AreDistinct (polled_of alts out)
unfolding polled_of
polled_of-AreDistinct [] out v = v
polled_of-AreDistinct (alt ∷ alts) out v =
    polled_of-AreDistinct alts (push_polled alt.endpoints out)
      (push_polled-AreDistinct alt.endpoints out v)

seen :
    (a b : ℕ) (out : List (ℕ × ℕ))
    → has_address b out ≡ true
    → (has_address a out || b == a) ≡ has_address a out
unfolding has_address
seen a b [] h = cc
seen a b ((c, m) ∷ out) h = ground (arith, seen a b out)

has_address-push_polled :
    (a : ℕ) (eps : List EndpointDescriptor) (out : List (ℕ × ℕ))
    → has_address a (push_polled eps out) ≡ (has_address a out || polls_one a eps)
unfolding push_polled
has_address-push_polled a [] out = ground arith
has_address-push_polled a (ep ∷ eps) out = elim (Bool-cases (is_polled ep)) [
  | inr e ↦ rw e (has_address-push_polled a eps out)
  | inl e ↦ rw e (elim (Bool-cases (has_address ep.address out)) [
    | inl old ↦ rw old (
        has_address-push_polled a eps out
        ∙ ap (λ b. b || polls_one a eps) (sym (seen a ep.address out old))
        ∙ or_assoc (has_address a out) (ep.address == a) (polls_one a eps))
    | inr fresh ↦
        let out' = out ++ (ep.address, ep.max_packet_size) ∷ [] in
        rw fresh (
          has_address-push_polled a eps out'
          ∙ ap (λ b. b || polls_one a eps) (has_address-append a ep.address ep.max_packet_size out)
          ∙ or_assoc (has_address a out) (ep.address == a) (polls_one a eps))
  ])
]

has_address-polled_of :
    (a : ℕ) (alts : List AltSetting) (out : List (ℕ × ℕ))
    → has_address a (polled_of alts out) ≡ (has_address a out || polls a alts)
unfolding polled_of
has_address-polled_of a [] out = ground arith
has_address-polled_of a (alt ∷ alts) out =
    has_address-polled_of a alts (push_polled alt.endpoints out)
    ∙ ap (λ b. b || polls a alts) (has_address-push_polled a alt.endpoints out)
    ∙ or_assoc (has_address a out) (polls_one a alt.endpoints) (polls a alts)

-- The endpoints to prefetch of a device in a known configuration: no address stands twice in the
-- list, and one stands in it exactly when a primary alternate setting has an interrupt IN endpoint
-- of that address.
pub interrupt_in_endpoints-polls :
    (fixed : Fixed) (c : ConfigDescriptor) (a : ℕ)
    → config fixed.descriptors fixed.config_value ≡ some c
    → AreDistinct (interrupt_in_endpoints fixed)
      × (has_address a (interrupt_in_endpoints fixed) ≡ polls a (primary_alt_settings c))
unfolding interrupt_in_endpoints has_address
interrupt_in_endpoints-polls fixed c a e =
    rw (e, interrupt_in_endpoints)
      (
        polled_of-AreDistinct (primary_alt_settings c) [] tt,
        has_address-polled_of a (primary_alt_settings c) [],
      )
