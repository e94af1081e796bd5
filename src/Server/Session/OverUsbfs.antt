-- ===== src/Server/Session/OverUsbfs.antt =====
-- session.rs over usbfs.rs: the device that the server really runs completes a URB at most once,
-- if the kernel does.
use padwire.Prelude.{
  ℕ, ◌+◌, ◌≤◌, ◌<◌, ◌≡◌, ap, sym, ◌∙◌, Bool, Option, some, List, ltb, ◌==◌, Result, ok, err, arith,
  inl, inr, Bool-cases, Option-cases, Result-cases,
}
use padwire.Backend.{UrbRequest, UrbCompletion, SubmitError}
use padwire.Backend.Usbfs.Requests.{
  urb_type_for, classify, Special, set_address, set_configuration, set_interface, clear_halt,
}
use padwire.Backend.Usbfs.Device.{
  Kernel, State, Fixed, PendingUrb, urb_of, contains_key, payload_len, completion_of, remove,
  eagain, hand_over, submit_plain, tweak, submit_typed, submit, unlink, reap,
}
use padwire.Backend.Usbfs.Interface.{usbfs_backend}
use padwire.Server.Chord.{Detector}
use padwire.Server.Prefetch.{internal_base}
use padwire.Server.Session.Accounts.{one, CompletesOnce}
use padwire.Server.Session.Once.{answers}
use padwire.Server.Session.Runs.{Event, submits, run, begin, answers-le-submits}

-- A kernel that hands back each URB it has accepted at most once: `held` counts, for each seqnum,
-- those that it has.
pub record HandsBackOnce {K : Type 0} (sys : Kernel K) (held : K → ℕ → ℕ) : Type 0 where
  pub accepts :
      (p : PendingUrb) (k : K) (s : ℕ)
      → held (sys.submit_urb p k).1 s ≤ held k s + one (p.seqnum == s)
  pub refuses :
      (p : PendingUrb) (k : K) (s : ℕ) (e : ℕ)
      → (sys.submit_urb p k).0 ≡ err e
      → held (sys.submit_urb p k).1 s ≤ held k s
  pub discards : (n : ℕ) (k : K) (s : ℕ) → held (sys.discard_urb n k).1 s ≤ held k s
  pub hands_back :
      (k : K) (s : ℕ) (p : PendingUrb)
      → (sys.reap_urb k).0 ≡ ok (some p)
      → held (sys.reap_urb k).1 s + one (p.seqnum == s) ≤ held k s
  pub waits : (k : K) (s : ℕ) → held (sys.reap_urb k).1 s ≤ held k s
  pub changes : (x : Special) (k : K) (s : ℕ) → held (sys.change x k).1 s ≤ held k s

module _ {K : Type 0} (sys : Kernel K) (fixed : Fixed) (held : K → ℕ → ℕ)
    (v : HandsBackOnce sys held) where
  -- A submit adds at most its own URB, and none if it fails.
  abbrev Adds : UrbRequest → ℕ → State K → Result SubmitError (Unit {0}) × State K → Type 0
  Adds req n s r =
      (held r.1.kernel n ≤ held s.kernel n + one (req.seqnum == n))
      × ((e : SubmitError) → r.0 ≡ err e → held r.1.kernel n ≤ held s.kernel n)

  hand_over-Adds :
      (req : UrbRequest) (address t : ℕ) (n : ℕ) (s : State K)
      → Adds req n s (hand_over sys fixed (urb_of fixed req address t) s)
  unfolding hand_over urb_of
  hand_over-Adds req address t n s =
      let p = urb_of fixed req address t in
      elim (Result-cases (sys.submit_urb p s.kernel).0) [
        | inl (u, h) ↦ rw (h, hand_over) (v.accepts p s.kernel n, λ e bad. cc (bad))
        | inr (c, h) ↦
            let few = v.refuses p s.kernel n c h in
            rw (h, hand_over) (omega (arith, few), λ e same. few)
      ]

  unchanged : (req : UrbRequest) (n : ℕ) (s : State K) (e : SubmitError) → Adds req n s (err e, s)
  unchanged req n s e = (omega arith, λ e same. omega arith)

  submit_plain-Adds :
      (req : UrbRequest) (address t n : ℕ) (s : State K)
      → Adds req n s (submit_plain sys fixed req address t s)
  unfolding submit_plain
  submit_plain-Adds req address t n s =
      elim (Bool-cases (ltb fixed.max_transfer (payload_len req t))) [
        | inl large ↦ rw large (unchanged req n s _)
        | inr fits ↦ rw fits (elim (Bool-cases (contains_key req.seqnum s.pending)) [
          | inl live ↦ rw live (unchanged req n s _)
          | inr fresh ↦ rw fresh (hand_over-Adds req address t n s)
        ])
      ]

  changed :
      (req : UrbRequest) (n : ℕ) (s : State K) (x : Special) (e : SubmitError)
      → Adds req n s (err e, record s { kernel = (sys.change x s.kernel).1 })
  changed req n s x e = let few = v.changes x s.kernel n in (omega (arith, few), λ e same. few)

  tweak-Adds :
      (req : UrbRequest) (x : Special) (n : ℕ) (s : State K) → Adds req n s (tweak sys fixed x s)
  unfolding tweak
  tweak-Adds req (set_address a) n s = unchanged req n s _
  tweak-Adds req (set_configuration c) n s = changed req n s (set_configuration c) _
  tweak-Adds req (set_interface i a) n s = changed req n s (set_interface i a) _
  tweak-Adds req (clear_halt a) n s = changed req n s (clear_halt a) _

  submit_typed-Adds :
      (req : UrbRequest) (address t n : ℕ) (s : State K)
      → Adds req n s (submit_typed sys fixed req address t s)
  unfolding submit_typed
  submit_typed-Adds req address t n s = elim (Bool-cases (t == 2)) [
    | inr e ↦ rw e (submit_plain-Adds req address t n s)
    | inl e ↦ rw e (elim (Option-cases (classify req.setup)) [
      | inl plain ↦ rw plain (submit_plain-Adds req address t n s)
      | inr (x, special) ↦ rw special (tweak-Adds req x n s)
    ])
  ]

  submit-Adds : (req : UrbRequest) (n : ℕ) (s : State K) → Adds req n s (submit sys fixed req s)
  unfolding submit
  submit-Adds req n s = elim (Result-cases (urb_type_for fixed.types req.ep req.dir)) [
    | inl ((address, t), e) ↦ rw (e, submit) (submit_typed-Adds req address t n s)
    | inr (x, e) ↦ rw (e, submit) (unchanged req n s x)
  ]

  unlink-held :
      (m : ℕ) (s : State K) (n : ℕ) → held (unlink sys fixed m s).1.kernel n ≤ held s.kernel n
  unfolding unlink
  unlink-held m s n = elim (Bool-cases (contains_key m s.pending)) [
    | inl live ↦ rw live (v.discards m s.kernel n)
    | inr gone ↦ rw gone (omega arith)
  ]

  reap-held : (s : State K) (n : ℕ) → held (reap sys fixed s).1.kernel n ≤ held s.kernel n
  unfolding reap
  reap-held s n = elim (Result-cases (sys.reap_urb s.kernel).0) [
    | inr (e, h) ↦ rw (h, reap) (v.waits s.kernel n)
    | inl (o, h) ↦ elim (Option-cases o) [
      | inl e ↦ rw (h ∙ ap ok e, reap) (v.waits s.kernel n)
      | inr (p, e) ↦ rw (h ∙ ap ok e, reap) (v.waits s.kernel n)
    ]
  ]

  reap_completes :
      (s : State K) (n : ℕ) (c : UrbCompletion)
      → (reap sys fixed s).0 ≡ ok (some c)
      → held (reap sys fixed s).1.kernel n + one (c.seqnum == n) ≤ held s.kernel n
  unfolding reap completion_of
  reap_completes s n c done = elim (Result-cases (sys.reap_urb s.kernel).0) [
    | inr (e, h) ↦ elim (Bool-cases (e == eagain)) [
      | inl again ↦ cc (rw again at (rw (h, reap) at done))
      | inr bad ↦ cc (rw bad at (rw (h, reap) at done))
    ]
    | inl (o, h) ↦ elim (Option-cases o) [
      | inl e ↦ cc (rw (h ∙ ap ok e, reap) at done)
      | inr (p, e) ↦
          let back = h ∙ ap ok e in
          let same : completion_of p (remove p.seqnum s.pending).0 ≡ c =
            cc (rw (back, reap) at done) in
          let n_of : p.seqnum ≡ c.seqnum = ap (λ (x : UrbCompletion). x.seqnum) same in
          rw (back, reap) (rw (sym n_of) (v.hands_back s.kernel n p back))
    ]
  ]

  -- The usbfs device completes each URB at most once, over a kernel that does.
  pub usbfs_backend-CompletesOnce : CompletesOnce (usbfs_backend sys fixed) (λ s n. held s.kernel n)
  unfolding usbfs_backend
  usbfs_backend-CompletesOnce = record {
    accepts = λ r d n. (submit-Adds r n d).0;
    refuses = λ r d n. (submit-Adds r n d).1;
    unlinks = unlink-held;
    reaps = reap_completes;
    waits = reap-held;
  }

  -- The server's session over the usbfs device: a seqnum of the client below the internal range is
  -- answered at most as often as it was submitted, over any run, if the kernel hands back each URB
  -- at most once and holds none of that seqnum at the start.
  pub answers-le-submits-usbfs :
      (n : ℕ) (events : List Event) (prefetching : Bool) (det : Option Detector) (s : State K)
      → n < internal_base
      → held s.kernel n ≡ 0
      → answers n
          (run
            (usbfs_backend sys fixed)
            events
            (begin (usbfs_backend sys fixed) prefetching det s)).session.posted
        ≤ submits n events
  answers-le-submits-usbfs n events prefetching det s low none_held =
      answers-le-submits (usbfs_backend sys fixed) (λ s n. held s.kernel n)
        usbfs_backend-CompletesOnce n events prefetching det s low none_held
