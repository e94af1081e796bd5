-- ===== src/Attach/Adopts.antt =====
-- main.rs, `adopt_existing`: what a daemon that has just started takes over.
use padwire.Prelude.{
  ℕ, ◌≡◌, refl, ap, sym, ◌∙◌, Bool, true, false, ◌||◌, List, [], ◌∷◌, ◌++◌, ◌==◌, if◌then◌else◌,
  arith, inl, inr, Bool-cases,
}
use padwire.Prelude.Text.{same_ignoring_case}
use padwire.Backend.Descriptors.Interfaces.{has}
use padwire.Attach.{System, Config, Daemon, Server, Tracked, Record, occupied_ports}

-- The name of the first server whose host is that of a record, or the host itself.
unfoldable pub server_of : List ℕ → List Server → List ℕ
server_of host [] = host
server_of host (s ∷ ss) = if same_ignoring_case s.host host then s.name else server_of host ss

-- The attachments that a record explains, for ports that are busy.
unfoldable pub adopted : List Server → List ℕ → List Record → List Tracked
unfolding server_of
adopted servers used [] = []
adopted servers used (r ∷ rs) =
    let rest = adopted servers used rs in
    if has r.port used
    then record { server = server_of r.host servers; host = r.host; busid = r.busid; port = r.port }
      ∷ rest
    else rest

unfoldable pub has_port : ℕ → List Tracked → Bool
has_port n [] = false
has_port n (t ∷ ts) = t.port == n || has_port n ts

-- Busy ports that no record explains; `text_of` renders the bus id `vhci:` and the port.
unfoldable pub unexplained : (ℕ → List ℕ) → List Tracked → List ℕ → List Tracked
unfolding has_port
unexplained text_of known [] = []
unexplained text_of known (n ∷ ns) =
    let rest = unexplained text_of known ns in
    let unknown = 117 ∷ 110 ∷ 107 ∷ 110 ∷ 111 ∷ 119 ∷ 110 ∷ [] in
    if has_port n known
    then rest
    else record { server = unknown; host = unknown; busid = text_of n; port = n } ∷ rest

unfoldable pub adopt_existing :
    {K : Type 0} → System K → Config → (ℕ → List ℕ) → Daemon K → Daemon K
unfolding adopted unexplained
adopt_existing sys cfg text_of d =
    let used = occupied_ports sys cfg d.system in
    let known = adopted cfg.servers used (sys.records d.system) in
    record d { attached = d.attached ++ (known ++ unexplained text_of known used) }

has_port-append :
    (n : ℕ) (xs ys : List Tracked) → has_port n (xs ++ ys) ≡ (has_port n xs || has_port n ys)
unfolding has_port
has_port-append n [] ys = refl
has_port-append n (x ∷ xs) ys = ground (arith, has_port-append n xs ys)

-- A record is taken over only for a busy port.
has_port-adopted :
    (servers : List Server) (used : List ℕ) (rs : List Record) (n : ℕ)
    → has_port n (adopted servers used rs) ≡ true
    → has n used ≡ true
unfolding adopted has_port
has_port-adopted servers used [] n h = absurd (ground (arith, h))
has_port-adopted servers used (r ∷ rs) n h = elim (Bool-cases (has r.port used)) [
  | inr free ↦ has_port-adopted servers used rs n (rw free at h)
  | inl busy ↦ elim (Bool-cases (r.port == n)) [
    | inl same ↦ let e : r.port ≡ n = ground (arith, same) in ap (λ p. has p used) (sym e) ∙ busy
    | inr other ↦ has_port-adopted servers used rs n (rw other at (rw busy at h))
  ]
]

has_port-unexplained :
    (text_of : ℕ → List ℕ) (known : List Tracked) (used : List ℕ) (n : ℕ)
    → (has_port n known || has_port n (unexplained text_of known used))
      ≡ (has_port n known || has n used)
unfolding unexplained has_port
has_port-unexplained text_of known [] n = refl
has_port-unexplained text_of known (p ∷ used) n =
    let rest = has_port-unexplained text_of known used n in
    elim (Bool-cases (has_port p known)) [
      | inl seen ↦ elim (Bool-cases (p == n)) [
        | inl same ↦
            let e : p ≡ n = ground (arith, same) in
            let seen' : has_port n known ≡ true = ap (λ q. has_port q known) (sym e) ∙ seen in
            ground (arith, seen')
        | inr other ↦ rw seen (ground (arith, rest, other))
      ]
      | inr fresh ↦ rw fresh (ground (arith, rest))
    ]

-- A daemon that has tracked nothing yet tracks, after it has taken over what it finds, exactly the
-- ports that are busy, whatever records of them can be read.
pub has_port-adopt_existing :
    {K : Type 0} (sys : System K) (cfg : Config) (text_of : ℕ → List ℕ) (d : Daemon K) (n : ℕ)
    → d.attached ≡ []
    → has_port n (adopt_existing sys cfg text_of d).attached
      ≡ has n (occupied_ports sys cfg d.system)
unfolding adopt_existing
has_port-adopt_existing sys cfg text_of d n fresh =
    let used = occupied_ports sys cfg d.system in
    let known = adopted cfg.servers used (sys.records d.system) in
    ap (λ ts. has_port n (ts ++ (known ++ unexplained text_of known used))) fresh
    ∙ has_port-append n known (unexplained text_of known used)
    ∙ has_port-unexplained text_of known used n
    ∙ ground (arith, has_port-adopted cfg.servers used (sys.records d.system) n)
