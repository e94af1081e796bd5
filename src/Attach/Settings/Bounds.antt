-- ===== src/Attach/Settings/Bounds.antt =====
-- config.rs: what holds of any settings that are accepted.
use padwire.Prelude.{
  ℕ, ◌≤◌, ◌≡◌, refl, ap, subst, false, ◌&&◌, not, Option, none, some, List, [], ◌∷◌, ◌++◌, All, leb,
  ltb, ◌==◌, Result, ok, err, arith, inl, inr, Bool-cases,
}
use padwire.Prelude.Int.{ℤ, pos, negsuc}
use padwire.Prelude.Text.{is_nil, is_same, is_same_refl, is_same-eq, trim}
use padwire.Attach.{Server}
use padwire.Attach.Toml.{Table, line_of, get}
use padwire.Attach.Toml.Lines
use padwire.Attach.Settings.{
  Section, Settings, ConfigError, and_then, reject_unknown, string, integer, boolean, seconds,
  port_from, devices_from, required, with_host, server_from, discovery_from, checked, attach_from,
  with_table, with_tables, is_server, names_distinct, finished, tables_of, parse, default_settings,
  default_section, server_keys, attach_keys, unwrap_or, k_poll_interval, k_retry_min, k_retry_max,
  k_connect_timeout, k_usbip, k_modprobe, k_stop_after_first, k_host, k_port, k_name, k_devices,
  k_auto_attach, k_server, k_discovery, k_attach,
}

-- What holds of a value, if there is one.
abbrev Ensures : {A : Type 0} → (A → Type 0) → Result ConfigError A → Type 0
Ensures P (ok a) = P a
Ensures P (err e) = Unit {0}

and_then-Ensures :
    {A B : Type 0} (P : B → Type 0) (r : Result ConfigError A) (f : A → Result ConfigError B)
    → ((a : A) → r ≡ ok a → Ensures P (f a))
    → Ensures P (and_then r f)
and_then-Ensures P (ok a) f h = h a refl
and_then-Ensures P (err e) f h = tt

ensured :
    {A : Type 0} (P : A → Type 0) (r : Result ConfigError A) (a : A) → Ensures P r → r ≡ ok a → P a
ensured P r a h e = subst (Ensures P) e h

abbrev InRange : ℕ → Type 0
InRange p = (1 ≤ p) × (p ≤ 65535)

port_from-InRange : (line : ℕ) (o : Option ℤ) → Ensures InRange (port_from line o)
unfolding port_from
port_from-InRange line none = (omega arith, omega arith)
port_from-InRange line (some (negsuc n)) = tt
port_from-InRange line (some (pos p)) = elim (Bool-cases (leb 1 p && leb p 65535)) [
  | inl e ↦ rw e (ground (arith, e), ground (arith, e))
  | inr e ↦ rw e tt
]

-- A server whose port is one and whose host is not blank.
abbrev pub IsServer : Server → Type 0
IsServer s = InRange s.port × (is_nil (trim s.host) ≡ false)

with_host-IsServer : (t : Table) (host : List ℕ) → Ensures IsServer (with_host t host)
unfolding with_host
with_host-IsServer t host =
    let port_of = and_then (integer t k_port) (port_from (line_of t k_port)) in
    let ports : Ensures InRange port_of =
      and_then-Ensures InRange (integer t k_port) (port_from (line_of t k_port))
        λ o e. port_from-InRange _ o in
    elim (Bool-cases (is_nil (trim host))) [
      | inl blank ↦ rw blank tt
      | inr there ↦ rw there (
          and_then-Ensures IsServer port_of _ λ port e.
            and_then-Ensures IsServer (devices_from (line_of t k_devices) (get t k_devices)) _
              λ devices e'. and_then-Ensures IsServer (string t k_name) _ λ name e''.
                and_then-Ensures IsServer (boolean t k_auto_attach) _
                  λ auto_attach e'''. (ensured InRange port_of port ports e, there))
    ]

server_from-IsServer : (t : Table) → Ensures IsServer (server_from t)
unfolding server_from
server_from-IsServer t = and_then-Ensures IsServer (reject_unknown t server_keys) _ λ u e.
    and_then-Ensures IsServer (and_then (string t k_host) (required t.line)) (with_host t)
      λ host e'. with_host-IsServer t host

-- Delays that are in order, and a pause between the ticks.
abbrev pub IsSection : Section → Type 0
IsSection a = (a.retry_min ≤ a.retry_max) × (1 ≤ a.poll_interval)

checked-IsSection : (t : Table) (a : Section) → Ensures IsSection (checked t a)
unfolding checked
checked-IsSection t a = elim (Bool-cases (ltb a.retry_max a.retry_min)) [
  | inl e ↦ rw e tt
  | inr e ↦ rw e (elim (Bool-cases (a.poll_interval == 0)) [
    | inl e' ↦ rw e' tt
    | inr e' ↦ rw e' (ground (arith, e), ground (arith, e'))
  ])
]

attach_from-IsSection : (t : Table) → Ensures IsSection (attach_from t)
unfolding attach_from
attach_from-IsSection t = and_then-Ensures IsSection (reject_unknown t attach_keys) _ λ u e.
    and_then-Ensures IsSection (seconds t k_poll_interval default_section.poll_interval) _
      λ poll_interval e1.
        and_then-Ensures IsSection (seconds t k_retry_min default_section.retry_min) _
          λ retry_min e2.
            and_then-Ensures IsSection (seconds t k_retry_max default_section.retry_max) _
              λ retry_max e3.
                and_then-Ensures IsSection
                  (seconds t k_connect_timeout default_section.connect_timeout) _
                  λ connect_timeout e4. and_then-Ensures IsSection (string t k_usbip) _ λ usbip e5.
                    and_then-Ensures IsSection (boolean t k_modprobe) _ λ modprobe e6.
                      and_then-Ensures IsSection (boolean t k_stop_after_first) _
                        λ stop_after_first e7. checked-IsSection t (record {
                          poll_interval = poll_interval;
                          retry_min = retry_min;
                          retry_max = retry_max;
                          connect_timeout = connect_timeout;
                          usbip = unwrap_or usbip default_section.usbip;
                          modprobe = unwrap_or modprobe default_section.modprobe;
                          stop_after_first =
                              unwrap_or stop_after_first default_section.stop_after_first;
                        })

abbrev AreFine : Settings → Type 0
AreFine cfg = All IsServer cfg.servers × IsSection cfg.attach

All-append :
    (ss : List Server) (s : Server) → All IsServer ss → IsServer s → All IsServer (ss ++ s ∷ [])
All-append [] s v h = (h, tt)
All-append (x ∷ ss) s v h = (v.0, All-append ss s v.1 h)

with_table-AreFine : (t : Table) (cfg : Settings) → AreFine cfg → Ensures AreFine (with_table t cfg)
unfolding with_table
with_table-AreFine t cfg v = elim (Bool-cases (is_same t.name k_server)) [
  | inl e ↦ rw e (
      and_then-Ensures AreFine (server_from t) _ λ s h. (
        All-append cfg.servers s v.0
            (ensured IsServer (server_from t) s (server_from-IsServer t) h),
        v.1,
      ))
  | inr e ↦ rw e (elim (Bool-cases (is_same t.name k_discovery)) [
    | inl e' ↦ rw e' (and_then-Ensures AreFine (discovery_from t) _ λ d h. v)
    | inr e' ↦ rw e' (elim (Bool-cases (is_same t.name k_attach)) [
      | inl e'' ↦ rw e'' (
          and_then-Ensures AreFine (attach_from t) _
            λ a h. (v.0, ensured IsSection (attach_from t) a (attach_from-IsSection t) h))
      | inr e'' ↦ rw e'' (elim (Bool-cases (is_nil t.name)) [ inl n ↦ rw n tt | inr n ↦ rw n tt ])
    ])
  ])
]

with_tables-AreFine :
    (ts : List Table) (cfg : Settings) → AreFine cfg → Ensures AreFine (with_tables ts cfg)
unfolding with_tables
with_tables-AreFine [] cfg v = v
with_tables-AreFine (t ∷ ts) cfg v =
    and_then-Ensures AreFine (with_table t cfg) (with_tables ts) λ cfg' e.
      with_tables-AreFine ts cfg'
        (ensured AreFine (with_table t cfg) cfg' (with_table-AreFine t cfg v) e)

-- No two servers have one name.
abbrev pub AreDistinct : List Server → Type 0
AreDistinct [] = Unit {0}
AreDistinct (s ∷ ss) = (is_server s.name ss ≡ false) × AreDistinct ss

-- Of servers before, none has the name of one behind.
abbrev Apart : List Server → List Server → Type 0
Apart [] ss = Unit {0}
Apart (b ∷ before) ss = (is_server b.name ss ≡ false) × Apart before ss

is_same_sym : (a b : List ℕ) → is_same a b ≡ false → is_same b a ≡ false
is_same_sym a b h = elim (Bool-cases (is_same b a)) [
  | inr e ↦ e
  | inl e ↦
      let same = is_same-eq b a e in
      absurd (ground (arith, h, ap (λ x. is_same a x) same, is_same_refl a))
]

-- One more server behind those that are apart.
Apart-behind :
    (before ss : List Server) (s : Server)
    → is_server s.name before ≡ false
    → Apart (before ++ s ∷ []) ss
    → Apart before (s ∷ ss) × (is_server s.name ss ≡ false)
unfolding is_server
Apart-behind [] ss s h v = (tt, v.0)
Apart-behind (b ∷ before) ss s h v =
    let rest = Apart-behind before ss s (ground (arith, h)) v.1 in
    ((ground (arith, v.0, is_same_sym b.name s.name (ground (arith, h))), rest.0), rest.1)

abbrev Splits : List Server → List Server → Type 0
Splits before ss = Apart before ss × AreDistinct ss

Apart-nil : (before : List Server) → Apart before []
unfolding is_server
Apart-nil [] = tt
Apart-nil (b ∷ before) = (refl, Apart-nil before)

names_distinct-Splits :
    (before ss : List Server) → Ensures (λ u. Splits before ss) (names_distinct before ss)
unfolding names_distinct
names_distinct-Splits before [] = (Apart-nil before, tt)
names_distinct-Splits before (s ∷ ss) = elim (Bool-cases (is_server s.name before)) [
  | inl e ↦ rw e tt
  | inr e ↦ rw e (
      joined (names_distinct (before ++ s ∷ []) ss) (names_distinct-Splits (before ++ s ∷ []) ss) e)
]
  where
    joined :
        (r : Result ConfigError (Unit {0}))
        → Ensures (λ u. Splits (before ++ s ∷ []) ss) r
        → is_server s.name before ≡ false
        → Ensures (λ u. Splits before (s ∷ ss)) r
    joined (err x) v h = tt
    joined (ok u) v h = let (apart, fresh) = Apart-behind before ss s h v.0 in (apart, (fresh, v.1))

-- What is checked of settings, taken together.
abbrev pub IsSettings : Settings → Type 0
IsSettings cfg =
    All IsServer cfg.servers
    × IsSection cfg.attach
    × ((is_nil cfg.servers && not cfg.discovery.mdns) ≡ false)
    × AreDistinct cfg.servers

finished-IsSettings : (cfg : Settings) → AreFine cfg → Ensures IsSettings (finished cfg)
unfolding finished
finished-IsSettings cfg v = elim (Bool-cases (is_nil cfg.servers && not cfg.discovery.mdns)) [
  | inl e ↦ rw e tt
  | inr e ↦ rw e (
      and_then-Ensures IsSettings (names_distinct [] cfg.servers) _ λ u h. (
        v.0,
        v.1,
        e,
        (ensured (λ u. Splits [] cfg.servers) (names_distinct [] cfg.servers) u
            (names_distinct-Splits [] cfg.servers) h).1,
      ))
]

-- Whatever text is accepted, each server has a port from 1 to 65535 and a host that is not blank, no
-- two have one name, there is a server or discovery is on, the shortest delay is no longer than the
-- longest, and the pause between ticks is a second at least.
pub parse-IsSettings : (text : List ℕ) (cfg : Settings) → parse text ≡ ok cfg → IsSettings cfg
unfolding parse
parse-IsSettings text cfg h =
    ensured IsSettings (parse text) cfg
      (and_then-Ensures IsSettings (tables_of (Lines.parse text)) _ λ ts e.
        and_then-Ensures IsSettings (with_tables ts default_settings) finished λ found e'.
          finished-IsSettings found (
            ensured AreFine (with_tables ts default_settings) found
              (with_tables-AreFine ts default_settings (tt, (omega arith, omega arith))) e'))
      h
