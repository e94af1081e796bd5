-- ===== src/Attach/Settings.antt =====
-- crates/usbfwd-attach/src/config.rs: the settings that are read from the tables of a file. A duration
-- is the number of its seconds. Reading the file is left out, and so is the path in an error.
pub mod Bounds
pub mod Examples
use padwire.Prelude.{
  ℕ, zero, suc, ◌+◌, Bool, true, false, ◌&&◌, ◌||◌, not, Option, none, some, List, [], ◌∷◌, ◌++◌,
  leb, ltb, ◌==◌, if◌then◌else◌, Result, ok, err,
}
use padwire.Prelude.Int.{ℤ, pos, negsuc}
use padwire.Prelude.Text.{is_nil, is_same, trim, join}
use padwire.Backend.Filter
use padwire.Backend.Filter.{DeviceFilter, FilterError, default_filter}
use padwire.Attach.{Server}
use padwire.Attach.Toml.{Value, str, int, bool, array, Table, Error, get, line_of, unknown_keys}
use padwire.Attach.Toml.Lines

-- The names of the sections and of their keys.
abbrev pub k_name : List ℕ
k_name = 110 ∷ 97 ∷ 109 ∷ 101 ∷ []

abbrev pub k_host : List ℕ
k_host = 104 ∷ 111 ∷ 115 ∷ 116 ∷ []

abbrev pub k_port : List ℕ
k_port = 112 ∷ 111 ∷ 114 ∷ 116 ∷ []

abbrev pub k_devices : List ℕ
k_devices = 100 ∷ 101 ∷ 118 ∷ 105 ∷ 99 ∷ 101 ∷ 115 ∷ []

abbrev pub k_auto_attach : List ℕ
k_auto_attach = 97 ∷ 117 ∷ 116 ∷ 111 ∷ 95 ∷ 97 ∷ 116 ∷ 116 ∷ 97 ∷ 99 ∷ 104 ∷ []

abbrev pub k_mdns : List ℕ
k_mdns = 109 ∷ 100 ∷ 110 ∷ 115 ∷ []

abbrev pub k_mdns_timeout : List ℕ
k_mdns_timeout = 109 ∷ 100 ∷ 110 ∷ 115 ∷ 95 ∷ 116 ∷ 105 ∷ 109 ∷ 101 ∷ 111 ∷ 117 ∷ 116 ∷ []

abbrev pub k_poll_interval : List ℕ
k_poll_interval = 112 ∷ 111 ∷ 108 ∷ 108 ∷ 95 ∷ 105 ∷ 110 ∷ 116 ∷ 101 ∷ 114 ∷ 118 ∷ 97 ∷ 108 ∷ []

abbrev pub k_retry_min : List ℕ
k_retry_min = 114 ∷ 101 ∷ 116 ∷ 114 ∷ 121 ∷ 95 ∷ 109 ∷ 105 ∷ 110 ∷ []

abbrev pub k_retry_max : List ℕ
k_retry_max = 114 ∷ 101 ∷ 116 ∷ 114 ∷ 121 ∷ 95 ∷ 109 ∷ 97 ∷ 120 ∷ []

abbrev pub k_connect_timeout : List ℕ
k_connect_timeout =
    99 ∷ 111 ∷ 110 ∷ 110 ∷ 101 ∷ 99 ∷ 116 ∷ 95 ∷ 116 ∷ 105 ∷ 109 ∷ 101 ∷ 111 ∷ 117 ∷ 116 ∷ []

abbrev pub k_usbip : List ℕ
k_usbip = 117 ∷ 115 ∷ 98 ∷ 105 ∷ 112 ∷ []

abbrev pub k_modprobe : List ℕ
k_modprobe = 109 ∷ 111 ∷ 100 ∷ 112 ∷ 114 ∷ 111 ∷ 98 ∷ 101 ∷ []

abbrev pub k_stop_after_first : List ℕ
k_stop_after_first =
    115 ∷ 116 ∷ 111 ∷ 112 ∷ 95 ∷ 97 ∷ 102 ∷ 116 ∷ 101 ∷ 114 ∷ 95 ∷ 102 ∷ 105 ∷ 114 ∷ 115 ∷ 116 ∷ []

abbrev pub k_server : List ℕ
k_server = 115 ∷ 101 ∷ 114 ∷ 118 ∷ 101 ∷ 114 ∷ []

abbrev pub k_discovery : List ℕ
k_discovery = 100 ∷ 105 ∷ 115 ∷ 99 ∷ 111 ∷ 118 ∷ 101 ∷ 114 ∷ 121 ∷ []

abbrev pub k_attach : List ℕ
k_attach = 97 ∷ 116 ∷ 116 ∷ 97 ∷ 99 ∷ 104 ∷ []

abbrev pub server_keys : List (List ℕ)
server_keys = k_name ∷ k_host ∷ k_port ∷ k_devices ∷ k_auto_attach ∷ []

abbrev pub discovery_keys : List (List ℕ)
discovery_keys = k_mdns ∷ k_mdns_timeout ∷ []

abbrev pub attach_keys : List (List ℕ)
attach_keys =
    k_poll_interval ∷ k_retry_min ∷ k_retry_max ∷ k_connect_timeout ∷ k_usbip ∷ k_modprobe
    ∷ k_stop_after_first ∷ []

pub record Discovery : Type 0 where
  pub mdns : Bool
  pub mdns_timeout : ℕ

abbrev pub default_discovery : Discovery
default_discovery = record { mdns = false; mdns_timeout = 2 }

pub record Section : Type 0 where
  pub poll_interval : ℕ
  pub retry_min : ℕ
  pub retry_max : ℕ
  pub connect_timeout : ℕ
  pub usbip : List ℕ
  pub modprobe : Bool
  pub stop_after_first : Bool

abbrev pub default_section : Section
default_section = record {
  poll_interval = 5;
  retry_min = 2;
  retry_max = 60;
  connect_timeout = 3;
  usbip = k_usbip;
  modprobe = true;
  stop_after_first = true;
}

pub record Settings : Type 0 where
  pub servers : List Server
  pub discovery : Discovery
  pub attach : Section

abbrev pub default_settings : Settings
default_settings = record { servers = []; discovery = default_discovery; attach = default_section }

pub data ConfigError : Type 0 where
  toml : Error → ConfigError
  nothing_to_attach : ConfigError
  same_name : List ℕ → ConfigError
  unknown_section unknown_key wrong_type negative : List ℕ → ℕ → ConfigError
  misplaced no_host empty_host bad_port retry_order no_poll : ℕ → ConfigError
  bad_devices : FilterError → ℕ → ConfigError

-- `?`
abbrev pub and_then :
    {A B : Type 0} → Result ConfigError A → (A → Result ConfigError B) → Result ConfigError B
and_then (ok a) f = f a
and_then (err e) f = err e

abbrev pub unwrap_or : {A : Type 0} → Option A → A → A
unwrap_or (some a) other = a
unwrap_or none other = other

abbrev pub first_unknown : List (List ℕ × ℕ) → Result ConfigError (Unit {0})
first_unknown [] = ok tt
first_unknown ((key, line) ∷ keys) = err (unknown_key key line)

unfoldable pub reject_unknown : Table → List (List ℕ) → Result ConfigError (Unit {0})
reject_unknown t known = first_unknown (unknown_keys t known)

abbrev pub as_string : List ℕ → ℕ → Option Value → Result ConfigError (Option (List ℕ))
as_string key line none = ok none
as_string key line (some (str s)) = ok (some s)
as_string key line (some v) = err (wrong_type key line)

abbrev pub as_integer : List ℕ → ℕ → Option Value → Result ConfigError (Option ℤ)
as_integer key line none = ok none
as_integer key line (some (int n)) = ok (some n)
as_integer key line (some v) = err (wrong_type key line)

abbrev pub as_boolean : List ℕ → ℕ → Option Value → Result ConfigError (Option Bool)
as_boolean key line none = ok none
as_boolean key line (some (bool b)) = ok (some b)
as_boolean key line (some v) = err (wrong_type key line)

unfoldable pub string : Table → List ℕ → Result ConfigError (Option (List ℕ))
string t key = as_string key (line_of t key) (get t key)

unfoldable pub integer : Table → List ℕ → Result ConfigError (Option ℤ)
integer t key = as_integer key (line_of t key) (get t key)

unfoldable pub boolean : Table → List ℕ → Result ConfigError (Option Bool)
boolean t key = as_boolean key (line_of t key) (get t key)

abbrev pub as_seconds : List ℕ → ℕ → ℕ → Option ℤ → Result ConfigError ℕ
as_seconds key line default none = ok default
as_seconds key line default (some (pos n)) = ok n
as_seconds key line default (some (negsuc n)) = err (negative key line)

unfoldable pub seconds : Table → List ℕ → ℕ → Result ConfigError ℕ
unfolding integer
seconds t key default = and_then (integer t key) (as_seconds key (line_of t key) default)

unfoldable pub port_from : ℕ → Option ℤ → Result ConfigError ℕ
port_from line none = ok 3240
port_from line (some (pos p)) = if leb 1 p && leb p 65535 then ok p else err (bad_port line)
port_from line (some (negsuc p)) = err (bad_port line)

unfoldable pub filter_from : ℕ → Result FilterError DeviceFilter → Result ConfigError DeviceFilter
filter_from line (ok f) = ok f
filter_from line (err e) = err (bad_devices e line)

unfoldable pub devices_from : ℕ → Option Value → Result ConfigError DeviceFilter
unfolding filter_from
devices_from line none = ok default_filter
devices_from line (some (array a)) = filter_from line (Filter.from_str (join 44 a))
devices_from line (some (str s)) = filter_from line (Filter.from_str s)
devices_from line (some v) = err (wrong_type k_devices line)

abbrev pub required : ℕ → Option (List ℕ) → Result ConfigError (List ℕ)
required line none = err (no_host line)
required line (some host) = ok host

unfoldable pub with_host : Table → List ℕ → Result ConfigError Server
unfolding string integer boolean port_from devices_from
with_host t host =
    if is_nil (trim host)
    then err (empty_host (line_of t k_host))
    else and_then (and_then (integer t k_port) (port_from (line_of t k_port))) λ port.
      and_then (devices_from (line_of t k_devices) (get t k_devices)) λ devices.
        and_then (string t k_name) λ name. and_then (boolean t k_auto_attach) λ auto_attach.
          ok (record {
            name = unwrap_or name host;
            host = host;
            port = port;
            devices = devices;
            auto_attach = unwrap_or auto_attach true;
          })

unfoldable pub server_from : Table → Result ConfigError Server
unfolding reject_unknown string with_host
server_from t =
    and_then (reject_unknown t server_keys)
      λ _. and_then (and_then (string t k_host) (required t.line)) (with_host t)

unfoldable pub discovery_from : Table → Result ConfigError Discovery
unfolding reject_unknown boolean seconds
discovery_from t = and_then (reject_unknown t discovery_keys) λ _.
    and_then (boolean t k_mdns) λ mdns.
      and_then (seconds t k_mdns_timeout default_discovery.mdns_timeout) λ timeout.
        ok (record { mdns = unwrap_or mdns default_discovery.mdns; mdns_timeout = timeout })

unfoldable pub checked : Table → Section → Result ConfigError Section
checked t a =
    if ltb a.retry_max a.retry_min
    then err (retry_order (line_of t k_retry_max))
    else if a.poll_interval == 0
    then err (no_poll (line_of t k_poll_interval))
    else ok a

unfoldable pub attach_from : Table → Result ConfigError Section
unfolding reject_unknown seconds string boolean checked
attach_from t = and_then (reject_unknown t attach_keys) λ _.
    and_then (seconds t k_poll_interval default_section.poll_interval) λ poll_interval.
      and_then (seconds t k_retry_min default_section.retry_min) λ retry_min.
        and_then (seconds t k_retry_max default_section.retry_max) λ retry_max.
          and_then (seconds t k_connect_timeout default_section.connect_timeout) λ connect_timeout.
            and_then (string t k_usbip) λ usbip. and_then (boolean t k_modprobe) λ modprobe.
              and_then (boolean t k_stop_after_first) λ stop_after_first. checked t (record {
                poll_interval = poll_interval;
                retry_min = retry_min;
                retry_max = retry_max;
                connect_timeout = connect_timeout;
                usbip = unwrap_or usbip default_section.usbip;
                modprobe = unwrap_or modprobe default_section.modprobe;
                stop_after_first = unwrap_or stop_after_first default_section.stop_after_first;
              })

unfoldable pub with_table : Table → Settings → Result ConfigError Settings
unfolding server_from discovery_from attach_from
with_table t cfg =
    if is_same t.name k_server
    then and_then (server_from t) (λ s. ok (record cfg { servers = cfg.servers ++ s ∷ [] }))
    else if is_same t.name k_discovery
    then and_then (discovery_from t) (λ d. ok (record cfg { discovery = d }))
    else if is_same t.name k_attach
    then and_then (attach_from t) (λ a. ok (record cfg { attach = a }))
    else if is_nil t.name
    then err (misplaced (if t.line == 0 then 1 else t.line))
    else err (unknown_section t.name t.line)

unfoldable pub with_tables : List Table → Settings → Result ConfigError Settings
unfolding with_table
with_tables [] cfg = ok cfg
with_tables (t ∷ ts) cfg = and_then (with_table t cfg) (with_tables ts)

unfoldable pub is_server : List ℕ → List Server → Bool
is_server name [] = false
is_server name (s ∷ ss) = is_same s.name name || is_server name ss

-- The servers before, and those from one on.
unfoldable pub names_distinct : List Server → List Server → Result ConfigError (Unit {0})
unfolding is_server
names_distinct before [] = ok tt
names_distinct before (s ∷ ss) =
    let rest = names_distinct (before ++ s ∷ []) ss in
    if is_server s.name before then err (same_name s.name) else rest

unfoldable pub finished : Settings → Result ConfigError Settings
unfolding names_distinct
finished cfg =
    if is_nil cfg.servers && not cfg.discovery.mdns
    then err nothing_to_attach
    else and_then (names_distinct [] cfg.servers) λ _. ok cfg

abbrev pub tables_of : Result Error (List Table) → Result ConfigError (List Table)
tables_of (ok ts) = ok ts
tables_of (err e) = err (toml e)

unfoldable pub parse : List ℕ → Result ConfigError Settings
unfolding with_tables finished
parse text =
    and_then (tables_of (Lines.parse text))
      λ ts. and_then (with_tables ts default_settings) finished
