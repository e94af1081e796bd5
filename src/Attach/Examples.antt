-- ===== src/Attach/Examples.antt =====
-- main.rs and toml.rs: a kernel with three ports, a network with one server, and a line of a file.
use padwire.Prelude.{
  ℕ, zero, suc, ◌+◌, ◌≤◌, ◌≡◌, refl, true, false, some, List, [], ◌∷◌, length, min, ok, arith,
}
use padwire.Usbip.Device.{UsbDevice}
use padwire.Backend.Filter.{default_filter, matches}
use padwire.Backend.Descriptors.Interfaces.{has}
use padwire.Attach.{
  System, Config, Daemon, Backoff, lookup, occupied_ports, tick, pruned, candidate, settle,
  newly_used, occupied_of, is_tracked, removed,
}
use padwire.Prelude.Text.{is_whitespace}
use padwire.Attach.Toml.{str, find}
use padwire.Attach.Toml.Lines.{root, is_set, lines, parse, parse_lines}
use padwire.Attach.Toml.Assignments.{text, line_text, with_entry, parse_lines-line}
use padwire.Attach.Toml.Fuel.{Returns, parse-Returns}
use padwire.Attach.Adopts.{adopt_existing, has_port, has_port-adopt_existing}
use padwire.Attach.Backoffs.{failures, doubled, failures-delay}
use padwire.Attach.Tries.{AreDistinct}
use padwire.Attach.Ticks.{ticks, ticks-AreDistinct, ticks-length}

abbrev pad : UsbDevice
pad = record {
  path = 0x2f ∷ [];
  busid = 0x31 ∷ 0x2d ∷ 0x32 ∷ [];
  busnum = 1;
  devnum = 2;
  speed = 3;
  id_vendor = 0x28de;
  id_product = 0x1205;
  bcd_device = 0x0300;
  b_device_class = 0;
  b_device_sub_class = 0;
  b_device_protocol = 0;
  b_configuration_value = 1;
  b_num_configurations = 1;
  b_num_interfaces = 1;
  interfaces = [];
}

-- The state is the number of ports in use.
abbrev status_of : ℕ → ℕ → ℕ
status_of zero port = 4
status_of (suc used) zero = 6
status_of (suc used) (suc port) = status_of used port

abbrev system : System ℕ
system = record {
  ports = λ k. ok (
      record { port = 0; status = status_of k 0 }
      ∷ record { port = 1; status = status_of k 1 }
      ∷ record { port = 2; status = status_of k 2 }
      ∷ []);
  records = λ k. record { port = 0; host = 104 ∷ []; busid = 49 ∷ [] } ∷ [];
  browse = λ k. (ok [], k);
  devlist = λ host port k. (ok (pad ∷ record pad { busid = 0x33 ∷ [] } ∷ []), k);
  attach = λ host port busid k. (ok tt, suc k);
  detach = λ port k. k;
  now = λ k. (k, k);
  sleep = λ k. k;
}

abbrev config : Config
config = record {
  servers =
      record {
        name = 115 ∷ [];
        host = 104 ∷ [];
        port = 3240;
        devices = default_filter;
        auto_attach = true;
      }
      ∷ [];
  stop_after_first = true;
  retry_min = 1000;
  retry_max = 30000;
  mdns = false;
}

abbrev daemon : Daemon ℕ
daemon = record { attached = []; backoff = []; system = 0 }

-- The first tick attaches the pad on port 0.
attached_in_a_tick :
    (tick system config 2 daemon).attached
    ≡ record { server = 115 ∷ []; host = 104 ∷ []; busid = 0x31 ∷ 0x2d ∷ 0x32 ∷ []; port = 0 } ∷ []
unfolding tick pruned lookup candidate settle newly_used occupied_of is_tracked matches removed
attached_in_a_tick = refl

ticks-AreDistinct_example : AreDistinct (ticks system config 2 5 daemon).attached
ticks-AreDistinct_example = ticks-AreDistinct system config 2 5 daemon tt

ticks-length_example : length (ticks system config 2 5 daemon).attached ≤ 1
ticks-length_example = ticks-length system config 2 5 daemon refl (omega arith)

failures-delay_example :
    (b : Backoff) × (lookup (115 ∷ []) (failures config (115 ∷ []) (0 ∷ 2000 ∷ 5000 ∷ []) [])
      ≡ some b)
    × (b.next_try ≡ 5000 + min (doubled 2 1000) 30000)
    × (b.next_try ≤ 40000)
    × (b.delay ≡ min (doubled 3 1000) 30000)
    × (b.reported ≡ true)
failures-delay_example =
    failures-delay config 40000 (115 ∷ []) 0 (2000 ∷ 5000 ∷ []) [] (unfold lookup in refl)
      (omega arith, (omega arith, (omega arith, tt)))

-- Port 1 is busy and no record explains it.
has_port-adopt_existing_example :
    has_port 1 (adopt_existing system config (λ n. n ∷ []) (record daemon { system = 2 })).attached
    ≡ has 1 (occupied_ports system config 2)
has_port-adopt_existing_example =
    has_port-adopt_existing system config (λ n. n ∷ []) (record daemon { system = 2 }) 1 refl

-- `a = "#"  # b`, on the second line.
parse_lines-line_example :
    parse_lines 2
      (line_text (97 ∷ []) (text (35 ∷ [])) (98 ∷ []) ∷ [])
      1
      (record { tables = []; current = root })
    ≡ parse_lines 1 [] 2
        (with_entry (97 ∷ []) (str (35 ∷ [])) 2 (record { tables = []; current = root }))
parse_lines-line_example =
    parse_lines-line 1 97 [] (text (35 ∷ [])) (98 ∷ []) [] 1
      (record { tables = []; current = root })
      ((unfold is_whitespace in ((refl, refl), refl, refl, refl, refl, refl)), tt)
      (unfold is_set find in refl)

-- `a = 1`, and a second line that is not TOML.
abbrev two_lines : List ℕ
two_lines = 97 ∷ 32 ∷ 61 ∷ 32 ∷ 49 ∷ 10 ∷ 98 ∷ 10 ∷ []

parse-Returns_example : Returns (length (lines two_lines)) (parse two_lines)
parse-Returns_example = parse-Returns two_lines
