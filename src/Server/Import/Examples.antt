-- ===== src/Server/Import/Examples.antt =====
-- The theorems of the connections on a small exporter.
use padwire.Prelude.{
  ℕ, ◌<◌, ◌≡◌, refl, length, Bool, true, false, Option, none, some, List, [], ◌∷◌, map, Result, ok,
  err, arith,
}
use padwire.Usbip.Wire.Error.{busid_len}
use padwire.Usbip.Wire.Text.{is_utf8, IsText, HasNoNul}
use padwire.Usbip.Op.{encode_devlist_reply, encode_devlist_request, encode_import_request}
use padwire.Usbip.Io.Stream.{IoError, of_kind, permission_denied, unexpected_eof}
use padwire.Usbip.Io.Setup.Requests.{before}
use padwire.Usbip.Device.{full}
use padwire.Backend.Summary.{DeviceSummary, to_usbip}
use padwire.Backend.Descriptors.Interfaces.{has}
use padwire.Backend.Usbfs.Claims.{Claims, claim_one, claim_each, release_all}
use padwire.Backend.Usbfs.Claims.Owned.{release_all-owned}
use padwire.Backend.Usbfs.Examples.{owner, owner-Owns}
use padwire.Server.Names.{Name, contains, insert}
use padwire.Server.Registry.{acquire}
use padwire.Server.Toggle.{DeviceSource, Toggle, is_suspended}
use padwire.Server.Toggle.Offer.{is_listed}
use padwire.Server.Import.{Opened, World, single_device, import_device, handle}
use padwire.Server.Import.Leases.{import_device-registry}
use padwire.Server.Import.Refusals.{handle_lem}
use padwire.Server.Accept.{
  accepted, ended, start_accepting, IsCounted, start, connects, ends, Reach-IsCounted,
}

-- `1-2` and `1-3`
abbrev one_two : Name
one_two = 49 ∷ 45 ∷ 50 ∷ []

abbrev one_three : Name
one_three = 49 ∷ 45 ∷ 51 ∷ []

abbrev pad : DeviceSummary
pad = record {
  busnum = 1;
  devnum = 2;
  busid = one_two;
  sys_path = [];
  node_path = [];
  speed = full;
  device = record {
    bcd_usb = 0x200;
    b_device_class = 0;
    b_device_sub_class = 0;
    b_device_protocol = 0;
    b_max_packet_size0 = 64;
    id_vendor = 0x28de;
    id_product = 0x1304;
    bcd_device = 0x100;
    b_num_configurations = 1;
  };
  config_value = 1;
  interfaces = [];
}

abbrev in_io : Result ℕ (Unit {0}) → Result IoError (Unit {0})
in_io (ok u) = ok u
in_io (err e) = err (of_kind permission_denied)

-- Its three interfaces are claimed one by one, and a session does nothing.
abbrev opened_pad : Opened (Claims (List ℕ))
opened_pad = record {
  summary = pad;
  kept = false;
  claim_all = λ d. let (claimed, d') = claim_each owner (0 ∷ 1 ∷ 2 ∷ []) d in (in_io claimed, d');
  release_all = release_all owner;
  close = release_all owner;
  serve = λ d. (ok tt, d);
}

abbrev one_pad : DeviceSource (Opened (Claims (List ℕ))) IoError
one_pad = record { list = ok (pad ∷ []); open_device = λ busid. ok opened_pad }

abbrev sends : List ℕ → Option IoError
sends b = none

abbrev fresh : World (Claims (List ℕ))
fresh = record {
  registry = record { busy = [] };
  dev = record { claimed = []; kernel = [] };
  written = [];
}

import_device-registry_example :
    contains one_two (import_device one_pad sends one_two fresh).1.registry.busy
    ≡ contains one_two []
import_device-registry_example = import_device-registry one_pad sends one_two one_two fresh

absent : is_listed one_three (pad ∷ []) ≡ false
unfolding is_listed
absent = refl

abbrev held_back : Toggle
held_back = record { suspended = one_two ∷ [] }

is_held_back : is_suspended held_back one_two ≡ true
unfolding is_suspended contains
is_held_back = refl

one_two_fits : IsText one_two × HasNoNul one_two × (length one_two < busid_len)
unfolding is_utf8
one_two_fits = (refl, ground arith, ground arith)

handle_lem_example :
    (handle one_pad sends (before encode_devlist_request (1 ∷ []) unexpected_eof) fresh
      ≡ (ok tt, record fresh { written = encode_devlist_reply (map to_usbip (pad ∷ [])) }))
    × (handle one_pad sends (before (encode_import_request one_two) (1 ∷ []) unexpected_eof) fresh
        ≡ import_device one_pad sends one_two fresh)
handle_lem_example =
    handle_lem one_pad sends fresh (pad ∷ []) one_two (1 ∷ []) unexpected_eof refl refl one_two_fits

abbrev owned : List ℕ → ℕ → Bool
owned k m = has m k

abbrev Tracked : Claims (List ℕ) → Type 0
Tracked d = (m : ℕ) → owned d.kernel m ≡ has m d.claimed

abbrev Idle : Claims (List ℕ) → Type 0
Idle d = ((m : ℕ) → owned d.kernel m ≡ false) × (d.claimed ≡ [])

released : (d : Claims (List ℕ)) → Tracked d → Idle (release_all owner d)
released d t = (
  λ m. (release_all-owned owner owned owner-Owns d m t).0,
  (release_all-owned owner owned owner-Owns d 0 t).1,
)

abbrev fails : List ℕ → Option IoError
fails b = some (of_kind unexpected_eof)

-- A device that the source keeps stays claimed when the reply cannot be sent; the source opens no
-- other.
kept_pad :
    ((import_device
        (single_device (of_kind permission_denied) opened_pad)
        fails
        one_two
        fresh).1.dev.claimed
      ≡ 0 ∷ 1 ∷ 2 ∷ [])
    × ((import_device
          (single_device (of_kind permission_denied) opened_pad)
          sends
          one_two
          fresh).1.dev.claimed
        ≡ [])
    × ((single_device (of_kind permission_denied) opened_pad).open_device one_three
        ≡ err (of_kind permission_denied))
unfolding import_device is_listed claim_each single_device acquire contains release_all insert
    claim_one
kept_pad = (refl, refl, refl)

still_there : has 0 (accepted true false (accepted true true start_accepting)).threads ≡ true
unfolding accepted
still_there = refl

-- One connection is served, the next finds no thread, and the first ends.
Reach-IsCounted_example :
    IsCounted (ended 0 (accepted true false (accepted true true start_accepting)))
Reach-IsCounted_example =
    Reach-IsCounted (ends 0 (connects true false (connects true true start)) still_there)
