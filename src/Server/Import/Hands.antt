-- ===== src/Server/Import/Hands.antt =====
-- lib.rs: the interfaces of a device that is imported are handed back.
use padwire.Prelude.{◌≡◌, false}
use padwire.Server.Import.{Opened}

-- What an opened device does with its interfaces: the claims are kept account of, a session keeps
-- the account, and releasing them all leaves none. Nothing else keeps the device, and closing it
-- releases them too.
pub record KeepsClaims {D : Type 0} (dev : Opened D) (Tracked Idle : D → Type 0) : Type 0 where
  pub alone : dev.kept ≡ false
  pub claims : (d : D) → Idle d → Tracked (dev.claim_all d).1
  pub serves : (d : D) → Tracked d → Tracked (dev.serve d).1
  pub releases : (d : D) → Tracked d → Idle (dev.release_all d)
  pub closes : (d : D) → Tracked d → Idle (dev.close d)
  pub stays_closed : (d : D) → Idle d → Idle (dev.close d)
