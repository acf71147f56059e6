-- ===== src/Lease.antt =====
-- cpu_limit.rs: CPU quotas that the guard lends to a unit and takes back.
pub mod Cap
pub mod Release
use dracon_system_disk_proce.Common.{
  ℕ, ◌+◌, ◌*◌, min, leb, nat_beq, ltb, Bool, true, false, not, ◌&&◌, ◌||◌, Option, none, some, List,
  [], ◌∷◌, String, ◌==◌, if◌then◌else◌, string_eq,
}

pub record Lease : Type 0 where
  pub unit : String
  pub invocation : String
  pub original : ℕ
  pub applied : ℕ
  pub generation : String
  pub timer : String
  pub boot_id : String
  pub armed : Bool
  pub applied_verified : Bool
  pub expires_at_unix_secs : ℕ

-- The unit's quota, the lease file of its key, and the timer that is armed for it.
pub record World : Type 0 where
  pub quota : ℕ
  pub stored : Option Lease
  pub timer : Option String

-- A write that did not happen, that happened although an error was reported, or that succeeded.
pub data Write : Type 0 where
  refused unverified verified : Write

abbrev pub reported : Write → Bool
reported verified = true
reported _ = false

abbrev pub set_quota : Write → World → ℕ → World
set_quota refused w quota = w
set_quota unverified w quota = record w { quota = quota }
set_quota verified w quota = record w { quota = quota }

abbrev pub save : Write → World → Lease → World
save refused w lease = w
save unverified w lease = record w { stored = some lease }
save verified w lease = record w { stored = some lease }

pub data Outcome : Type 0 where
  ok : String → Outcome
  err : String → Outcome

pub data IntentAction : Type 0 where
  reuse restore_unprotected drop_unapplied preserve_external : IntentAction

unfoldable pub reconcile_intent : Lease → ℕ → Bool → IntentAction
reconcile_intent lease current armed =
    if nat_beq current lease.applied
    then (if armed then reuse else restore_unprotected)
    else if nat_beq current lease.original && not lease.applied_verified
    then drop_unapplied
    else preserve_external

-- `none` stands for `Err`: the ownership cannot be told.
unfoldable pub lease_is_owned : String → String → String → String → String → Option Bool
lease_is_owned saved_boot current_boot saved_invocation invocation load_state =
    if not (string_eq.beq saved_boot current_boot) || string_eq.beq load_state "not-found"
    then some false
    else if not (string_eq.beq load_state "loaded")
        || (string_eq.beq invocation "" || string_eq.beq saved_invocation "")
    then none
    else some (string_eq.beq saved_invocation invocation)
