-- ===== src/Channels.antt =====
-- core/mavlink_channels.h and core/mavlink_channels.cpp: the pool of MAVLink channels. Both methods
-- hold `_channels_used_mutex` from end to end, so each is one step.
pub mod Refinement
use stealth_drone_purdue.Base.{
  ℕ, zero, suc, ◌+◌, ◌-◌, Bool, true, false, List, Option, none, some, ltb, if◌then◌else◌, get_or,
  set, replicate,
}

abbrev pub max_channels : ℕ
max_channels = 32

-- `_channels_used`.
abbrev pub MavlinkChannels : Type 0
MavlinkChannels = List Bool

abbrev pub new : MavlinkChannels
new = replicate max_channels false

-- The loop of `checkout_free_channel` from index `i` on, with `n` indices to go: the first index
-- whose flag is not set.
pub first_free : (n i : ℕ) → MavlinkChannels → Option ℕ
first_free zero i used = none
first_free (suc n) i used =
    let rest = first_free n (i + 1) used in if get_or used i true then rest else some i

pub checkout_free_channel : MavlinkChannels → Option ℕ × MavlinkChannels
checkout_free_channel used = elim (first_free max_channels 0 used) [
  | none ↦ (none, used)
  | some i ↦ (some i, set used i true)
]

pub checkin_used_channel : (used_channel : ℕ) → MavlinkChannels → MavlinkChannels
checkin_used_channel used_channel used =
    if ltb used_channel max_channels then set used used_channel false else used
