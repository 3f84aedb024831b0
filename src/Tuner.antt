-- ===== src/Tuner.antt =====
-- internal/tuner/tuner.go, status.go: tuners, their users and what a reservation holds.
use text.Mathlib.Text.{◌==◌ as str_eq}
use mahiron.Prelude.{
  ℕ, zero, suc, ◌+◌, ◌-◌, String, Bool, true, false, not, ◌&&◌, ◌||◌, Option, none, some, List, [],
  ◌∷◌, ◌==◌, if◌then◌else◌,
}
use mahiron.Prelude.Int.{ℤ, pos, ltb_ℤ}
use mahiron.Prelude.Keys.{has_key}
pub mod Pool
pub mod Devices

-- The agent of a tuner, `none` for nil: its name and its two decoder commands.
pub record AgentConfig : Type 0 where
  pub name : String
  pub decoder : String
  pub b61_decoder : String

pub record TunerConfig : Type 0 where
  pub name : String
  pub types : List String
  pub is_disabled : Bool
  pub agent : Option AgentConfig
  pub dvb_device_path : String
  pub command : String
  pub decoder : String
  pub b61_decoder : String

-- The hub of internal/agent as `Available` shows it, by agent and tuner; `none` for nil.
abbrev pub Hub : Type 0
Hub = Option (String → String → Bool)

pub data SourceKind : Type 0 where
  source_kind_unsupported source_kind_command source_kind_dvb source_kind_agent : SourceKind

unfoldable pub source_kind : TunerConfig → SourceKind
source_kind t = elim t.agent [
  | some _ ↦ source_kind_agent
  | none ↦
      if not (str_eq t.dvb_device_path "")
      then source_kind_dvb
      else if not (str_eq t.command "")
      then source_kind_command
      else source_kind_unsupported
]

abbrev is_supported : SourceKind → Bool
is_supported source_kind_unsupported = false
is_supported _ = true

unfoldable pub usable : TunerConfig → Bool
unfolding source_kind
usable t = is_supported (source_kind t)

unfoldable pub available : Hub → TunerConfig → Bool
available hub t = elim t.agent [
  | none ↦ true
  | some a ↦ elim hub [ none ↦ false | some of_tuner ↦ of_tuner a.name t.name ]
]

abbrev makes_device : Hub → SourceKind → Bool
makes_device none source_kind_agent = false
makes_device hub source_kind_unsupported = false
makes_device _ _ = true

-- Whether `NewDevice` returns a device.
unfoldable pub new_device : Hub → TunerConfig → Bool
unfolding source_kind
new_device hub t = makes_device hub (source_kind t)

-- `!item.IsDisabled() && slices.Contains(item.Groups(), channelType)`
abbrev pub serves : String → TunerConfig → Bool
serves channel_type t = not t.is_disabled && has_key channel_type t.types

pub record ChannelConfig : Type 0 where
  pub channel_type : String
  pub channel : String

-- What else a user carries is only shown.
pub record User : Type 0 where
  pub id : String
  pub priority : ℤ

pub record TrackedUser : Type 0 where
  pub user : User
  pub refs : ℕ

-- A device stands for the pointer to a `managedDevice`, `none` for nil. The map of users is a list
-- with each id once, where the last one that was added is the first.
pub record TunerRuntime : Type 0 where
  pub in_use : Bool
  pub running : Bool
  pub stopped : Bool
  pub fault : Bool
  pub reservation_priority : ℤ
  pub device : Option ℕ
  pub requested : Option ChannelConfig
  pub tuned : Option ChannelConfig
  pub users : List TrackedUser

abbrev highest : ℤ → List TrackedUser → ℤ
highest priority [] = priority
highest priority (u ∷ us) =
    highest (if ltb_ℤ priority u.user.priority then u.user.priority else priority) us

unfoldable pub effective_priority : TunerRuntime → ℤ
effective_priority r = highest r.reservation_priority r.users

abbrev pub no_reservation : TunerRuntime
no_reservation = record {
  in_use = false;
  running = false;
  stopped = false;
  fault = false;
  reservation_priority = pos 0;
  device = none;
  requested = none;
  tuned = none;
  users = [];
}

-- The new state, and `wasFaulted`.
unfoldable pub reset_reservation : TunerRuntime → TunerRuntime × Bool
reset_reservation r = (no_reservation, r.fault)

abbrev pub find_user : String → List TrackedUser → Option TrackedUser
find_user id [] = none
find_user id (u ∷ us) = if str_eq u.user.id id then some u else find_user id us

-- Every entry of an id is left out.
abbrev pub delete_user : String → List TrackedUser → List TrackedUser
delete_user id [] = []
delete_user id (u ∷ us) =
    let rest = delete_user id us in if str_eq u.user.id id then rest else u ∷ rest

-- The map of users after `addUser`.
unfoldable pub add_user : List TrackedUser → User → List TrackedUser
add_user users user = if str_eq user.id "" then users else elim (find_user user.id users) [
  | some tracked ↦ record { user = user; refs = tracked.refs + 1 } ∷ delete_user user.id users
  | none ↦ record { user = user; refs = 1 } ∷ users
]

-- `refs` is at least 1 while the user is in the map.
unfoldable pub remove_user : List TrackedUser → String → List TrackedUser
remove_user users id = elim (find_user id users) [
  | none ↦ users
  | some tracked ↦
      if tracked.refs - 1 == 0
      then delete_user id users
      else record tracked { refs = tracked.refs - 1 } ∷ delete_user id users
]

pub record DecoderCommands : Type 0 where
  pub agent_decoder : Bool
  pub agent_b61_decoder : Bool
  pub decoder : String
  pub b61_decoder : String

unfoldable pub decoder_commands : TunerConfig → DecoderCommands
decoder_commands t = record {
  agent_decoder = elim t.agent [ none ↦ false | some a ↦ not (str_eq a.decoder "") ];
  agent_b61_decoder = elim t.agent [ none ↦ false | some a ↦ not (str_eq a.b61_decoder "") ];
  decoder = t.decoder;
  b61_decoder = t.b61_decoder;
}
