-- ===== src/Types.antt =====
-- wg-ondemand/src/types.rs: the data that the components share.
pub mod Wire
use wg_ondemand.Base.{
  ℕ, Bool, true, false, Option, none, some, List, [], ◌∷◌, Text, Result, ok, err, unparsable_config,
  ◌>>=◌, or_fail,
}
use wg_ondemand.Base.Str.{codes}

-- The event that the kernel program hands over; `timestamp` is a u64, `dest_ip` a u32, `dest_port`
-- a u16, the others are u8.
pub record TrafficEvent : Type 0 where
  pub timestamp : ℕ
  pub dest_ip : ℕ
  pub dest_port : ℕ
  pub protocol : ℕ
  pub padding : ℕ

pub data TunnelState : Type 0 where
  inactive monitoring activating active deactivating : TunnelState

unfoldable pub TunnelState-discrete : Discrete TunnelState
TunnelState-discrete = hlevel

-- `==` of two tunnel states.
abbrev pub is_active : TunnelState → Bool
is_active active = true
is_active _ = false

pub record SsidList : Type 0 where
  pub ssids : List Text

pub record GeneralConfig : Type 0 where
  pub target_ssids : SsidList
  pub exclude_ssids : List Text
  pub wg_interface : Text
  pub nm_connection : Option Text
  pub monitor_interface : Option Text
  pub idle_timeout : ℕ
  pub log_level : Text

pub record SubnetConfig : Type 0 where
  pub ranges : List Text

pub record Config : Type 0 where
  pub general : GeneralConfig
  pub subnets : SubnetConfig

abbrev pub default_idle_timeout : ℕ
default_idle_timeout = 300

abbrev pub default_log_level : Text
default_log_level = codes "info"

-- What the deserializer meets in the place of an SSID list: a string, a sequence whose elements
-- are strings or not, or something else.
pub data SsidValue : Type 0 where
  str : Text → SsidValue
  seq : List (Option Text) → SsidValue
  other : SsidValue

visit_seq : List (Option Text) → Result (List Text)
visit_seq [] = ok []
visit_seq (e ∷ es) = do s ← or_fail e unparsable_config; rest ← visit_seq es; ok (s ∷ rest)

-- `SsidList::deserialize`, with its visitor.
unfoldable pub deserialize : SsidValue → Result SsidList
unfolding visit_seq
deserialize (str value) = ok (record { ssids = value ∷ [] })
deserialize (seq es) = do v ← visit_seq es; ok (record { ssids = v })
deserialize other = err unparsable_config
