-- ===== src/Isdb.antt =====
-- internal/isdb/isdb.go: section headers, the classes of EIT tables and of networks.
use mahiron.Prelude.{ℕ, Bool, true, false, ◌&&◌, ◌||◌, ◌==◌, leb, if◌then◌else◌}
pub mod Tables
pub mod ReadyGroup
pub mod Schedule

pub record SectionHeader : Type 0 where
  pub table_id_extension : ℕ
  pub version : ℕ
  pub section_number : ℕ
  pub last_section_number : ℕ
  pub current_next : Bool
  pub last_table_id : ℕ
  pub segment_last_section : ℕ

pub data EitKind : Type 0 where
  eit_other eit_present_following eit_schedule_basic eit_schedule_extended : EitKind

-- `lo <= id && id <= hi`
abbrev pub within : ℕ → ℕ → ℕ → Bool
within lo hi id = leb lo id && leb id hi

unfoldable pub classify_ts_eit_table_id : ℕ → EitKind
classify_ts_eit_table_id id =
    if id == 0x4E || id == 0x4F
    then eit_present_following
    else if within 0x50 0x57 id || within 0x60 0x67 id
    then eit_schedule_basic
    else if within 0x58 0x5F id || within 0x68 0x6F id
    then eit_schedule_extended
    else eit_other

unfoldable pub classify_mmt_eit_table_id : ℕ → EitKind
classify_mmt_eit_table_id id =
    if id == 0x8B
    then eit_present_following
    else if within 0x8C 0x93 id
    then eit_schedule_basic
    else if within 0x94 0x9B id
    then eit_schedule_extended
    else eit_other

pub data NetworkClass : Type 0 where
  network_other network_terrestrial network_bs_satellite network_cs_satellite network_advanced_bs
        network_advanced_wideband_cs :
      NetworkClass

unfoldable pub classify_original_network_id : ℕ → NetworkClass
classify_original_network_id onid =
    if onid == 0x000B
    then network_advanced_bs
    else if onid == 0x000C
    then network_advanced_wideband_cs
    else if onid == 0x0004
    then network_bs_satellite
    else if onid == 0x0006 || onid == 0x0007
    then network_cs_satellite
    else network_other

is_satellite_class : NetworkClass → Bool
is_satellite_class network_bs_satellite = true
is_satellite_class network_cs_satellite = true
is_satellite_class _ = false

unfoldable pub is_satellite_original_network_id : ℕ → Bool
unfolding is_satellite_class classify_original_network_id
is_satellite_original_network_id onid = is_satellite_class (classify_original_network_id onid)
