-- ===== src/Items.antt =====
-- The data items of the terminal, save/itemop.c with its headers: what an item, a group of items and an
-- operation are. A pointer of the table is the name of the array or function that it points at.
pub mod Table
pub mod Access
pub mod Reading
pub mod Written
pub mod Saving
pub mod Served
pub mod Given
pub mod Depth
use smart_home_xiugai.Prelude.{ℕ, ◌-◌, List, ltb, if◌then◌else◌}
use native.Mathlib.Decide.{ℕ_discrete}

-- The functions of para_term.c and para_uni.c that serve items.
pub data Handler : Type 0 where
  parauni_termip parauni_termmac parauni_userinfo : Handler
  paraterm_reset paraterm_sampling paraterm_svraddr paraterm_gateaddr paraterm_apn : Handler
  paraterm_usrname paraterm_time paraterm_realtime paraterm_port_stopbit : Handler
  paraterm_upreaddev paraterm_updaydata paraterm_scenelist paraterm_monlastread : Handler
  paraterm_monlastup paraterm_peibian_addr paraterm_scene paraterm_timertasklist : Handler
  paraterm_timertask : Handler

-- The fields of `ParaTermG` and the parts of `hard_info` that items stand for.
pub data Place : Type 0 where
  sms_addr com_pwd adm_pwd search_device plc_route_type alarm_flag ct : Place
  port_baud port_parity port_databits port_func : ℕ → Place
  hard_info : ℕ → Place

pub Place-discrete : Discrete Place
Place-discrete = hlevel ℕ_discrete

-- PORTCFG_NUM
abbrev pub portcfg_num : ℕ
portcfg_num = 7

abbrev port_size : ℕ → ℕ
port_size n = if ltb n portcfg_num then 1 else 0

-- The bytes from a place to the end of its field or array: no port stands behind the last of `port`.
unfoldable pub place_size : Place → ℕ
place_size sms_addr = 16
place_size com_pwd = 4
place_size adm_pwd = 3
place_size search_device = 1
place_size plc_route_type = 1
place_size alarm_flag = 4
place_size ct = 2
place_size (port_baud n) = port_size n
place_size (port_parity n) = port_size n
place_size (port_databits n) = port_size n
place_size (port_func n) = port_size n
place_size (hard_info n) = 18 - n

-- `pfunc`, a function or storage.
pub data Target : Type 0 where
  null : Target
  handler : Handler → Target
  place : Place → Target

-- `item_ele_t`; no code reads `protech`.
pub record Item : Type 0 where
  pub id : ℕ
  pub flag : ℕ
  pub savflag : ℕ
  pub datalen : ℕ
  pub target : Target

-- `item_grp_t`
pub record Group : Type 0 where
  pub id : ℕ
  pub flag : ℕ
  pub items : List Item

-- `itemop_t`
pub record ItemOp : Type 0 where
  pub id : ℕ
  pub maxlen : ℕ
  pub buf : List ℕ
  pub actlen : ℕ
  pub mid : ℕ
  pub level : ℕ
  pub itf : ℕ
