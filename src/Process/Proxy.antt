-- ===== src/Process/Proxy.antt =====
-- `ProxyInfo` of mcproc/src/daemon/process/proxy.rs, what the daemon keeps of a process. The fields
-- behind an `Arc` change in place; an operation on `&self` returns the new record. The task handles
-- are left out. Times are milliseconds.
use mcproc.Prelude.{ℕ, ◌%◌, ◌^◌, List, [], ◌∷◌, Option, none, some, ℤ, Text, Dict}
use mcproc.Names.ProcessKey
use mcproc.Names.ProcessKey.{ProcessKey}
use mcproc.Process.Status.{ProcessStatus, starting, to_u8, from_u8}

-- mcproc/src/daemon/process/types.rs
pub record ProxyInfoParams : Type 0 where
  pub id : Text
  pub name : Text
  pub project : Text
  pub cmd : Option Text
  pub args : List Text
  pub cwd : Option Text
  pub env : Option (Dict Text)
  pub wait_for_log : Option Text
  pub wait_timeout : Option ℕ
  pub toolchain : Option Text
  pub pid : ℕ

pub record ProxyInfo : Type 0 where
  pub id : Text
  pub key : ProcessKey
  pub name : Text
  pub project : Text
  pub cmd : Option Text
  pub args : List Text
  pub cwd : Option Text
  pub env : Option (Dict Text)
  pub wait_for_log : Option Text
  pub wait_timeout : Option ℕ
  pub toolchain : Option Text
  pub start_time : ℕ
  pub status : ℕ  -- u8
  pub pid : ℕ
  pub port : Option ℕ
  pub detected_port : Option ℕ
  pub exit_code : Option ℤ
  pub exit_time : Option ℕ

-- `ProxyInfo::new`, at the time `now`
unfoldable pub new : ℕ → ProxyInfoParams → ProxyInfo
unfolding to_u8
new now params = record {
  id = params.id;
  key = ProcessKey.new params.project params.name;
  name = params.name;
  project = params.project;
  cmd = params.cmd;
  args = params.args;
  cwd = params.cwd;
  env = params.env;
  wait_for_log = params.wait_for_log;
  wait_timeout = params.wait_timeout;
  toolchain = params.toolchain;
  start_time = now;
  status = to_u8 starting;
  pid = params.pid;
  port = none;
  detected_port = none;
  exit_code = none;
  exit_time = none;
}

unfoldable pub get_status : ProxyInfo → ProcessStatus
unfolding from_u8
get_status p = from_u8 p.status

unfoldable pub set_status : ProcessStatus → ProxyInfo → ProxyInfo
unfolding to_u8
set_status s p = record p { status = to_u8 s }

-- `ports.first().map(|port| *port as u16)`
first_u16 : List ℕ → Option ℕ
first_u16 [] = none
first_u16 (port ∷ rest) = some (port % 2 ^ 16)

unfoldable pub update_detected_port : List ℕ → ProxyInfo → ProxyInfo
unfolding first_u16
update_detected_port ports p = record p { detected_port = first_u16 ports }
