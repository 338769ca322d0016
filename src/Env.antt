-- ===== src/Env.antt =====
-- The settings of the server (mautrix_asmux/server.py, mautrix_asmux/config.py) and what the
-- program takes from third-party packages.
use mautrix_asmux.Prelude.{ℕ, Bool, Option, List, Str}

pub record DeviceLists : Type 0 where
  pub changed : List Str
  pub left : List Str

pub record Env : Type 0 where
  -- `"@" + config["appservice.namespace.prefix"]` and `":" + config["homeserver.domain"]`
  pub mxid_prefix : Str
  pub mxid_suffix : Str
  -- `mautrix.util.message_send_checkpoint.CHECKPOINT_TYPES`, as texts
  pub checkpoint_types : List Str
  -- `prometheus_client` refuses a set of labels that is not the declared one; the stand-in that is
  -- used where it is not installed accepts any.
  pub labels_checked : Bool
  -- `uuid.UUID(s)`, `none` where it raises `ValueError`
  pub parse_uuid : Str → Option ℕ
  -- `mautrix.types.DeviceLists()`
  pub default_device_lists : DeviceLists
