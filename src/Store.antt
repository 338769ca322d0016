-- ===== src/Store.antt =====
-- The tables of the database, the objects of the process and its caches. An object is a reference
-- into a heap, so that two caches may share it and a change is seen through both.
use mautrix_asmux.Prelude.{ℕ, ◌+◌, Bool, Option, Str, nat_beq, if◌then◌else◌}
use mautrix_asmux.Dict.{Dict}
use mautrix_asmux.Json.{Fields}

-- The objects of one class. Those at `fresh` and above are not allocated yet.
pub record Heap (A : Type 0) : Type 0 where
  pub cells : ℕ → A
  pub fresh : ℕ

module _ {A : Type 0} where
  abbrev pub read : Heap A → ℕ → A
  read h r = h.cells r

  abbrev pub write : ℕ → A → Heap A → Heap A
  write r a h = record h { cells = λ j. if nat_beq r j then a else h.cells j }

  abbrev pub alloc : A → Heap A → Heap A
  alloc a h = record {
    cells = λ j. if nat_beq h.fresh j then a else h.cells j;
    fresh = h.fresh + 1;
  }

pub record PushKey : Type 0 where
  pub url : Str
  pub app_id : Str
  pub pushkey : Str
  pub pushkey_ts : ℕ
  pub data_ : Fields

-- A row of `appservice`, with the columns that the program selects.
pub record AzRow : Type 0 where
  pub id : ℕ
  pub owner : Str
  pub prefix : Str
  pub bot : Str
  pub address : Str
  pub hs_token : Str
  pub as_token : Str
  pub push : Bool
  pub config_password_hash : Option Str
  pub config_password_expiry : Option ℕ
  pub push_key : Option PushKey

-- The object: the row, the login token of its owner, and whether this call created it.
pub record AppService : Type 0 where
  pub row : AzRow
  pub open row use *
  pub login_token : Option Str
  pub created_ : Bool

pub record Room : Type 0 where
  pub id : Str
  pub owner : ℕ
  pub deleted : Bool

pub record User : Type 0 where
  pub id : Str
  pub api_token : Str
  pub login_token : Str
  pub proxy_config : Option Fields

pub record Store : Type 0 where
  pub az_table : Dict ℕ AzRow
  pub room_table : Dict Str Room
  pub user_table : Dict Str User
  pub azs : Heap AppService
  pub rooms : Heap Room
  pub users : Heap User
  pub az_by_id : Dict ℕ ℕ
  pub az_by_owner : Dict (Str × Str) ℕ
  pub room_by_id : Dict Str ℕ
  pub user_by_id : Dict Str ℕ
  pub user_by_api_token : Dict Str ℕ
