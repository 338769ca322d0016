-- ===== src/Tests/Samples.antt =====
-- Settings, tables and events that the tests share.
use mautrix_asmux.Prelude.{
  ℕ, ◌≡◌, refl, arith, true, false, none, List, [], ◌∷◌, Str, text, str_beq, one_of, starts_with,
  ends_with, strip_prefix,
}
use mautrix_asmux.Dict
use mautrix_asmux.Json
use mautrix_asmux.Util
use mautrix_asmux.UserIds
use mautrix_asmux.Proxy
use mautrix_asmux.Database.Azs
use mautrix_asmux.Database.Rooms
use mautrix_asmux.Json.{Json, obj, str, num, arr, Items, nil, cons, Fields, end, field}
use mautrix_asmux.Env.{Env, DeviceLists}
use mautrix_asmux.Store.{Store, AzRow, AppService, Room, User}
use mautrix_asmux.Events.{Events}
use mautrix_asmux.Events.Wire.{Codec}
use mautrix_asmux.Events.Wire.RoundTrip.{IsLossless}
use mautrix_asmux.Result.{Result, ok, err}
use mautrix_asmux.Errors.{type_error}

abbrev pub no_lists : DeviceLists
no_lists = record { changed = []; left = [] }

abbrev pub env : Env
env = record {
  mxid_prefix = text "@_";
  mxid_suffix = text ":b";
  checkpoint_types = text "m.room.message" ∷ [];
  labels_checked = true;
  parse_uuid = λ s. none;
  default_device_lists = no_lists;
}

abbrev pub row : AzRow
row = record {
  id = 7;
  owner = text "ann";
  prefix = text "tg";
  bot = text "bot";
  address = [];
  hs_token = text "h";
  as_token = text "s";
  push = false;
  config_password_hash = none;
  config_password_expiry = none;
  push_key = none;
}

abbrev pub user : User
user = record { id = text "ann"; api_token = text "k"; login_token = text "l"; proxy_config = none }

abbrev pub room : Room
room = record { id = text "!r"; owner = 7; deleted = false }

abbrev pub az : AppService
az = record { row = row; login_token = none; created_ = false }

-- Nothing is cached yet.
abbrev pub store : Store
store = record {
  az_table = (7, row) ∷ [];
  room_table = (text "!r", room) ∷ [];
  user_table = (text "ann", user) ∷ [];
  azs = record { cells = λ _. az; fresh = 0 };
  rooms = record { cells = λ _. room; fresh = 0 };
  users = record { cells = λ _. user; fresh = 0 };
  az_by_id = [];
  az_by_owner = [];
  room_by_id = [];
  user_by_id = [];
  user_by_api_token = [];
}

-- A message of the given sender, sent at the time 1000.
abbrev pub message_from : Str → Fields
message_from sender = field (text "type") (str (text "m.room.message")) (
    field (text "room_id") (str (text "!r")) (
      field (text "sender") (str sender) (
        field (text "origin_server_ts") (num 1000)
          (field (text "content") (obj (field (text "body") (str (text "hi")) end)) end))))

abbrev pub message : Fields
message = message_from (text "@ann:b")

abbrev pub bundle : Events ℕ
bundle = record {
  txn_id = text "t";
  pdu = message ∷ [];
  edu = [];
  types = str (text "m.room.message") ∷ [];
  otk_count = (text "@ann:b", 3) ∷ [];
  device_lists = no_lists;
}

abbrev pub as_count : Json → Result ℕ
as_count (num n) = ok n
as_count _ = err type_error

abbrev pub strs : List Str → Items
strs [] = nil
strs (s ∷ l) = cons (str s) (strs l)

abbrev pub as_strs : Items → Result (List Str)
as_strs nil = ok []
as_strs (cons (str s) l) = elim (as_strs l) [ ok r ↦ ok (s ∷ r) | err e ↦ err e ]
as_strs (cons _ l) = err type_error

abbrev pub lists_of : Result (List Str) → Result (List Str) → Result DeviceLists
lists_of (ok a) (ok b) = ok (record { changed = a; left = b })
lists_of _ _ = err type_error

abbrev pub as_lists : Json → Result DeviceLists
as_lists (obj (field _ (arr a) (field _ (arr b) end))) = lists_of (as_strs a) (as_strs b)
as_lists _ = err type_error

abbrev pub codec : Codec ℕ
codec = record {
  otk_serialize = num;
  otk_deserialize = as_count;
  lists_serialize = λ l.
      obj (
        field (text "changed") (arr (strs l.changed))
          (field (text "left") (arr (strs l.left)) end));
  lists_deserialize = as_lists;
}

as_strs-strs : (l : List Str) → as_strs (strs l) ≡ ok l
as_strs-strs [] = refl
as_strs-strs (s ∷ l) = ground (arith, as_strs-strs l)

pub codec-IsLossless : IsLossless codec
unfolding Json.truthy
codec-IsLossless = record {
  otk = λ o. refl;
  lists = λ l. ground (arith, as_strs-strs l.changed, as_strs-strs l.left);
  lists_truthy = λ l h. refl;
}

-- Naming this on an `unfolding` line opens all that routing computes with.
unfoldable pub running : Unit {0}
unfolding Dict.get Dict.set Dict.remove Dict.update Json.get text str_beq one_of starts_with
    ends_with strip_prefix Json.is_one_of Json.json_len Json.truthy_at Json.truthy Json.as_dict
    Json.as_str Json.is_text Azs.get Azs.find Azs.join Azs.load Azs.new_az Azs.add_to_cache
    Azs.select_by_owner Azs.change Azs.set_address Azs.set_push Azs.bool_beq Azs.delete
    Azs.delete_row Azs.delete_from_cache Azs.insert Azs.insert_row Azs.create Azs.find_or_create
    Rooms.get Rooms.load Rooms.new_room Rooms.add_to_cache Rooms.insert Rooms.insert_row
    Rooms.mark_deleted Proxy.is_redacted Proxy.collect_in_room Proxy.as_key Proxy.find_target
    Proxy.to_room Proxy.append_event Proxy.at_key Proxy.collect_for_user Proxy.is_member_of_bridge
    Proxy.register_for Proxy.register_room Proxy.to_device Proxy.type_of Proxy.collect_event
    Proxy.collect_events UserIds.find_named UserIds.get_az_from_user_id UserIds.parse_user_id
    UserIds.slice_between UserIds.split_localpart UserIds.split_once Util.and_not_puppeted
    Util.any_puppet Util.content_of Util.in_set Util.is_double_puppeted Util.owner_mxid
    Util.puppet_content Util.puppet_key Util.sender_allowed Util.should_forward_pdu
running = tt
