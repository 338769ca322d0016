-- ===== src/Tests/Chats.antt =====
-- Direct chats, and the user ids that are remembered.
use mautrix_asmux.Prelude.{ℕ, ◌≡◌, refl, true, Option, some, [], ◌∷◌, Str, text, str_eq, nat_eq}
use mautrix_asmux.Json
use mautrix_asmux.Result.{ok}
use mautrix_asmux.Json.{Json, obj, str, Items, arr, nil, Fields, end, field, is_text}
use mautrix_asmux.Store.{read}
use mautrix_asmux.ClientProxy.{find_appservice}
use mautrix_asmux.ClientProxy.Session
use mautrix_asmux.ClientProxy.Session.{Reply, answered, json, get_user_id}
use mautrix_asmux.ClientProxy.Session.Known.{Said, user_ids_after, get_user_id-Said}
use mautrix_asmux.ClientProxy.DirectChats
use mautrix_asmux.ClientProxy.DirectChats.{Session, Replies, update_dms, bearer_token, owner_of}
use mautrix_asmux.ClientProxy.DirectChats.Kept.{IsDict, Put, update_dms-Put}
use mautrix_asmux.Tests.Samples.{store}
use mautrix_asmux.Tests.Proxied.{passing, open_env}

unfoldable chatting : Unit {0}
unfolding passing DirectChats.is_current DirectChats.remove_current_dms DirectChats.update_with
    DirectChats.bearer_token DirectChats.current_dms DirectChats.new_dms DirectChats.asserted
    DirectChats.owner_of DirectChats.done DirectChats.replace_dms DirectChats.update_for
    DirectChats.update_dms Session.read_json Session.custom_error Session.checked Session.user_id_in
    Session.whoami_user Session.remember Session.get_user_id Json.set_field
chatting = tt

abbrev whoami : Reply
whoami = answered 200 true (json (obj (field (text "user_id") (str (text "@ann:b")) end)))

-- A user of the bridge has one chat, and another user too.
abbrev chats : Fields
chats = field (text "@_ann_tg_joe:b") (arr nil) (field (text "@eve:b") (str (text "kept")) end)

abbrev replies : Replies
replies = record {
  whoami = whoami;
  current = answered 200 true (json (obj chats));
  stored = answered 200 true (json (obj end));
}

abbrev body : Fields
body = field (text "@_ann_tg_bob:b") (arr nil) end

abbrev header : Option Str
header = some (text "00000000-0000-0000-0000-000000000007-s")

abbrev same : Str → Str
same s = s

abbrev session : Session
session = record { store = store; user_ids = []; puts = [] }

body-IsDict : IsDict body
unfolding IsDict Json.get
body-IsDict = (refl, tt)

update-body :
    (update_dms open_env same true (some (text "Bearer t")) header (some body) replies session).0
    ≡ ok tt
unfolding chatting
update-body = refl

update_dms-Put_example :
    let call =
      update_dms open_env same true (some (text "Bearer t")) header (some body) replies session in
    let (found, t) = find_appservice open_env true true header store in
    (token : Str) × (bearer_token (some (text "Bearer t")) ≡ ok token)
    × (user_id : Json) × ((get_user_id same whoami token []).0 ≡ ok user_id)
    × (r : ℕ) × (found ≡ ok (some r))
    × (is_text (owner_of open_env (read t.azs r)) (some user_id) ≡ true)
    × Put open_env (read t.azs r) true (text "@_ann_tg_joe:b") body replies.current [] call.1.puts
update_dms-Put_example =
    update_dms-Put open_env same true (some (text "Bearer t")) header body replies session
      (text "@_ann_tg_joe:b") body-IsDict update-body

known : (get_user_id same whoami (text "t") (user_ids_after same [])).0 ≡ ok (str (text "@ann:b"))
unfolding chatting user_ids_after
known = refl

get_user_id-Said_example : Said ((text "t", whoami) ∷ []) (text "t") (str (text "@ann:b"))
get_user_id-Said_example =
    get_user_id-Said same (λ a b h. h) [] whoami (text "t") (str (text "@ann:b")) known
