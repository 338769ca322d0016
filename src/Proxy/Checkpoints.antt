-- ===== src/Proxy/Checkpoints.antt =====
-- The checkpoints of the events that are handed on: `send_message_send_checkpoints`
-- (mautrix_asmux/api/as_proxy.py). A step is the text of its value.
use mautrix_asmux.Prelude.{
  ◌≡◌, ◌∙◌, refl, ap, Bool, Option, none, some, List, [], ◌∷◌, ◌++◌, Str, text, str_eq, str_beq,
  ◌==◌, map, keep, if◌then◌else◌, is_empty, keep-append,
}
use mautrix_asmux.Json.{Json, obj, Fields, get}
use mautrix_asmux.Events.{Events}

-- What the program sets of a `MessageSendCheckpoint`; the status is SUCCESS and the reporter ASMUX.
pub record Checkpoint : Type 0 where
  pub event_id : Option Json
  pub room_id : Option Json
  pub event_type : Option Json
  pub step : Str
  pub timestamp : Option Json
  pub client_type : Option Json
  pub client_version : Option Json

unfoldable pub homeserver_checkpoint : Fields → Checkpoint
homeserver_checkpoint event = record {
  event_id = get (text "event_id") event;
  room_id = get (text "room_id") event;
  event_type = get (text "type") event;
  step = text "HOMESERVER";
  timestamp = get (text "origin_server_ts") event;
  client_type = none;
  client_version = none;
}

-- The time of the client stands in an object; any other content raises one of the exceptions that
-- are caught.
unfoldable pub client_time : Fields → Option (Fields × Json)
client_time event = elim (get (text "content") event) [
  | some (obj content) ↦ elim (get (text "com.beeper.origin_client_ts") content) [
    | none ↦ none
    | some time ↦ some (content, time)
  ]
  | _ ↦ none
]

unfoldable pub client_checkpoints : Fields → Option (Fields × Json) → List Checkpoint
unfolding homeserver_checkpoint
client_checkpoints event none = []
client_checkpoints event (some (content, time)) =
    record (homeserver_checkpoint event) {
      step = text "CLIENT";
      timestamp = some time;
      client_type = get (text "com.beeper.origin_client_type") content;
      client_version = get (text "com.beeper.origin_client_version") content;
    }
    ∷ []

-- The loop over the PDUs
unfoldable pub checkpoints_of : List Fields → List Checkpoint
unfolding client_checkpoints client_time homeserver_checkpoint
checkpoints_of [] = []
checkpoints_of (event ∷ pdus) =
    client_checkpoints event (client_time event)
    ++ homeserver_checkpoint event ∷ checkpoints_of pdus

-- `send_message_send_checkpoints`: what it sends, if anything.
unfoldable pub send_message_send_checkpoints :
    {O : Type 0} → Str → Events O → Option (List Checkpoint)
unfolding checkpoints_of
send_message_send_checkpoints checkpoint_url events =
    if is_empty checkpoint_url
    then none
    else (let l = checkpoints_of events.pdu in if is_empty l then none else some l)

abbrev at_homeserver : Checkpoint → Bool
at_homeserver c = c.step == text "HOMESERVER"

kept_clients :
    (event : Fields) (time : Option (Fields × Json))
    → keep at_homeserver (client_checkpoints event time) ≡ []
unfolding client_checkpoints text str_beq
kept_clients event none = refl
kept_clients event (some (content, time)) = refl

-- Each PDU has one checkpoint of the homeserver, in the order of the PDUs, whatever those of the
-- client between them are.
pub keep-checkpoints_of :
    (pdus : List Fields) → keep at_homeserver (checkpoints_of pdus) ≡ map homeserver_checkpoint pdus
unfolding checkpoints_of homeserver_checkpoint text str_beq
keep-checkpoints_of [] = refl
keep-checkpoints_of (event ∷ pdus) =
    keep-append at_homeserver (client_checkpoints event (client_time event))
      (homeserver_checkpoint event ∷ checkpoints_of pdus)
    ∙ (ap (λ l. l ++ keep at_homeserver (homeserver_checkpoint event ∷ checkpoints_of pdus))
          (kept_clients event (client_time event))
        ∙ ap (λ l. homeserver_checkpoint event ∷ l) (keep-checkpoints_of pdus))
