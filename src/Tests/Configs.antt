-- ===== src/Tests/Configs.antt =====
-- Provisioning and the download of a configuration.
use mautrix_asmux.Prelude.{
  ℕ, ◌+◌, ◌-◌, ◌≤◌, ◌<◌, ◌%◌, ◌≡◌, ◌≢◌, refl, ap, ◌∙◌, true, false, not, none, some, [], ◌∷◌, ◌++◌,
  Str, text, str_eq, nat_eq, pair_eq, length, All, ltb, arith,
}
use mautrix_asmux.Dict
use mautrix_asmux.Dict.{Dict}
use mautrix_asmux.Result.{ok}
use mautrix_asmux.Store.{Store, AppService, AzRow, read}
use mautrix_asmux.Database.Azs
use mautrix_asmux.Database.Azs.Keyed.{IsKeyed}
use mautrix_asmux.Database.Azs.Calls.{HasOwner}
use mautrix_asmux.Database.Azs.Passwords.{
  Base32, replicate, rstrip, rstrip-append, pad_length, check_password, equals_sign,
}
use mautrix_asmux.Management
use mautrix_asmux.Management.{Access, by_user, Target, by_id, by_name}
use mautrix_asmux.Management.Provision
use mautrix_asmux.Management.Provision.{
  Body, Draws, Registration, provision_appservice, update, settle,
}
use mautrix_asmux.Management.Provision.Lifetimes.{provision_config_bounds}
use mautrix_asmux.Management.Provision.Owned.{provision_appservice-OwnedBy}
use mautrix_asmux.Management.Downloads
use mautrix_asmux.Management.Downloads.{
  authorize_config_download, register_config, download_config, configure_imessage, Addresses,
  Location,
}
use mautrix_asmux.Management.Downloads.Authorized.{IsOpen, authorize_config_download-IsOpen}
use mautrix_asmux.Management.Downloads.Redirect.{download_config-register_config}
use mautrix_asmux.Tests.Samples.{env, row, az, store, running}

-- Each byte is moved out of the range of the equals sign.
shift : Str → Str
shift [] = []
shift (c ∷ s) = (c + 100) ∷ shift s

shift_back : Str → Str
shift_back [] = []
shift_back (c ∷ s) = (c - 100) ∷ shift_back s

shift_back-shift : (s : Str) → shift_back (shift s) ≡ s
unfolding shift shift_back
shift_back-shift [] = refl
shift_back-shift (c ∷ s) = ground (arith, shift_back-shift s)

shift_lem : (s : Str) → All (λ c. c ≢ equals_sign) (shift s)
unfolding shift
shift_lem [] = tt
shift_lem (c ∷ s) = (omega arith, shift_lem s)

shift_whole : (n : ℕ) → (n + pad_length n) % 8 ≡ 0
unfolding pad_length
shift_whole n = omega arith

shift_few : (n : ℕ) → pad_length n < 8
unfolding pad_length
shift_few n = omega arith

abbrev base32 : Base32
base32 = record {
  encode = λ t. shift t ++ replicate (pad_length (length (shift t)));
  decode = λ s. some (shift_back (rstrip s));
  upper = λ s. s;
  sha256 = λ t. t;
  body = shift;
  signs = λ t. pad_length (length (shift t));
  decode_encode = λ t.
      ap (λ s. some (shift_back s))
        (rstrip-append (shift t) (pad_length (length (shift t))) (shift_lem t))
      ∙ ap some (shift_back-shift t);
  encode_eq = λ t. refl;
  no_sign = shift_lem;
  few_signs = λ t. shift_few (length (shift t));
  whole = λ t. shift_whole (length (shift t));
  upper_body = λ t. refl;
}

-- The sample appservice with a password.
abbrev secured : AzRow
secured = record row { config_password_hash = some (text "x") }

abbrev secured_store : Store
secured_store = record store { az_table = (7, secured) ∷ [] }

pub with_row-IsKeyed : (r : AzRow) → r.id ≡ 7 → IsKeyed (record store { az_table = (7, r) ∷ [] })
unfolding Dict.get
with_row-IsKeyed r same = record {
  rows = λ id row e. ground (arith, same);
  by_id = λ id r e. cc;
  by_owner = λ o p r e. cc;
}

abbrev password : Str
password = 220 ∷ []

unfoldable configuring : Unit {0}
unfolding running shift shift_back rstrip pad_length Downloads.authorize_config_download
    Downloads.authorize_found Downloads.register_config Downloads.config_path
    Downloads.download_config Azs.Passwords.check_password Azs.Passwords.check_digest
    Azs.Passwords.generate_password Azs.Passwords.is_expired Provision.provision_appservice
    Provision.provision_body Provision.provisioned Provision.get_or_make Provision.make_for
    Provision.owner_of Provision.get_or Provision.set_login_token Provision.update Provision.refresh
    Provision.make_config Provision.lifetime_of Provision.respond Provision.settle Provision.shown
    Management.is_part Management.all_part_chars Management.is_part_char Management.is_other
configuring = tt

allowed :
    (authorize_config_download base32 (text "tg") (some (text "ann", password)) 0 secured_store).0
    ≡ ok 0
unfolding configuring
allowed = refl

authorize_config_download-IsOpen_example :
    HasOwner (text "ann") (text "tg") (
      read
        (authorize_config_download base32
          (text "tg")
          (some (text "ann", password))
          0
          secured_store).1.azs
        0)
    × IsOpen base32 password 0
        (read
          (authorize_config_download base32
            (text "tg")
            (some (text "ann", password))
            0
            secured_store).1.azs
          0).row
authorize_config_download-IsOpen_example =
    authorize_config_download-IsOpen base32 (text "ann") (text "tg") password 0 0 secured_store
      (with_row-IsKeyed secured refl) allowed

abbrev location : Location
location = record {
  path = text "/_matrix/asmux/public/config/tg/download";
  user = text "ann";
  password = 221 ∷ [];
}

to_location :
    (register_config base32 (text "tg") (some (text "ann", password)) (text "y") 0 secured_store).0
    ≡ ok location
unfolding configuring
to_location = refl

abbrev addresses : Addresses
addresses = record {
  public_address = text "p";
  websocket_address = text "w";
  server_name = text "b";
  namespace_prefix = text "_";
  print_uuid = λ _. text "7";
}

download_config-register_config_example :
    (location.user ≡ text "ann")
    × (found : AppService) × HasOwner (text "ann") (text "tg") found
    × ((download_config base32 addresses []
          (text "tg")
          (some (location.user, location.password))
          9
          (register_config base32
            (text "tg")
            (some (text "ann", password))
            (text "y")
            0
            secured_store).1).0
        ≡ ok (configure_imessage addresses found []))
download_config-register_config_example =
    download_config-register_config base32 addresses [] (text "ann") (text "tg") password (text "y")
      0 9 secured_store location (with_row-IsKeyed secured refl) to_location

abbrev asks : Body
asks = record {
  bot = none;
  address = some (text "u");
  push = none;
  generate_config = true;
  lifetime = some 5;
}

abbrev draws : Draws
draws = record {
  api_token = [];
  login_token = [];
  fresh = record { uuid = 8; hs_token = []; as_token = [] };
  token = text "y";
  now = 100;
}

abbrev given : Registration
given = record {
  az = record {
    row = record row {
      address = text "u";
      config_password_hash = some (text "y");
      config_password_expiry = some 130;
    };
    login_token = some (text "l");
    created_ = false;
  };
  config = some (221 ∷ [], 30);
  status = 200;
  published = some 7;
}

abbrev by_ann : Access
by_ann = by_user 0 false

provision-given :
    (provision_appservice base32
      (λ _. true)
      env
      by_ann
      (by_name (text "ann") (text "tg"))
      (some asks)
      draws
      store).0
    ≡ ok given
unfolding configuring
provision-given = refl

provision_config_bounds_example :
    (30 ≤ 30)
    × (30 ≤ 3600)
    × (check_password base32 given.az.row (221 ∷ []) 131 ≡ ok (not (ltb (100 + 30) 131)))
provision_config_bounds_example =
    provision_config_bounds base32 (λ _. true) env by_ann (by_name (text "ann") (text "tg"))
      (some asks) draws store given (221 ∷ []) 30 131 provision-given refl

provision_appservice-OwnedBy_example : given.az.owner ≡ (read store.users 0).id
provision_appservice-OwnedBy_example =
    provision_appservice-OwnedBy base32 (λ _. true) env 0 false (by_name (text "ann") (text "tg"))
      (some asks) draws store given (with_row-IsKeyed row refl) provision-given

-- The object 0 has the mark of a new appservice.
abbrev marked : Store
marked = record store { azs = record { cells = λ _. record az { created_ = true }; fresh = 1 } }

abbrev plain : Body
plain = record asks { generate_config = false }
