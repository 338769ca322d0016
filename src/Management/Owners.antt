-- ===== src/Management/Owners.antt =====
-- A user reads and changes nothing but his own, and learns nothing of what others have
-- (mautrix_asmux/api/management_api.py).
use mautrix_asmux.Prelude.{
  ℕ, ◌≡◌, ◌≢◌, ◌⊎◌, inl, inr, Bool, Option, none, some, Str, str_eq, str_beq_iff, nat_eq, arith,
}
use mautrix_asmux.Errors.{Exn, http, HttpError}
use mautrix_asmux.Result.{ok, err}
use mautrix_asmux.Exec.{continue-fails, Returns, Returns-continue, raise_if}
use mautrix_asmux.Env.{Env}
use mautrix_asmux.Store.{Store, AppService, read}
use mautrix_asmux.Dict
use mautrix_asmux.Dict.{Dict, get-remove}
use mautrix_asmux.Database.Azs
use mautrix_asmux.Management.{
  Access, root, by_user, Target, by_id, by_name, is_other, error_wrap, get_by_id, get_by_name,
  get_appservice,
}

-- What a request may touch: anything with the shared secret, and else the user's own.
unfoldable pub Owns : Access → ℕ → Store → Type 0
Owns root az s = Unit
Owns (by_user user _) az s = (read s.azs az).owner ≡ (read s.users user).id

error_wrap-Owns :
    (access : Access) (az : Option ℕ) (s : Store) → Returns (Owns access) (error_wrap access az s)
unfolding error_wrap is_other Owns
error_wrap-Owns root none s = record { at = λ r e. cc }
error_wrap-Owns root (some az) s = record { at = λ r e. tt }
error_wrap-Owns (by_user user direct) none s = record { at = λ r e. cc }
error_wrap-Owns (by_user user direct) (some az) s = record {
  at = λ r e. ground (arith, str_beq_iff (read s.users user).id (read s.azs az).owner);
}

pub get_by_id-Owns :
    (access : Access) (id : Option ℕ) (s : Store) → Returns (Owns access) (get_by_id access id s)
unfolding get_by_id
get_by_id-Owns access none s = record { at = λ r e. cc }
get_by_id-Owns access (some uuid) s =
    let (found, s') = Azs.get uuid s in
    Returns-continue found s' _ (λ az _. error_wrap-Owns access az s')

get_by_name-Owns :
    (access : Access) (owner prefix : Str) (s : Store)
    → Returns (Owns access) (get_by_name access owner prefix s)
unfolding get_by_name
get_by_name-Owns access owner prefix s =
    Returns-continue
      (raise_if (is_other access owner s) (http HttpError.appservice_access_denied) s).0 s _
      λ _ _.
        let (found, s') = Azs.find owner prefix s in
        Returns-continue found s' _ (λ az _. error_wrap-Owns access az s')

-- What `_get_appservice` returns for a request of a user is an appservice of that user, whatever the
-- path names and the caches hold.
pub get_appservice-Owns :
    (env : Env) (access : Access) (target : Target) (s : Store) (r : ℕ)
    → (get_appservice env access target s).0 ≡ ok r
    → Owns access r (get_appservice env access target s).1
unfolding get_appservice
get_appservice-Owns env access (by_id id) s r = (get_by_id-Owns access (env.parse_uuid id) s).at r
get_appservice-Owns env access (by_name owner prefix) s r =
    (get_by_name-Owns access owner prefix s).at r

-- The two errors that a user may meet.
abbrev IsSilent : Exn → Type 0
IsSilent e = (e ≡ http HttpError.invalid_uuid) ⊎ (e ≡ http HttpError.appservice_access_denied)

load_returns : (a : Option AppService) (s : Store) (e : Exn) → (Azs.load a s).0 ≢ err e
unfolding Azs.load Azs.new_az
load_returns none s e h = cc
load_returns (some a) s e h = cc

get_returns : (id : ℕ) (s : Store) (e : Exn) → (Azs.get id s).0 ≢ err e
unfolding Azs.get
get_returns id s e h =
    ground (arith, load_returns (Azs.join s.user_table (Dict.get id s.az_table)) s)

find_returns : (owner prefix : Str) (s : Store) (e : Exn) → (Azs.find owner prefix s).0 ≢ err e
unfolding Azs.find
find_returns owner prefix s e h =
    ground
      (arith, load_returns (Azs.join s.user_table (Azs.select_by_owner owner prefix s.az_table)) s)

error_wrap_silent :
    (user : ℕ) (direct : Bool) (az : Option ℕ) (s : Store) (e : Exn)
    → (error_wrap (by_user user direct) az s).0 ≡ err e
    → e ≡ http HttpError.appservice_access_denied
unfolding error_wrap
error_wrap_silent user direct none s e h = cc
error_wrap_silent user direct (some az) s e h = ground arith

get_by_id-IsSilent :
    (user : ℕ) (direct : Bool) (id : Option ℕ) (s : Store) (e : Exn)
    → (get_by_id (by_user user direct) id s).0 ≡ err e
    → IsSilent e
unfolding get_by_id
get_by_id-IsSilent user direct none s e h = inl (ground arith)
get_by_id-IsSilent user direct (some uuid) s e h =
    let (found, s') = Azs.get uuid s in
    continue-fails IsSilent found s' _ (λ x q. absurd (get_returns uuid s x q))
      (λ az _ x q. inr (error_wrap_silent user direct az s' x q)) e h

get_by_name-IsSilent :
    (user : ℕ) (direct : Bool) (owner prefix : Str) (s : Store) (e : Exn)
    → (get_by_name (by_user user direct) owner prefix s).0 ≡ err e
    → IsSilent e
unfolding get_by_name
get_by_name-IsSilent user direct owner prefix s e h =
    continue-fails IsSilent
      (raise_if (is_other (by_user user direct) owner s) (http HttpError.appservice_access_denied)
        s).0
      s _ (λ x q. inr (ground arith))
      (λ _ _.
        let (found, s') = Azs.find owner prefix s in
        continue-fails IsSilent found s' _ (λ x q. absurd (find_returns owner prefix s x q))
          (λ az _ x q. inr (error_wrap_silent user direct az s' x q)))
      e h

-- The errors that a user gets from `_get_appservice` do not tell an appservice of somebody else from
-- one that does not exist: either the path holds no UUID, or access is denied.
pub get_appservice_silent :
    (env : Env) (user : ℕ) (direct : Bool) (target : Target) (s : Store) (e : Exn)
    → (get_appservice env (by_user user direct) target s).0 ≡ err e
    → (e ≡ http HttpError.invalid_uuid) ⊎ (e ≡ http HttpError.appservice_access_denied)
unfolding get_appservice
get_appservice_silent env user direct (by_id id) s e h =
    get_by_id-IsSilent user direct (env.parse_uuid id) s e h
get_appservice_silent env user direct (by_name owner prefix) s e h =
    get_by_name-IsSilent user direct owner prefix s e h
