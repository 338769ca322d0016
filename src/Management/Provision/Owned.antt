-- ===== src/Management/Provision/Owned.antt =====
-- To whom the appservice of `provision_appservice` belongs (mautrix_asmux/api/management_api.py).
use mautrix_asmux.Prelude.{
  ℕ, ◌≡◌, refl, ap, ◌∙◌, Bool, true, false, not, Option, none, some, [], Str, text, str_eq, nat_eq,
  pair_eq, arith, Option-cases, Bool-cases, inl, inr, ◌==◌,
}
use mautrix_asmux.Errors.{http, HttpError}
use mautrix_asmux.Result.{ok}
use mautrix_asmux.Exec.{Returns, Returns-continue, continue-keeps, raise_if}
use mautrix_asmux.Env.{Env}
use mautrix_asmux.Dict
use mautrix_asmux.Dict.{Dict}
use mautrix_asmux.Store.{Store, User, AppService, AzRow, read, alloc}
use mautrix_asmux.Database.Azs
use mautrix_asmux.Database.Azs.{Fresh, change, made}
use mautrix_asmux.Database.Azs.Keyed.{IsKeyed}
use mautrix_asmux.Database.Azs.Calls.{HasOwner, owner-find}
use mautrix_asmux.Database.Azs.Passwords.{Base32, generate_password}
use mautrix_asmux.Management.{Access, by_user, Target, by_id, by_name, is_part, get_by_id}
use mautrix_asmux.Management.Owners.{Owns, get_by_id-Owns}
use mautrix_asmux.Management.Changes.{error_wrap_rows}
use mautrix_asmux.Management.Provision.{
  Body, Draws, Registration, get_or, owner_of, set_login_token, make_for, get_or_make, provisioned,
  make_config, settle, respond, refresh, update, provision_body, provision_appservice,
}

-- The object `r` has the owner and the prefix.
abbrev Holds : ℕ → Str → Str → Store → Type 0
Holds r owner prefix s = HasOwner owner prefix (read s.azs r)

insert_objects : (r : ℕ) (s : Store) → (Azs.insert r s).1.azs ≡ s.azs
unfolding Azs.insert Azs.insert_row Azs.add_to_cache
insert_objects r s = ground arith

create-Holds :
    (user : User) (prefix bot address : Str) (push : Bool) (fresh : Fresh) (found : Option ℕ)
    (s : Store)
    → ((r : ℕ) → found ≡ some r → Holds r user.id prefix s)
    → Returns
        (λ r t. Holds r user.id prefix t)
        (Azs.create user prefix bot address push fresh found s)
unfolding Azs.create
create-Holds user prefix bot address push fresh (some r) s h = record {
  at = λ q e. ground (arith, h r refl);
}
create-Holds user prefix bot address push fresh none s h = record {
  at = λ q e. ground (
    arith,
    insert_objects s.azs.fresh
        (record s { azs = alloc (made user prefix bot address push fresh) s.azs }),
  );
}

find_or_create-Holds :
    (user : User) (prefix bot address : Str) (push : Bool) (fresh : Fresh) (s : Store)
    → IsKeyed s
    → Returns
        (λ r t. Holds r user.id prefix t)
        (Azs.find_or_create user prefix bot address push fresh s)
unfolding Azs.find_or_create
find_or_create-Holds user prefix bot address push fresh s keyed =
    elim (Option-cases (Dict.get (user.id, prefix) s.az_by_owner)) [
      | inl miss ↦
          rw (miss, Azs.find_or_create)
            (let (found, s') = Azs.find user.id prefix s in
              Returns-continue found s' _ (λ az e.
                create-Holds user prefix bot address push fresh az s'
                  (λ r q. owner-find user.id prefix r keyed (e ∙ ap ok q))))
      | inr (r, hit) ↦
          rw (hit, Azs.find_or_create)
            (record { at = λ q e. ground (arith, keyed.by_owner user.id prefix r hit) })
    ]

module _ (r : ℕ) (owner prefix : Str) where
  change-Holds :
      (f : AzRow → AzRow) (s : Store)
      → ((row : AzRow) → (f row).owner ≡ row.owner)
      → ((row : AzRow) → (f row).prefix ≡ row.prefix)
      → Holds r owner prefix s
      → Holds r owner prefix (change r f s)
  unfolding change
  change-Holds f s same_owner same_prefix h =
      ground (arith, same_owner (read s.azs r).row, same_prefix (read s.azs r).row)

  set_address-Holds :
      (address : Option Str) (s : Store)
      → Holds r owner prefix s
      → Holds r owner prefix (Azs.set_address r address s).1
  unfolding Azs.set_address
  set_address-Holds none s h = h
  set_address-Holds (some address) s h = elim (Bool-cases ((read s.azs r).address == address)) [
    | inl same ↦ rw (same, Azs.set_address) h
    | inr new ↦
        rw (new, Azs.set_address)
          (change-Holds (λ row. record row { address = address }) s (λ _. refl) (λ _. refl) h)
  ]

  set_push-Holds :
      (push : Option Bool) (s : Store)
      → Holds r owner prefix s
      → Holds r owner prefix (Azs.set_push r push s).1
  unfolding Azs.set_push
  set_push-Holds none s h = h
  set_push-Holds (some push) s h = elim (Bool-cases (Azs.bool_beq push (read s.azs r).push)) [
    | inl same ↦ rw (same, Azs.set_push) h
    | inr new ↦
        rw (new, Azs.set_push)
          (change-Holds (λ row. record row { push = push }) s (λ _. refl) (λ _. refl) h)
  ]

  refresh-Holds :
      (body : Body) (created : Bool) (s : Store)
      → Holds r owner prefix s
      → Holds r owner prefix (refresh r body created s).1
  unfolding refresh
  refresh-Holds body true s h = h
  refresh-Holds body false s h =
      let (set, s') = Azs.set_address r body.address s in
      let kept = set_address-Holds body.address s h in
      continue-keeps (Holds r owner prefix) set s' _ kept (λ _ _.
        let (pushed, t) = Azs.set_push r body.push s' in
        let held = set_push-Holds body.push s' kept in
        continue-keeps (Holds r owner prefix) pushed t _ held (λ _ _. held))

  module _ (base32 : Base32) (has_template : Str → Bool) where
    make_config-Holds :
        (body : Body) (draws : Draws) (asked : Bool) (s : Store)
        → Holds r owner prefix s
        → Holds r owner prefix (make_config base32 has_template r body draws asked s).1
    unfolding make_config generate_password
    make_config-Holds body draws false s h = h
    make_config-Holds body draws true s h = elim (Bool-cases (has_template (read s.azs r).prefix)) [
      | inl has ↦ rw has (change-Holds _ s (λ _. refl) (λ _. refl) h)
      | inr lacks ↦ rw lacks h
    ]

    respond-Holds :
        (config : Option (Str × ℕ)) (published : Option ℕ) (s : Store)
        → Holds r owner prefix s
        → Returns (λ reg _. HasOwner owner prefix reg.az) (respond r config published s)
    unfolding respond settle
    respond-Holds config published s h = record { at = λ reg e. ground arith }

    update-Holds :
        (body : Body) (draws : Draws) (s : Store)
        → Holds r owner prefix s
        → Returns
            (λ reg _. HasOwner owner prefix reg.az)
            (update base32 has_template body draws r s)
    unfolding update
    update-Holds body draws s h =
        let created = (read s.azs r).created_ in
        let (refreshed, s') = refresh r body created s in
        Returns-continue refreshed s' _ (λ published _.
          let (config, t) = make_config base32 has_template r body draws body.generate_config s' in
          Returns-continue config t _ (λ c _. respond-Holds c published t (
            make_config-Holds body draws body.generate_config s' (refresh-Holds body created s h))))

load_users : (a : Option AppService) (s : Store) → (Azs.load a s).1.users ≡ s.users
unfolding Azs.load Azs.new_az Azs.add_to_cache
load_users none s = refl
load_users (some a) s = refl

get_users : (id : ℕ) (s : Store) → (Azs.get id s).1.users ≡ s.users
unfolding Azs.get
get_users id s = ground (arith, load_users (Azs.join s.user_table (Dict.get id s.az_table)) s)

get_by_id_users :
    (access : Access) (id : Option ℕ) (s : Store) → (get_by_id access id s).1.users ≡ s.users
unfolding get_by_id
get_by_id_users access none s = refl
get_by_id_users access (some uuid) s =
    let (found, s') = Azs.get uuid s in
    continue-keeps (λ (t : Store). t.users ≡ s.users) found s' _ (get_users uuid s)
      (λ az _. ap (λ (t : Store). t.users) (error_wrap_rows access az s') ∙ get_users uuid s)

-- The object `r` belongs to the user.
abbrev OwnedBy : Str → ℕ → Store → Type 0
OwnedBy id r s = (read s.azs r).owner ≡ id

owner_of_user :
    (user : ℕ) (direct : Bool) (owner : Str) (draws : Draws) (s : Store) (u : ℕ)
    → (owner_of (by_user user direct) owner draws s).0 ≡ ok u
    → (u ≡ user) × ((owner_of (by_user user direct) owner draws s).1 ≡ s)
unfolding owner_of
owner_of_user user direct owner draws s u e = ground arith

make_for-OwnedBy :
    (user : ℕ) (prefix : Str) (body : Body) (draws : Draws) (s : Store)
    → IsKeyed s
    → Returns (OwnedBy (read s.users user).id) (make_for user prefix body draws s)
unfolding make_for set_login_token
make_for-OwnedBy user prefix body draws s keyed =
    let bot = get_or (text "bot") body.bot in
    let address = get_or [] body.address in
    let push = get_or true body.push in
    let (found, s') =
      Azs.find_or_create (read s.users user) prefix bot address push draws.fresh s in
    Returns-continue found s' _ (λ r e. record {
      at = λ q f. ground (
        arith,
        (find_or_create-Holds (read s.users user) prefix bot address push draws.fresh s keyed).at r
            e,
      );
    })

module _ (user : ℕ) (direct : Bool) (s : Store) where
  found-OwnedBy :
      (id : Option ℕ)
      → Returns (OwnedBy (read s.users user).id) (get_by_id (by_user user direct) id s)
  found-OwnedBy id = record {
    at = λ r e.
        unfold Owns in
        let owns = (get_by_id-Owns (by_user user direct) id s).at r e in
        ground (arith, get_by_id_users (by_user user direct) id s);
  }

  made-OwnedBy :
      (owner prefix : Str) (body : Body) (draws : Draws)
      → IsKeyed s
      → Returns
          (OwnedBy (read s.users user).id)
          (get_or_make (by_user user direct) owner prefix body draws s)
  unfolding get_or_make
  made-OwnedBy owner prefix body draws keyed =
      Returns-continue (raise_if (not (is_part owner)) (http HttpError.invalid_owner) s).0 s _
        (λ _ _.
          Returns-continue (raise_if (not (is_part prefix)) (http HttpError.invalid_prefix) s).0 s _
            (λ _ _.
              let (found, s') = owner_of (by_user user direct) owner draws s in
              Returns-continue found s' _ (λ u e.
                let (same, left) = owner_of_user user direct owner draws s u e in
                rw (same, left) (make_for-OwnedBy user prefix body draws s keyed))))

  provisioned-OwnedBy :
      (env : Env) (target : Target) (body : Body) (draws : Draws)
      → IsKeyed s
      → Returns
          (OwnedBy (read s.users user).id)
          (provisioned env (by_user user direct) target body draws s)
  unfolding provisioned
  provisioned-OwnedBy env (by_id id) body draws keyed = found-OwnedBy (env.parse_uuid id)
  provisioned-OwnedBy env (by_name owner prefix) body draws keyed =
      made-OwnedBy owner prefix body draws keyed

module _ (base32 : Base32) (has_template : Str → Bool) (env : Env) where
  -- In a keyed store, the appservice that a user is given by `provision_appservice`, found or created,
  -- belongs to this user, whatever the path names.
  pub provision_appservice-OwnedBy :
      (user : ℕ) (direct : Bool) (target : Target) (body : Option Body) (draws : Draws) (s : Store)
      (reg : Registration)
      → IsKeyed s
      → (provision_appservice base32 has_template env (by_user user direct) target body draws s).0
        ≡ ok reg
      → reg.az.owner ≡ (read s.users user).id
  unfolding provision_appservice provision_body
  provision_appservice-OwnedBy user direct target none draws s reg keyed e = ground arith
  provision_appservice-OwnedBy user direct target (some body) draws s reg keyed e =
      let (found, s') = provisioned env (by_user user direct) target body draws s in
      (Returns-continue {Q = λ reg _. reg.az.owner ≡ (read s.users user).id} found s' _ (λ r q.
          record {
            at = λ answer f.
                let owned =
                  (provisioned-OwnedBy user direct s env target body draws keyed).at r q in
                ((update-Holds r (read s.users user).id (read s'.azs r).prefix base32 has_template
                    body draws s' (owned, refl)).at
                  answer f).0;
          })).at
        reg e
