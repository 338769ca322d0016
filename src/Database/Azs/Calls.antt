-- ===== src/Database/Azs/Calls.antt =====
-- Any sequence of calls of the methods of `AppService` (mautrix_asmux/database/table/appservice.py)
-- and of the cache invalidation in mautrix_asmux/redis.py.
use mautrix_asmux.Prelude.{
  ℕ, ◌≡◌, refl, Bool, Option, none, some, List, [], ◌∷◌, Str, str_eq, nat_eq, pair_eq, arith,
  str_beq_iff,
}
use mautrix_asmux.Dict
use mautrix_asmux.Store.{Store, User, PushKey, AppService, AzRow, read}
use mautrix_asmux.Result.{ok}
use mautrix_asmux.Exec.{Exec, ◌>>=◌, pure, continue-keeps}
use mautrix_asmux.Database.Azs
use mautrix_asmux.Database.Azs.{Fresh}
use mautrix_asmux.Database.Azs.Keyed.{
  IsKeyed, get-IsKeyed, find-IsKeyed, find_or_create-IsKeyed, set_address-IsKeyed, set_push-IsKeyed,
  change-IsKeyed, delete-IsKeyed, delete_from_cache-IsKeyed,
}

-- `RedisCacheHandler.handle_invalidate_az`: the object is fetched, then dropped from the caches.
unfoldable pub invalidate : Option ℕ → Exec Store (Unit {0})
invalidate none = pure tt
invalidate (some r) = Azs.delete_from_cache r

unfoldable pub handle_invalidate_az : ℕ → Exec Store (Unit {0})
unfolding invalidate
handle_invalidate_az id = do az ← Azs.get id; invalidate az

-- `RedisCacheHandler.setup.on_fail`, for this class
unfoldable pub empty_cache : Store → Store
empty_cache s = record s { az_by_id = []; az_by_owner = [] }

pub data Call : Type 0 where
  get : ℕ → Call
  find : Str → Str → Call
  find_or_create : User → Str → Str → Str → Bool → Fresh → Call
  set_address : ℕ → Option Str → Call
  set_push : ℕ → Option Bool → Call
  set_push_key : ℕ → Option PushKey → Call
  delete : ℕ → Call
  invalidated : ℕ → Call
  pubsub_failed : Call

-- The state after a call, whether it returned or raised.
unfoldable pub after : Call → Store → Store
after (Call.get id) s = (Azs.get id s).1
after (Call.find o p) s = (Azs.find o p s).1
after (Call.find_or_create u p b a push fresh) s = (Azs.find_or_create u p b a push fresh s).1
after (Call.set_address r a) s = (Azs.set_address r a s).1
after (Call.set_push r b) s = (Azs.set_push r b s).1
after (Call.set_push_key r k) s = (Azs.set_push_key r k s).1
after (Call.delete r) s = (Azs.delete r s).1
after (Call.invalidated id) s = (handle_invalidate_az id s).1
after Call.pubsub_failed s = empty_cache s

unfoldable pub after_all : List Call → Store → Store
unfolding after
after_all [] s = s
after_all (c ∷ cs) s = after_all cs (after c s)

empty_cache-IsKeyed : {s : Store} → IsKeyed s → IsKeyed (empty_cache s)
unfolding empty_cache Dict.get
empty_cache-IsKeyed h = record { rows = h.rows; by_id = λ id r e. cc; by_owner = λ o p r e. cc }

invalidate-IsKeyed : (az : Option ℕ) {s : Store} → IsKeyed s → IsKeyed (invalidate az s).1
unfolding invalidate
invalidate-IsKeyed none h = h
invalidate-IsKeyed (some r) h = delete_from_cache-IsKeyed r h

pub after-IsKeyed : (c : Call) {s : Store} → IsKeyed s → IsKeyed (after c s)
unfolding after
after-IsKeyed (Call.get id) h = get-IsKeyed id h
after-IsKeyed (Call.find o p) h = find-IsKeyed o p h
after-IsKeyed (Call.find_or_create u p b a push fresh) h =
    find_or_create-IsKeyed u p b a push fresh h
after-IsKeyed (Call.set_address r a) h = set_address-IsKeyed r a h
after-IsKeyed (Call.set_push r b) h = set_push-IsKeyed r b h
after-IsKeyed (Call.set_push_key r k) h =
    unfold Azs.set_push_key in change-IsKeyed r _ (λ _. refl) (λ _. refl) (λ _. refl) h
after-IsKeyed (Call.delete r) h = delete-IsKeyed r h
after-IsKeyed (Call.invalidated id) {s} h =
    unfold handle_invalidate_az in
    let (res, s') = Azs.get id s in
    continue-keeps IsKeyed res s' _ (get-IsKeyed id h)
      (λ az _. invalidate-IsKeyed az (get-IsKeyed id h))
after-IsKeyed Call.pubsub_failed h = empty_cache-IsKeyed h

pub after_all-IsKeyed : (cs : List Call) {s : Store} → IsKeyed s → IsKeyed (after_all cs s)
unfolding after_all
after_all-IsKeyed [] h = h
after_all-IsKeyed (c ∷ cs) h = after_all-IsKeyed cs (after-IsKeyed c h)

id-load :
    (id : ℕ) (a : Option AppService) (r : ℕ) (s : Store)
    → ((b : AppService) → a ≡ some b → b.id ≡ id)
    → (Azs.load a s).0 ≡ ok (some r)
    → (read (Azs.load a s).1.azs r).id ≡ id
unfolding Azs.load
id-load id none r s h e = cc
id-load id (some b) r s h e = ground (arith, h b refl)

pub id-join :
    (users : Dict.Dict Str User) (row : Option AzRow) (b : AppService)
    → Azs.join users row ≡ some b
    → row ≡ some b.row
unfolding Azs.join
id-join users none b e = cc
id-join users (some row) b e = ground arith

-- What `get` returns in a keyed store is an object with the id that was asked for.
pub id-get :
    (id r : ℕ) {s : Store}
    → IsKeyed s
    → (Azs.get id s).0 ≡ ok (some r)
    → (read (Azs.get id s).1.azs r).id ≡ id
unfolding Azs.get
id-get id r {s} h e =
    let row : Option AzRow = Dict.get id s.az_table in
    ground (
      arith,
      h.by_id id r,
      id-load id (Azs.join s.user_table row) r s
          (λ b q. h.rows id b.row (id-join s.user_table row b q)),
    )

-- The same for `find`.
abbrev pub HasOwner : Str → Str → AppService → Type 0
HasOwner owner prefix az = (az.owner ≡ owner) × (az.prefix ≡ prefix)

owner-load :
    (o p : Str) (a : Option AppService) (r : ℕ) (s : Store)
    → ((b : AppService) → a ≡ some b → HasOwner o p b)
    → (Azs.load a s).0 ≡ ok (some r)
    → HasOwner o p (read (Azs.load a s).1.azs r)
unfolding Azs.load
owner-load o p none r s h e = cc
owner-load o p (some b) r s h e = ground (arith, h b refl)

pub owner-select :
    (o p : Str) (rows : Dict.Dict ℕ AzRow) (row : AzRow)
    → Azs.select_by_owner o p rows ≡ some row
    → (row.owner ≡ o) × (row.prefix ≡ p)
unfolding Azs.select_by_owner
owner-select o p [] row e = cc
owner-select o p ((k, x) ∷ rows) row e =
    ground (arith, str_beq_iff x.owner o, str_beq_iff x.prefix p, owner-select o p rows row)

pub owner-find :
    (o p : Str) (r : ℕ) {s : Store}
    → IsKeyed s
    → (Azs.find o p s).0 ≡ ok (some r)
    → HasOwner o p (read (Azs.find o p s).1.azs r)
unfolding Azs.find
owner-find o p r {s} h e =
    let row : Option AzRow = Azs.select_by_owner o p s.az_table in
    ground (
      arith,
      h.by_owner o p r,
      owner-load o p (Azs.join s.user_table row) r s
          (λ b q. owner-select o p s.az_table b.row (id-join s.user_table row b q)),
    )

-- After any sequence of calls from a keyed store, whatever they returned or raised, what `get`
-- returns is an object with the id that it is asked for.
pub id-get-after_all :
    (cs : List Call) (id r : ℕ) {s : Store}
    → IsKeyed s
    → (Azs.get id (after_all cs s)).0 ≡ ok (some r)
    → (read (Azs.get id (after_all cs s)).1.azs r).id ≡ id
id-get-after_all cs id r h = id-get id r (after_all-IsKeyed cs h)

-- After any sequence of calls from a keyed store, whatever they returned or raised, what `find`
-- returns is an object with the owner and the prefix that it is asked for.
pub owner-find-after_all :
    (cs : List Call) (o p : Str) (r : ℕ) {s : Store}
    → IsKeyed s
    → (Azs.find o p (after_all cs s)).0 ≡ ok (some r)
    → HasOwner o p (read (Azs.find o p (after_all cs s)).1.azs r)
owner-find-after_all cs o p r h = owner-find o p r (after_all-IsKeyed cs h)
