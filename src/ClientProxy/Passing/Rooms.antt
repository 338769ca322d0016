-- ===== src/ClientProxy/Passing/Rooms.antt =====
-- The rooms that an appservice creates (mautrix_asmux/api/cs_proxy.py).
use mautrix_asmux.Prelude.{
  ℕ, ◌≡◌, inl, inr, sym, subst, true, false, some, Str, text, str_eq, leb, ltb, ◌&&◌, arith,
  ends_with,
}
use mautrix_asmux.Result.{Result, ok, Result-cases}
use mautrix_asmux.Json.{Json, str, obj, Fields, get}
use mautrix_asmux.Dict
use mautrix_asmux.Env.{Env}
use mautrix_asmux.Store.{Store, read}
use mautrix_asmux.Database.Rooms
use mautrix_asmux.ClientProxy.{find_appservice, copy_query}
use mautrix_asmux.ClientProxy.Created.{row_behind, register_from_create, get-register_from_create}
use mautrix_asmux.ClientProxy.Passing.{
  Request, answered, Proxied, received, send, content_for, creates_room, proxy_as, proxy_for, proxy,
}

-- The room `id` is that of the appservice with the id `owner`: `get` returns a new object for it.
unfoldable pub BelongsTo : ℕ → Str → Store → Type 0
BelongsTo owner id s =
    (q : ℕ) × ((Rooms.get id s).0 ≡ ok (some q))
    × (read (Rooms.get id s).1.rooms q ≡ record { id = id; owner = owner; deleted = false })

-- The table has the room as one of `owner` as well, unless it had another row for it in `before`.
abbrev pub HasRow : ℕ → Str → Store → Store → Type 0
HasRow owner id before s =
    Dict.get id s.room_table
    ≡ some (
        row_behind (record { id = id; owner = owner; deleted = false })
          (Dict.get id before.room_table))

module _ (env : Env) (as_token shared_secret : Str) (hmac : Str → Str → Str) (req : Request)
    (spec path : Str) (status : ℕ) (d : Fields) (id : Str) where
  proxy_as-BelongsTo :
      (r : ℕ) (resp : ℕ × Result Json) (s : Proxied)
      → creates_room spec path ≡ true
      → (leb 200 status && ltb status 300) ≡ true
      → get (text "room_id") d ≡ some (str id)
      → (proxy_as env as_token shared_secret hmac
          (answered status (ok (obj d)))
          req
          spec
          path
          r
          s).0
        ≡ ok resp
      → let call =
          proxy_as env as_token shared_secret hmac
            (answered status (ok (obj d)))
            req
            spec
            path
            r
            s in
        BelongsTo (read s.store.azs r).id id call.1.store
        × HasRow (read s.store.azs r).id id s.store call.1.store
  unfolding proxy_as send received BelongsTo
  proxy_as-BelongsTo r resp s creates success there h =
      let az = read s.store.azs r in
      elim (Result-cases (copy_query env az (ends_with req.path (text "/batch_send")) req.query)) [
        | inr (x, raised) ↦ absurd (ground (arith, h, raised))
        | inl (query, copied) ↦
            elim (Result-cases
              (content_for env as_token shared_secret hmac az req spec path query)) [
                | inr (x, raised) ↦ absurd (ground (arith, h, copied, raised))
                | inl (content, made) ↦
                    let (result, t) = register_from_create az.id status (ok (obj d)) s.store in
                    let done : result ≡ ok tt = ground (arith, h, copied, made, creates) in
                    let (_, found, room, row) =
                      get-register_from_create az.id status d id s.store success there done in
                    let call =
                      proxy_as env as_token shared_secret hmac (answered status (ok (obj d))) req
                        spec path r s in
                    let is : call.1.store ≡ t = ground (arith, copied, made, creates, done) in
                    subst (λ u. BelongsTo az.id id u × HasRow az.id id s.store u) (sym is)
                      ((s.store.rooms.fresh, found, room), row)
              ]
      ]

  -- Where `proxy` returns from a request of an appservice to create a room, and the homeserver has
  -- answered with the id of the room, the next `Room.get` returns this room as one of the appservice,
  -- and so does the table, unless it had a row for the room before, which stays.
  pub proxy-BelongsTo :
      (r : ℕ) (resp : ℕ × Result Json) (s : Proxied)
      → creates_room spec path ≡ true
      → (leb 200 status && ltb status 300) ≡ true
      → get (text "room_id") d ≡ some (str id)
      → (find_appservice env false false (Dict.get (text "Authorization") req.headers) s.store).0
        ≡ ok (some r)
      → (proxy env as_token shared_secret hmac (answered status (ok (obj d))) req spec path s).0
        ≡ ok resp
      → let t =
          (find_appservice env false false
            (Dict.get (text "Authorization") req.headers)
            s.store).1 in
        let call =
          proxy env as_token shared_secret hmac (answered status (ok (obj d))) req spec path s in
        BelongsTo (read t.azs r).id id call.1.store × HasRow (read t.azs r).id id t call.1.store
  unfolding proxy proxy_for
  proxy-BelongsTo r resp s creates success there found h =
      let answer = answered status (ok (obj d)) in
      let t =
        (find_appservice env false false (Dict.get (text "Authorization") req.headers) s.store).1 in
      let u : Proxied = record s { store = t } in
      let whole = proxy env as_token shared_secret hmac answer req spec path s in
      let part = proxy_as env as_token shared_secret hmac answer req spec path r u in
      let is : whole ≡ part = ground (arith, found) in
      subst
        (λ (x : Result (ℕ × Result Json) × Proxied).
          BelongsTo (read t.azs r).id id x.1.store × HasRow (read t.azs r).id id t x.1.store)
        (sym is) (proxy_as-BelongsTo r resp u creates success there (ground (arith, is, h)))
