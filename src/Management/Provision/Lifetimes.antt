-- ===== src/Management/Provision/Lifetimes.antt =====
-- The password for the configuration that `provision_appservice` gives out
-- (mautrix_asmux/api/management_api.py).
use mautrix_asmux.Prelude.{
  ℕ, ◌+◌, ◌≤◌, ◌≡◌, refl, Bool, true, false, not, Option, none, some, Str, ltb, arith, Bool-cases,
  inl, inr,
}
use mautrix_asmux.Result.{ok}
use mautrix_asmux.Exec.{Returns, Returns-continue}
use mautrix_asmux.Env.{Env}
use mautrix_asmux.Store.{Store, AzRow, read}
use mautrix_asmux.Database.Azs.Passwords.{
  Base32, generate_password, check_password, is_expired, check_password-generate_password, rstrip,
  rstrip-encode,
}
use mautrix_asmux.Management.{Access, Target}
use mautrix_asmux.Management.Provision.{
  Body, Draws, Registration, get_or, lifetime_of, make_config, settle, shown, respond, refresh,
  update, provisioned, provision_body, provision_appservice,
}

lifetime_bounds : (body : Body) → (30 ≤ lifetime_of body) × (lifetime_of body ≤ 3600)
unfolding lifetime_of
lifetime_bounds body = ground (arith, get_or 300 body.lifetime)

-- What is said of a password: its lifetime is within the bounds, and it is right until that is over.
record Given (base32 : Base32) (now : ℕ) (config : Option (Str × ℕ)) (row : AzRow) : Type 0 where
  bounds :
      (password : Str) (lifetime : ℕ)
      → config ≡ some (password, lifetime)
      → (30 ≤ lifetime) × (lifetime ≤ 3600)
  right :
      (password : Str) (lifetime later : ℕ)
      → config ≡ some (password, lifetime)
      → check_password base32 row password later ≡ ok (not (ltb (now + lifetime) later))

module _ (base32 : Base32) (has_template : Str → Bool) where
  generated :
      (r lifetime : ℕ) (token : Str) (now later : ℕ) (s : Store)
      → check_password base32
          (read ((generate_password base32 r token (some lifetime) now s).1).azs r).row
          (rstrip (base32.encode token))
          later
        ≡ ok (not (ltb (now + lifetime) later))
  unfolding is_expired
  generated r lifetime token now later s = rw (rstrip-encode base32 token) (
      (check_password-generate_password base32 r token (some lifetime) now later s
        (base32.body token) (base32.upper_body token) refl).1)

  make_config-Given :
      (r : ℕ) (body : Body) (draws : Draws) (asked : Bool) (s : Store)
      → Returns
          (λ config (t : Store). Given base32 draws.now config (read t.azs r).row)
          (make_config base32 has_template r body draws asked s)
  unfolding make_config
  make_config-Given r body draws false s = record {
    at = λ config e. record { bounds = λ p l q. ground arith; right = λ p l later q. ground arith };
  }
  make_config-Given r body draws true s = elim (Bool-cases (has_template (read s.azs r).prefix)) [
    | inl has ↦ rw has (record {
      at = λ config e. record {
        bounds = λ p l q. ground (arith, lifetime_bounds body);
        right = λ p l later q.
            ground (arith, generated r (lifetime_of body) draws.token draws.now later s);
      };
    })
    | inr lacks ↦ rw lacks (record { at = λ config e. ground arith })
  ]

  shown_lem :
      (config : Option (Str × ℕ)) (password : Str) (lifetime : ℕ)
      → shown config ≡ some (password, lifetime)
      → config ≡ some (password, lifetime)
  unfolding shown
  shown_lem none p l q = q
  shown_lem (some (password, lifetime)) p l q = ground arith

  settled_row : (r : ℕ) (s : Store) → (read (settle r s).azs r).row ≡ (read s.azs r).row
  unfolding settle
  settled_row r s = ground arith

  respond-Given :
      (now r : ℕ) (config : Option (Str × ℕ)) (published : Option ℕ) (s : Store)
      → Given base32 now config (read s.azs r).row
      → Returns (λ reg _. Given base32 now reg.config reg.az.row) (respond r config published s)
  unfolding respond
  respond-Given now r config published s h = record {
    at = λ reg e. record {
      bounds = λ p l q. ground (arith, h.bounds p l, shown_lem config p l);
      right =
          λ p l later q. ground (arith, h.right p l later, shown_lem config p l, settled_row r s);
    };
  }

  update-Given :
      (body : Body) (draws : Draws) (r : ℕ) (s : Store)
      → Returns
          (λ reg _. Given base32 draws.now reg.config reg.az.row)
          (update base32 has_template body draws r s)
  unfolding update
  update-Given body draws r s =
      let (refreshed, s') = refresh r body (read s.azs r).created_ s in
      Returns-continue refreshed s' _ (λ published _.
        let (made, t) = make_config base32 has_template r body draws body.generate_config s' in
        Returns-continue made t _ (λ config e.
          respond-Given draws.now r config published t
            ((make_config-Given r body draws body.generate_config s').at config e)))

  provision_appservice-Given :
      (env : Env) (access : Access) (target : Target) (body : Option Body) (draws : Draws)
      (s : Store)
      → Returns
          (λ reg _. Given base32 draws.now reg.config reg.az.row)
          (provision_appservice base32 has_template env access target body draws s)
  unfolding provision_appservice provision_body
  provision_appservice-Given env access target none draws s = record { at = λ reg e. ground arith }
  provision_appservice-Given env access target (some body) draws s =
      let (found, s') = provisioned env access target body draws s in
      Returns-continue found s' _ (λ r _. update-Given body draws r s')

  -- The password that provisioning gives out has a lifetime of 30 to 3600 seconds, whatever the
  -- request asks for, and is right for the appservice at each time until that is over.
  pub provision_config_bounds :
      (env : Env) (access : Access) (target : Target) (body : Option Body) (draws : Draws)
      (s : Store) (reg : Registration) (password : Str) (lifetime later : ℕ)
      → (provision_appservice base32 has_template env access target body draws s).0 ≡ ok reg
      → reg.config ≡ some (password, lifetime)
      → (30 ≤ lifetime)
        × (lifetime ≤ 3600)
        × (check_password base32 reg.az.row password later
            ≡ ok (not (ltb (draws.now + lifetime) later)))
  provision_config_bounds env access target body draws s reg password lifetime later e q =
      let given = (provision_appservice-Given env access target body draws s).at reg e in
      (
        (given.bounds password lifetime q).0,
        (given.bounds password lifetime q).1,
        given.right password lifetime later q,
      )
