-- ===== src/Management/Provision/Again.antt =====
-- A request to provision an appservice behind one that failed
-- (mautrix_asmux/api/management_api.py).
use mautrix_asmux.Prelude.{ℕ, ◌≡◌, refl, Bool, true, false, none, Str, arith}
use mautrix_asmux.Errors.{http, HttpError}
use mautrix_asmux.Result.{ok, err}
use mautrix_asmux.Store.{Store, read}
use mautrix_asmux.Database.Azs.Passwords.{Base32}
use mautrix_asmux.Management.Provision.{
  Body, Draws, make_config, settle, shown, respond, refresh, update,
}

-- An appservice that still has the mark of a new one, and no template for its prefix: a request for a
-- configuration fails and changes nothing, so that the mark stays; a request without one then answers
-- with the status 201, publishes nothing, and drops the address and the push setting that it has.
pub update-created :
    (base32 : Base32) (has_template : Str → Bool) (first second : Body) (draws : Draws) (r : ℕ)
    (s : Store)
    → (read s.azs r).created_ ≡ true
    → has_template (read s.azs r).prefix ≡ false
    → first.generate_config ≡ true
    → second.generate_config ≡ false
    → (update base32 has_template first draws r s
        ≡ (err (http HttpError.config_download_unsupported), s))
      × (update base32 has_template second draws r s ≡ (
        ok (record {
          az = record (read s.azs r) { created_ = false };
          config = none;
          status = 201;
          published = none;
        }),
        settle r s,
      ))
unfolding update refresh make_config respond settle shown
update-created base32 has_template first second draws r s created lacks asked plain =
    (rw (created, asked, lacks) refl, rw (created, plain) (ground (arith, created)))
