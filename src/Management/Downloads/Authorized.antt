-- ===== src/Management/Downloads/Authorized.antt =====
-- Who may download a configuration: `_authorize_config_download`
-- (mautrix_asmux/api/management_api.py).
use mautrix_asmux.Prelude.{
  ℕ, ◌≡◌, refl, true, false, Option, none, some, ◌++◌, Str, length, str_eq, str_beq_iff, arith,
  Option-cases, inl, inr,
}
use mautrix_asmux.Result.{ok, Result-cases}
use mautrix_asmux.Store.{Store, AzRow, read}
use mautrix_asmux.Database.Azs
use mautrix_asmux.Database.Azs.Keyed.{IsKeyed}
use mautrix_asmux.Database.Azs.Calls.{HasOwner, owner-find}
use mautrix_asmux.Database.Azs.Passwords.{
  Base32, replicate, pad_length, is_expired, check_digest, check_password,
}
use mautrix_asmux.Management.Downloads.{authorize_found, authorize_config_download}

module _ (base32 : Base32) where
  -- The text decodes to bytes with the digest `hash`.
  unfoldable pub IsPassword : Str → Str → Type 0
  IsPassword password hash =
      (token : Str) × (base32.decode
          (base32.upper password ++ replicate (pad_length (length password)))
        ≡ some token)
      × (base32.sha256 token ≡ hash)

  -- The appservice has a password that is not expired, and the text is that one.
  unfoldable pub IsOpen : Str → ℕ → AzRow → Type 0
  unfolding IsPassword
  IsOpen password now row =
      (hash : Str) × (row.config_password_hash ≡ some hash)
      × IsPassword password hash
      × (is_expired row.config_password_expiry now ≡ false)

  digest_matches :
      (hash : Str) (expiry : Option ℕ) (now : ℕ) (decoded : Option Str)
      → check_digest base32 hash expiry now decoded ≡ ok true
      → (token : Str) × (decoded ≡ some token)
        × (base32.sha256 token ≡ hash)
        × (is_expired expiry now ≡ false)
  unfolding check_digest
  digest_matches hash expiry now none e = cc
  digest_matches hash expiry now (some token) e = (
    token,
    refl,
    ground (arith, str_beq_iff (base32.sha256 token) hash),
    ground (arith, str_beq_iff (base32.sha256 token) hash),
  )

  accepted-IsOpen :
      (password : Str) (now : ℕ) (row : AzRow)
      → check_password base32 row password now ≡ ok true
      → IsOpen password now row
  unfolding check_password IsOpen
  accepted-IsOpen password now row e =
      elim (Option-cases row.config_password_hash) as (λ v. IsOpen password now row) [
        | inl missing ↦ ground arith
        | inr (hash, set) ↦
            let (token, decoded, digest, fresh) =
              digest_matches hash row.config_password_expiry now
                (base32.decode (base32.upper password ++ replicate (pad_length (length password))))
                (ground arith) in
            (hash, set, (token, decoded, digest), fresh)
      ]

  authorize_found-IsOpen :
      (password : Str) (now : ℕ) (found : Option ℕ) (s : Store) (r : ℕ)
      → (authorize_found base32 password now found s).0 ≡ ok r
      → (found ≡ some r)
        × IsOpen password now (read s.azs r).row
        × ((authorize_found base32 password now found s).1 ≡ s)
  unfolding authorize_found
  authorize_found-IsOpen password now none s r e = ground arith
  authorize_found-IsOpen password now (some q) s r e =
      elim (Result-cases (check_password base32 (read s.azs q).row password now)) [
        | inl (right, returned) ↦ ground (arith, accepted-IsOpen password now (read s.azs q).row)
        | inr (x, raised) ↦ ground arith
      ]

  -- What a successful authorization comes from: the appservice was found, and the state is as `find`
  -- left it.
  pub authorized :
      (username prefix password : Str) (now r : ℕ) (s : Store)
      → (authorize_config_download base32 prefix (some (username, password)) now s).0 ≡ ok r
      → ((Azs.find username prefix s).0 ≡ ok (some r))
        × IsOpen password now (read (Azs.find username prefix s).1.azs r).row
        × ((authorize_config_download base32 prefix (some (username, password)) now s).1
            ≡ (Azs.find username prefix s).1)
  unfolding authorize_config_download
  authorized username prefix password now r s e =
      let s' = (Azs.find username prefix s).1 in
      elim (Result-cases (Azs.find username prefix s).0) [
        | inl (found, returned) ↦ ground (arith, authorize_found-IsOpen password now found s' r)
        | inr (x, raised) ↦ ground arith
      ]

  -- In a keyed store, a configuration is given out only for the appservice whose owner and prefix are
  -- the username and the prefix of the request, and only with its password, before that expires.
  pub authorize_config_download-IsOpen :
      (username prefix password : Str) (now r : ℕ) (s : Store)
      → IsKeyed s
      → (authorize_config_download base32 prefix (some (username, password)) now s).0 ≡ ok r
      → HasOwner username prefix
          (read (authorize_config_download base32 prefix (some (username, password)) now s).1.azs r)
        × IsOpen password now
            (read
              (authorize_config_download base32 prefix (some (username, password)) now s).1.azs
              r).row
  authorize_config_download-IsOpen username prefix password now r s keyed e =
      let (returned, right, same) = authorized username prefix password now r s e in
      rw same (owner-find username prefix r keyed returned, right)
