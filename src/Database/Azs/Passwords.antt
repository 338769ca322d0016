-- ===== src/Database/Azs/Passwords.antt =====
-- The passwords for the download of a configuration: `generate_password` and `check_password`
-- (mautrix_asmux/database/table/appservice.py).
use mautrix_asmux.Prelude.{
  ℕ, zero, suc, ◌+◌, ◌-◌, ◌*◌, ◌/◌, ◌%◌, ◌<◌, ◌≡◌, ◌≢◌, refl, sym, ap, Bool, false, not, ◌&&◌,
  Option, none, some, [], ◌∷◌, ◌++◌, Str, str_eq, ◌==◌, beq_refl, ltb, nat_beq, if◌then◌else◌,
  is_empty, length, All, arith,
}
use mautrix_asmux.Errors.{assertion_error, value_error}
use mautrix_asmux.Result.{Result, ok, err}
use mautrix_asmux.Exec.{Exec}
use mautrix_asmux.Store.{Store, AzRow, read}
use mautrix_asmux.Database.Azs.{change}

abbrev pub equals_sign : ℕ
equals_sign = b'='

abbrev pub replicate : ℕ → Str
replicate zero = []
replicate (suc n) = equals_sign ∷ replicate n

-- Base 32 and SHA-256 of the standard library, and `str.upper`. `decode` is `none` where it raises
-- `binascii.Error`, a `ValueError`. An encoded text is made of characters that `upper` leaves as they
-- are, and fewer than 8 equals signs behind them, up to a multiple of 8.
pub record Base32 : Type 0 where
  pub encode : Str → Str
  pub decode : Str → Option Str
  pub upper : Str → Str
  pub sha256 : Str → Str
  pub body : Str → Str
  pub signs : Str → ℕ
  pub decode_encode : (t : Str) → decode (encode t) ≡ some t
  pub encode_eq : (t : Str) → encode t ≡ body t ++ replicate (signs t)
  pub no_sign : (t : Str) → All (λ c. c ≢ equals_sign) (body t)
  pub few_signs : (t : Str) → signs t < 8
  pub whole : (t : Str) → (length (body t) + signs t) % 8 ≡ 0
  pub upper_body : (t : Str) → upper (body t) ≡ body t

-- `s.rstrip("=")`
unfoldable pub rstrip : Str → Str
rstrip [] = []
rstrip (c ∷ s) =
    let rest = rstrip s in if nat_beq c equals_sign && is_empty rest then [] else c ∷ rest

-- `math.ceil(len(s) / 8) * 8 - len(s)`
unfoldable pub pad_length : ℕ → ℕ
pad_length n = (n + 7) / 8 * 8 - n

-- `config_password_expiry < int(time.time())`
unfoldable pub is_expired : Option ℕ → ℕ → Bool
is_expired none now = false
is_expired (some t) now = ltb t now

abbrev pub expiry_of : Option ℕ → ℕ → Option ℕ
expiry_of none now = none
expiry_of (some lifetime) now = some (now + lifetime)

rstrip-replicate : (n : ℕ) → rstrip (replicate n) ≡ []
unfolding rstrip
rstrip-replicate zero = refl
rstrip-replicate (suc n) = ground (arith, rstrip-replicate n)

pub rstrip-append : (s : Str) (n : ℕ) → All (λ c. c ≢ equals_sign) s → rstrip (s ++ replicate n) ≡ s
unfolding rstrip
rstrip-append [] n h = rstrip-replicate n
rstrip-append (c ∷ s) n (ne, h) = ground (arith, rstrip-append s n h)

pad_length_lem : (n k : ℕ) → k < 8 → (n + k) % 8 ≡ 0 → pad_length n ≡ k
unfolding pad_length
pad_length_lem n k few all = omega arith

module _ (base32 : Base32) where
  open base32 use {
    encode, decode, upper, sha256, body, signs, decode_encode, encode_eq, no_sign, few_signs, whole,
  }

  -- `token` is what `secrets.token_bytes` returns, and `now` the clock.
  unfoldable pub generate_password : ℕ → Str → Option ℕ → ℕ → Exec Store Str
  generate_password r token lifetime now s = (
    ok (rstrip (encode token)),
    change r
        (λ row. record row {
          config_password_hash = some (sha256 token);
          config_password_expiry = expiry_of lifetime now;
        })
        s,
  )

  unfoldable pub check_digest : Str → Option ℕ → ℕ → Option Str → Result Bool
  check_digest hash expiry now none = err value_error
  check_digest hash expiry now (some token) =
      ok ((sha256 token == hash) && not (is_expired expiry now))

  unfoldable pub check_password : AzRow → Str → ℕ → Result Bool
  unfolding check_digest pad_length
  check_password row password now = elim row.config_password_hash [
    | none ↦ err assertion_error
    | some hash ↦
        check_digest hash row.config_password_expiry now
          (decode (upper password ++ replicate (pad_length (length password))))
  ]

  pub rstrip-encode : (t : Str) → rstrip (encode t) ≡ body t
  rstrip-encode t = rw (encode_eq t) (rstrip-append (body t) (signs t) (no_sign t))

  decode_padded :
      (t password : Str)
      → upper password ≡ body t
      → length password ≡ length (body t)
      → decode (upper password ++ replicate (pad_length (length password))) ≡ some t
  decode_padded t password up same =
      rw
        (
          up,
          same,
          pad_length_lem (length (body t)) (signs t) (few_signs t) (whole t),
          sym (encode_eq t),
        )
        (decode_encode t)

  -- A password that was just generated is the text in Base 32 of the random bytes, less its equals
  -- signs. That text in any case of its letters is right until its lifetime is over, and wrong
  -- behind that.
  pub check_password-generate_password :
      (r : ℕ) (token : Str) (lifetime : Option ℕ) (now later : ℕ) (s : Store) (password : Str)
      → upper password ≡ body token
      → length password ≡ length (body token)
      → (generate_password r token lifetime now s).0 ≡ ok (body token)
        × check_password
            (read ((generate_password r token lifetime now s).1).azs r).row
            password
            later
          ≡ ok (not (is_expired (expiry_of lifetime now) later))
  unfolding generate_password change check_password check_digest
  check_password-generate_password r token lifetime now later s password up same = (
    ap ok (rstrip-encode token),
    ground (arith, str_eq, beq_refl (sha256 token), decode_padded token password up same),
  )
