-- ===== src/UserIds/RoundTrip.antt =====
-- Printing the user id of a bridge user and taking it apart again (mautrix_asmux/api/as_proxy.py).
use mautrix_asmux.Prelude.{
  ◌-◌, ◌≡◌, ◌≢◌, refl, true, false, some, [], ◌∷◌, ◌++◌, Str, str_eq, length, length-append, take,
  drop, starts_with, ends_with, strip_prefix, is_empty, All, arith, append_assoc, beq_refl,
}
use mautrix_asmux.Env.{Env}
use mautrix_asmux.UserIds.{slice_between, underscore, split_once, split_localpart, parse_user_id}

-- `f"{mxid_prefix}{owner}_{prefix}_{rest}{mxid_suffix}"`, as `ClientProxy._copy_data` writes it
unfoldable pub print_user_id : Env → Str → Str → Str → Str
print_user_id env owner prefix rest =
    env.mxid_prefix ++ (owner ++ underscore ∷ (prefix ++ underscore ∷ (rest ++ env.mxid_suffix)))

-- No `_` in a text.
abbrev pub IsPlain : Str → Type 0
IsPlain = All (λ c. c ≢ underscore)

split_once-append : (s t : Str) → IsPlain s → split_once (s ++ underscore ∷ t) ≡ some (s, t)
unfolding split_once
split_once-append [] t h = refl
split_once-append (c ∷ s) t h = ground (arith, split_once-append s t h.1)

strip_prefix-append : (p s : Str) → strip_prefix p (p ++ s) ≡ some s
unfolding strip_prefix
strip_prefix-append [] s = refl
strip_prefix-append (c ∷ p) s = ground (arith, strip_prefix-append p s)

pub starts_with-append : (p s : Str) → starts_with (p ++ s) p ≡ true
unfolding starts_with
starts_with-append p s = rw (starts_with, strip_prefix-append p s)

drop-append : (s t : Str) → drop (length s) (s ++ t) ≡ t
drop-append [] t = refl
drop-append (c ∷ s) t = drop-append s t

take-append : (s t : Str) → take (length s) (s ++ t) ≡ s
take-append [] t = refl
take-append (c ∷ s) t = rw (take-append s t)

length_tail : (s t : Str) → length (s ++ t) - length t ≡ length s
length_tail s t = omega (arith, length-append {0} s t)

pub ends_with-append : (s t : Str) → ends_with (s ++ t) t ≡ true
unfolding ends_with
ends_with-append s t =
    rw (length_tail s t, drop-append s t, beq_refl t) (ground (arith, length-append {0} s t))

-- The part between the namespace and the domain.
abbrev localpart : Str → Str → Str → Str
localpart owner prefix rest = owner ++ underscore ∷ (prefix ++ underscore ∷ rest)

print_user_id_lem :
    (env : Env) (owner prefix rest : Str)
    → print_user_id env owner prefix rest
      ≡ env.mxid_prefix ++ (localpart owner prefix rest ++ env.mxid_suffix)
unfolding print_user_id
print_user_id_lem env owner prefix rest = simp append_assoc

split_localpart-localpart :
    (owner prefix rest : Str)
    → IsPlain owner
    → IsPlain prefix
    → split_localpart (localpart owner prefix rest) ≡ some (owner, prefix)
unfolding split_localpart
split_localpart-localpart owner prefix rest ho hp = ground (
  arith,
  split_once-append owner (prefix ++ underscore ∷ rest) ho,
  split_once-append prefix rest hp,
)

slice_between-append :
    (p l s : Str) → length s ≢ 0 → slice_between (p ++ (l ++ s)) (length p) (length s) ≡ l
unfolding slice_between
slice_between-append p l s h =
    let size : length (p ++ (l ++ s)) - length s - length p ≡ length l =
      omega (arith, length-append {0} p (l ++ s), length-append {0} l s) in
    ground (arith, size, drop-append p (l ++ s), take-append l s)

cons-is_empty : (s : Str) → length s ≢ 0 → is_empty s ≡ false
cons-is_empty [] h = absurd (h refl)
cons-is_empty (c ∷ s) h = refl

is_empty-append : (s t : Str) → is_empty t ≡ false → is_empty (s ++ t) ≡ false
is_empty-append [] t h = h
is_empty-append (c ∷ s) t h = refl

-- Where the domain is not empty and neither the owner nor the prefix holds a `_`, the user id that
-- is printed for a bridge user is parsed back to that owner and prefix, whatever stands behind
-- them.
pub parse-print_user_id :
    (env : Env) (owner prefix rest : Str)
    → length env.mxid_suffix ≢ 0
    → IsPlain owner
    → IsPlain prefix
    → parse_user_id env (print_user_id env owner prefix rest) ≡ some (owner, prefix)
unfolding parse_user_id
parse-print_user_id env owner prefix rest hs ho hp =
    let l : Str = localpart owner prefix rest in
    rw (print_user_id_lem env owner prefix rest) (
      ground (
        arith,
        is_empty-append env.mxid_prefix (l ++ env.mxid_suffix)
            (is_empty-append l env.mxid_suffix (cons-is_empty env.mxid_suffix hs)),
        starts_with-append env.mxid_prefix (l ++ env.mxid_suffix),
        ends_with-append (env.mxid_prefix ++ l) env.mxid_suffix,
        append_assoc env.mxid_prefix l env.mxid_suffix,
        slice_between-append env.mxid_prefix l env.mxid_suffix hs,
        split_localpart-localpart owner prefix rest ho hp,
      ))
