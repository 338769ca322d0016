-- ===== src/Config/Kept.antt =====
-- What an update keeps of the old settings (mautrix_asmux/config.py).
use mautrix_asmux.Prelude.{
  ◌≡◌, ◌≢◌, ◌∙◌, refl, sym, ap, inl, inr, true, false, some, List, [], ◌∷◌, Str, text, str_eq,
  str_beq, str_beq_iff, if◌then◌else◌, starts_with, strip_prefix, arith, Bool-cases,
}
use mautrix_asmux.Result.{ok, Result-cases}
use mautrix_asmux.Json.{Json, str, is_text, as_str}
use mautrix_asmux.Json.Texts.{is_text_self}
use mautrix_asmux.Config.{
  Paths, first_paths, last_paths, copy_all, replace, update_secret, update_endpoints, do_update,
}
use mautrix_asmux.Config.Laws.{apart, apart_from_all, late_paths, look, IsPaths}

kept_lem :
    (one : Str) (old : Json)
    → is_text (text "generate") (some old) ≡ false
    → (if is_text (text "generate") (some old) then str one else old) ≡ old
kept_lem one old h = ground (arith, h)

-- The secret `old`, or `one` where it is "generate".
abbrev pub settled : Str → Json → Json
settled one old = if is_text (text "generate") (some old) then str one else old

is_text-settled :
    (one : Str) (old : Json)
    → one ≢ text "generate"
    → is_text (text "generate") (some (settled one old)) ≡ false
unfolding is_text
is_text-settled one old drawn = elim (Bool-cases (is_text (text "generate") (some old))) [
  | inl generated ↦ ground (arith, generated, drawn, str_beq_iff one (text "generate"))
  | inr other ↦ ground (arith, other)
]

module _ {C : Type 0} (paths : Paths C) (laws : IsPaths paths) where
  look-copy_all :
      (j : Str) (l : List Str) (self base : C)
      → apart_from_all j l ≡ true
      → look paths j (copy_all paths l self base) ≡ look paths j base
  unfolding copy_all apart_from_all
  look-copy_all j [] self base h = refl
  look-copy_all j (k ∷ l) self base h =
      look-copy_all j l self (paths.copy k self base) (ground (arith, h))
      ∙ laws.copy_other j k self base (ground (arith, h))

  look-update_endpoints :
      (j : Str) (self base new : C)
      → apart j (text "mux.remote_status_endpoint") ≡ true
      → apart j (text "mux.bridge_status_endpoint") ≡ true
      → update_endpoints paths self base ≡ ok new
      → look paths j new ≡ look paths j base
  unfolding update_endpoints
  look-update_endpoints j self base new remote bridge h =
      let old = text "mux.status_endpoint" in
      let r = text "mux.remote_status_endpoint" in
      let b = text "mux.bridge_status_endpoint" in
      elim (Bool-cases (paths.contains old self)) [
        | inr absent ↦
            let is : paths.copy b self (paths.copy r self base) ≡ new = ground (arith, h, absent) in
            ap (look paths j) (sym is)
            ∙ (laws.copy_other j b self (paths.copy r self base) bridge
                ∙ laws.copy_other j r self base remote)
        | inl there ↦ elim (Result-cases (as_str (paths.value old self))) [
          | inr (x, raised) ↦ absurd (ground (arith, h, there, raised))
          | inl (status, read) ↦
              let new_status = str (replace (text "/state") (text "/bridge_state") status) in
              let one = paths.set r (str status) base in
              let is : paths.set b new_status one ≡ new = ground (arith, h, there, read) in
              ap (look paths j) (sym is)
              ∙ (laws.set_other j b new_status one bridge
                  ∙ laws.set_other j r (str status) base remote)
        ]
      ]

  -- What `do_update` leaves at a path which is not among those behind the shared secret.
  look-do_update :
      (j new_token : Str) (self base new : C)
      → apart_from_all j late_paths ≡ true
      → do_update paths new_token self base ≡ ok new
      → look paths j new
        ≡ look paths j (update_secret paths new_token self (copy_all paths first_paths self base))
  unfolding do_update apart_from_all
  look-do_update j new_token self base new h e =
      let one = update_secret paths new_token self (copy_all paths first_paths self base) in
      let templates = text "mux.bridge_config_template_files" in
      let two = paths.copy_dict templates self one in
      elim (Result-cases (update_endpoints paths self two)) [
        | inr (x, raised) ↦ absurd (ground (arith, e, raised))
        | inl (three, made) ↦
            let is : copy_all paths last_paths self three ≡ new = ground (arith, e, made) in
            ap (look paths j) (sym is)
            ∙ (look-copy_all j last_paths self three (unfold apart_from_all in ground (arith, h))
                ∙ (look-update_endpoints j self two three (ground (arith, h)) (ground (arith, h))
                      made
                    ∙ laws.copy_dict_other j templates self one (ground (arith, h))))
      ]

  look-update_secret :
      (j new_token : Str) (self base : C)
      → apart j (text "mux.shared_secret") ≡ true
      → look paths j (update_secret paths new_token self base) ≡ look paths j base
  unfolding update_secret
  look-update_secret j new_token self base h =
      let path = text "mux.shared_secret" in
      elim (Bool-cases
        (is_text (text "generate") (some (paths.get_or path (str (text "generate")) self)))) [
          | inl generated ↦ rw generated (laws.set_other j path (str new_token) base h)
          | inr other ↦ rw other (laws.copy_other j path self base h)
        ]

  secret_lem :
      (new_token : Str) (self base : C)
      → paths.contains (text "mux.shared_secret") self ≡ true
      → look paths (text "mux.shared_secret") (update_secret paths new_token self base)
        ≡ (true, settled new_token (paths.value (text "mux.shared_secret") self))
  unfolding update_secret
  secret_lem new_token self base there =
      let path = text "mux.shared_secret" in
      ground (
        arith,
        laws.get_there path (str (text "generate")) self there,
        laws.set_text path new_token base,
        laws.copy_there path self base there,
      )

  look_untouched :
      (j new_token : Str) (self base new : C)
      → apart_from_all j late_paths ≡ true
      → apart j (text "mux.shared_secret") ≡ true
      → apart_from_all j first_paths ≡ true
      → do_update paths new_token self base ≡ ok new
      → paths.value j new ≡ paths.value j base
  look_untouched j new_token self base new late secret early e =
      ap (λ x. x.1)
        (look-do_update j new_token self base new late e
          ∙ (look-update_secret j new_token self (copy_all paths first_paths self base) secret
              ∙ look-copy_all j first_paths self base early))

  -- Whatever the old settings say of the namespace and of the port for metrics, an update drops it
  -- for what the example says.
  pub do_update_forgets :
      (new_token : Str) (self base new : C)
      → do_update paths new_token self base ≡ ok new
      → (paths.value (text "appservice.namespace.prefix") new
          ≡ paths.value (text "appservice.namespace.prefix") base)
        × (paths.value (text "appservice.namespace.exclusive") new
            ≡ paths.value (text "appservice.namespace.exclusive") base)
        × (paths.value (text "metrics.listen_port") new
            ≡ paths.value (text "metrics.listen_port") base)
  unfolding apart_from_all apart text starts_with strip_prefix str_beq
  do_update_forgets new_token self base new e = (
    look_untouched (text "appservice.namespace.prefix") new_token self base new refl refl refl e,
    look_untouched (text "appservice.namespace.exclusive") new_token self base new refl refl refl e,
    look_untouched (text "metrics.listen_port") new_token self base new refl refl refl e,
  )

  secret_of :
      (new_token : Str) (self base new : C)
      → paths.contains (text "mux.shared_secret") self ≡ true
      → do_update paths new_token self base ≡ ok new
      → look paths (text "mux.shared_secret") new
        ≡ (true, settled new_token (paths.value (text "mux.shared_secret") self))
  unfolding apart_from_all apart text starts_with strip_prefix str_beq
  secret_of new_token self base new there e =
      look-do_update (text "mux.shared_secret") new_token self base new refl e
      ∙ secret_lem new_token self (copy_all paths first_paths self base) there

  -- Where the settings have a shared secret, the update draws one if it is still "generate" and keeps
  -- any other; where what is drawn is not "generate", a later update, with whatever example, keeps
  -- the secret that the first has left, and this is not "generate".
  pub do_update_keeps_secret :
      (one two : Str) (self base base' new newer : C)
      → paths.contains (text "mux.shared_secret") self ≡ true
      → one ≢ text "generate"
      → do_update paths one self base ≡ ok new
      → do_update paths two new base' ≡ ok newer
      → (paths.value (text "mux.shared_secret") new
          ≡ settled one (paths.value (text "mux.shared_secret") self))
        × (paths.value (text "mux.shared_secret") newer
            ≡ paths.value (text "mux.shared_secret") new)
        × (paths.value (text "mux.shared_secret") new ≢ str (text "generate"))
  do_update_keeps_secret one two self base base' new newer there drawn e e' =
      let first = secret_of one self base new there e in
      let again = secret_of two new base' newer (ap (λ x. x.0) first) e' in
      let old = paths.value (text "mux.shared_secret") self in
      let other = is_text-settled one old drawn in
      let is : paths.value (text "mux.shared_secret") new ≡ settled one old = ap (λ x. x.1) first in
      (
        is,
        ap (λ x. x.1) again
            ∙ kept_lem two (paths.value (text "mux.shared_secret") new) (rw is other),
        λ same. ground (arith, is, other, same, is_text_self (text "generate")),
      )
