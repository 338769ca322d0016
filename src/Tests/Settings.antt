-- ===== src/Tests/Settings.antt =====
-- The update of the settings, as dicts by the whole path.
use mautrix_asmux.Prelude.{
  ◌≡◌, ◌≢◌, refl, true, false, Option, none, some, [], ◌∷◌, Str, text, str_eq, str_beq, str_beq_iff,
  arith, is_some, ◌==◌,
}
use mautrix_asmux.Json
use mautrix_asmux.Json.{Json, null, str}
use mautrix_asmux.Dict
use mautrix_asmux.Dict.{Dict, get-set, get-set_self}
use mautrix_asmux.Result.{ok}
use mautrix_asmux.Config
use mautrix_asmux.Config.{Paths, do_update}
use mautrix_asmux.Config.Laws.{apart, look, IsPaths}
use mautrix_asmux.Config.Kept.{settled, do_update_forgets, do_update_keeps_secret}

abbrev Flat : Type 0
Flat = Dict Str Json

abbrev or_null : Option Json → Json
or_null none = null
or_null (some v) = v

abbrev or_given : Json → Option Json → Json
or_given d none = d
or_given d (some v) = v

abbrev copy_if : Str → Option Json → Flat → Flat
copy_if k none base = base
copy_if k (some v) base = Dict.set k v base

abbrev flat : Paths Flat
flat = record {
  value = λ k c. or_null (Dict.get k c);
  get_or = λ k d c. or_given d (Dict.get k c);
  contains = λ k c. is_some (Dict.get k c);
  set = Dict.set;
  copy = λ k self base. copy_if k (Dict.get k self) base;
  copy_dict = λ k self base. copy_if k (Dict.get k self) base;
}

differ : (j k : Str) → apart j k ≡ true → (j == k) ≡ false
unfolding apart
differ j k h = ground (arith, h)

get_other :
    (j k : Str) (v : Json) (c : Flat)
    → apart j k ≡ true
    → Dict.get j (Dict.set k v c) ≡ Dict.get j c
get_other j k v c h =
    ground (arith, differ j k h, str_beq_iff j k, str_beq_iff k j, get-set k j v c)

get_copied :
    (j k : Str) (v : Option Json) (base : Flat)
    → apart j k ≡ true
    → Dict.get j (copy_if k v base) ≡ Dict.get j base
get_copied j k none base h = refl
get_copied j k (some v) base h = get_other j k v base h

get_copied_self :
    (k : Str) (v : Option Json) (base : Flat)
    → is_some v ≡ true
    → look flat k (copy_if k v base) ≡ (true, or_null v)
get_copied_self k none base h = cc
get_copied_self k (some v) base h = ground (arith, get-set_self k v base)

flat-IsPaths : IsPaths flat
flat-IsPaths = record {
  set_other = λ j k v c h. ground (arith, get_other j k v c h);
  copy_other = λ j k self base h. ground (arith, get_copied j k (Dict.get k self) base h);
  copy_dict_other = λ j k self base h. ground (arith, get_copied j k (Dict.get k self) base h);
  set_text = λ k s c. ground (arith, get-set_self k (str s) c);
  copy_there = λ k self base h. get_copied_self k (Dict.get k self) base h;
  get_there = λ k d c h. ground (arith, h);
}

-- The secret and the prefix have been set, and the example has the defaults.
abbrev old : Flat
old =
    (text "mux.shared_secret", str (text "s"))
    ∷ (text "appservice.namespace.prefix", str (text "x_"))
    ∷ []

abbrev example : Flat
example =
    (text "mux.shared_secret", str (text "generate"))
    ∷ (text "appservice.namespace.prefix", str (text "_"))
    ∷ []

abbrev new : Flat
new =
    (text "mux.shared_secret", str (text "s"))
    ∷ (text "appservice.namespace.prefix", str (text "_"))
    ∷ []

unfoldable updating : Unit {0}
unfolding Dict.get Dict.set Json.is_text text str_beq Config.do_update Config.copy_all
    Config.update_secret Config.update_endpoints
updating = tt

update-old : do_update flat (text "drawn") old example ≡ ok new
unfolding updating
update-old = refl

update-new : do_update flat (text "other") new example ≡ ok new
unfolding updating
update-new = refl

there : flat.contains (text "mux.shared_secret") old ≡ true
unfolding updating
there = refl

drawn : text "drawn" ≢ text "generate"
unfolding text
drawn h = ground (arith, h)

do_update_forgets_example :
    (flat.value (text "appservice.namespace.prefix") new
      ≡ flat.value (text "appservice.namespace.prefix") example)
    × (flat.value (text "appservice.namespace.exclusive") new
        ≡ flat.value (text "appservice.namespace.exclusive") example)
    × (flat.value (text "metrics.listen_port") new
        ≡ flat.value (text "metrics.listen_port") example)
do_update_forgets_example =
    do_update_forgets flat flat-IsPaths (text "drawn") old example new update-old

do_update_keeps_secret_example :
    (flat.value (text "mux.shared_secret") new
      ≡ settled (text "drawn") (flat.value (text "mux.shared_secret") old))
    × (flat.value (text "mux.shared_secret") new ≡ flat.value (text "mux.shared_secret") new)
    × (flat.value (text "mux.shared_secret") new ≢ str (text "generate"))
do_update_keeps_secret_example =
    do_update_keeps_secret flat flat-IsPaths (text "drawn") (text "other") old example example new
      new there drawn update-old update-new
