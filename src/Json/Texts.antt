-- ===== src/Json/Texts.antt =====
-- Keys of a decoded object, and the tests of a value against texts.
use mautrix_asmux.Prelude.{
  ◌≡◌, refl, ◌⊎◌, true, Option, none, some, [], ◌∷◌, Str, str_eq, str_beq_iff, arith, one_of, ◌==◌,
  if◌then◌else◌,
}
use mautrix_asmux.Json.{
  Json, bool, num, str, obj, Fields, end, field, get, set_field, is_one_of, is_text,
}

pub get-set_field :
    (k j : Str) (v : Json) (d : Fields)
    → get j (set_field k v d) ≡ (if k == j then some v else get j d)
unfolding get set_field
get-set_field k j v end = refl
get-set_field k j v (field i w d) =
    ground (arith, str_beq_iff i k, str_beq_iff i j, str_beq_iff k j, get-set_field k j v d)

pub is_text_lem : (t : Str) (v : Json) → is_text t (some v) ≡ true → v ≡ str t
unfolding is_text
is_text_lem t (str u) h = ground (arith, str_beq_iff u t)
is_text_lem t Json.null h = cc
is_text_lem t (Json.bool _) h = cc
is_text_lem t (Json.num _) h = cc
is_text_lem t (Json.arr _) h = cc
is_text_lem t (Json.obj _) h = cc

pub one_of_two :
    (v : Option Json) (a b : Str)
    → is_one_of v (a ∷ b ∷ []) ≡ true
    → (v ≡ some (str a)) ⊎ (v ≡ some (str b))
unfolding is_one_of one_of
one_of_two none a b h = cc
one_of_two (some (str s)) a b h = ground (arith, str_beq_iff s a, str_beq_iff s b)
one_of_two (some Json.null) a b h = cc
one_of_two (some (bool _)) a b h = cc
one_of_two (some (num _)) a b h = cc
one_of_two (some (Json.arr _)) a b h = cc
one_of_two (some (obj _)) a b h = cc

pub is_text-some : (t : Str) (v : Option Json) → is_text t v ≡ true → v ≡ some (str t)
unfolding is_text
is_text-some t none h = cc
is_text-some t (some v) h = ground (arith, is_text_lem t v)

pub is_text_self : (t : Str) → is_text t (some (str t)) ≡ true
unfolding is_text
is_text_self t = ground (arith, str_beq_iff t t)
