-- ===== src/Config/Laws.antt =====
-- What is taken of mautrix.util.config (mautrix_asmux/config.py).
use mautrix_asmux.Prelude.{
  ◌≡◌, Bool, true, not, ◌&&◌, List, [], ◌∷◌, ◌++◌, Str, text, str_eq, ◌==◌, starts_with,
}
use mautrix_asmux.Json.{Json, str}
use mautrix_asmux.Config.{Paths, last_paths}

-- Neither path is the other one, or leads to it.
unfoldable pub apart : Str → Str → Bool
apart j k =
    not (j == k)
    && (not (starts_with (j ++ text ".") (k ++ text "."))
        && not (starts_with (k ++ text ".") (j ++ text ".")))

unfoldable pub apart_from_all : Str → List Str → Bool
unfolding apart
apart_from_all j [] = true
apart_from_all j (k ∷ l) = apart j k && apart_from_all j l

-- The paths that are written behind the shared secret.
abbrev pub late_paths : List Str
late_paths =
    text "mux.bridge_config_template_files"
    ∷ text "mux.remote_status_endpoint"
    ∷ text "mux.bridge_status_endpoint"
    ∷ last_paths

module _ {C : Type 0} (paths : Paths C) where
  abbrev pub look : Str → C → Bool × Json
  look k c = (paths.contains k c, paths.value k c)

  -- What mautrix.util.config says of its operations.
  pub record IsPaths : Type 0 where
    pub set_other :
        (j k : Str) (v : Json) (c : C) → apart j k ≡ true → look j (paths.set k v c) ≡ look j c
    pub copy_other :
        (j k : Str) (self base : C)
        → apart j k ≡ true
        → look j (paths.copy k self base) ≡ look j base
    pub copy_dict_other :
        (j k : Str) (self base : C)
        → apart j k ≡ true
        → look j (paths.copy_dict k self base) ≡ look j base
    pub set_text : (k s : Str) (c : C) → look k (paths.set k (str s) c) ≡ (true, str s)
    pub copy_there :
        (k : Str) (self base : C)
        → paths.contains k self ≡ true
        → look k (paths.copy k self base) ≡ (true, paths.value k self)
    pub get_there :
        (k : Str) (d : Json) (c : C)
        → paths.contains k c ≡ true
        → paths.get_or k d c ≡ paths.value k c
