-- ===== src/Redis.antt =====
-- What mautrix_asmux/api/as_queue.py relies on in a Redis stream.
use mautrix_asmux.Prelude.{
  ℕ, zero, suc, ◌≡◌, ◌≢◌, Bool, false, not, ◌||◌, List, [], ◌∷◌, ◌++◌, All, keep, nat_beq,
}
use mautrix_asmux.Json.{Fields}

-- The entries of a stream: an id and what `json.loads` makes of the field `txn`.
abbrev pub Entries : Type 0
Entries = List (ℕ × Fields)

abbrev pub first {ℓ} : {A : Type ℓ} → ℕ → List A → List A
first zero l = []
first (suc n) [] = []
first (suc n) (x ∷ l) = x ∷ first n l

abbrev pub ids : Entries → List ℕ
ids [] = []
ids ((id, _) ∷ l) = id ∷ ids l

abbrev pub has_id : ℕ → List ℕ → Bool
has_id id [] = false
has_id id (i ∷ is) = nat_beq id i || has_id id is

-- No two entries have one id.
abbrev pub IsDistinct : Entries → Type 0
IsDistinct [] = Unit
IsDistinct (e ∷ l) = All (λ (f : ℕ × Fields). f.0 ≢ e.0) l × IsDistinct l

-- One stream of the server: `XADD` appends an entry with a new id, `XREAD` from id 0 returns the
-- first `count` entries, `XRANGE` all of them, and `XDEL` removes the entries with the given ids.
pub record Stream : Type 1 where
  pub State : Type 0
  pub xrange : State → Entries
  pub xadd : Fields → State → State
  pub xread : ℕ → State → Entries
  pub xdel : List ℕ → State → State
  pub next_id : State → ℕ
  pub distinct : (s : State) → IsDistinct (xrange s)
  pub xrange_xadd : (p : Fields) (s : State) → xrange (xadd p s) ≡ xrange s ++ (next_id s, p) ∷ []
  pub xread_eq : (n : ℕ) (s : State) → xread n s ≡ first n (xrange s)
  pub xrange_xdel :
      (l : List ℕ) (s : State) → xrange (xdel l s) ≡ keep (λ e. not (has_id e.0 l)) (xrange s)
