-- ===== src/Tests/Streams.antt =====
-- A stream in memory, which shows that what is asked of Redis can be had.
use mautrix_asmux.Prelude.{
  ℕ, ◌+◌, ◌<◌, ◌≢◌, refl, Bool, true, false, not, [], ◌∷◌, ◌++◌, All, All-append, keep, arith,
  if◌then◌else◌,
}
use mautrix_asmux.Json.{Fields}
use mautrix_asmux.Redis.{Stream, Entries, IsDistinct, first, has_id}

abbrev pub IsBelow : ℕ → Entries → Type 0
IsBelow n = All (λ (e : ℕ × Fields). e.0 < n)

pub record Log : Type 0 where
  pub next : ℕ
  pub entries : Entries
  pub below : IsBelow next entries
  pub distinct : IsDistinct entries

pub IsBelow-suc : (n : ℕ) (l : Entries) → IsBelow n l → IsBelow (n + 1) l
IsBelow-suc n [] h = tt
IsBelow-suc n (e ∷ l) h = (omega arith, IsBelow-suc n l h.1)

abbrev Others : ℕ → Entries → Type 0
Others i = All (λ (f : ℕ × Fields). f.0 ≢ i)

pub IsDistinct-append :
    (n : ℕ) (p : Fields) (l : Entries) → IsBelow n l → IsDistinct l → IsDistinct (l ++ (n, p) ∷ [])
IsDistinct-append n p [] b d = (tt, tt)
IsDistinct-append n p (e ∷ l) b d = (
  All-append (λ (f : ℕ × Fields). f.0 ≢ e.0) l ((n, p) ∷ []) d.0 (omega arith, tt),
  IsDistinct-append n p l b.1 d.1,
)

pub All-keep :
    (P : ℕ × Fields → Type 0) (q : ℕ × Fields → Bool) (l : Entries) → All P l → All P (keep q l)
All-keep P q [] h = tt
All-keep P q (e ∷ l) h = elim (q e) as (λ b. All P (if b then e ∷ keep q l else keep q l)) [
  | true ↦ (h.0, All-keep P q l h.1)
  | false ↦ All-keep P q l h.1
]

pub IsDistinct-keep : (q : ℕ × Fields → Bool) (l : Entries) → IsDistinct l → IsDistinct (keep q l)
IsDistinct-keep q [] h = tt
IsDistinct-keep q (e ∷ l) h =
    elim (q e) as (λ b. IsDistinct (if b then e ∷ keep q l else keep q l)) [
      | true ↦ (All-keep (λ (f : ℕ × Fields). f.0 ≢ e.0) q l h.0, IsDistinct-keep q l h.1)
      | false ↦ IsDistinct-keep q l h.1
    ]

abbrev pub log_stream : Stream
log_stream = record {
  State = Log;
  xrange = λ s. s.entries;
  xadd = λ p s. record {
    next = s.next + 1;
    entries = s.entries ++ (s.next, p) ∷ [];
    below =
        All-append (λ (e : ℕ × Fields). e.0 < s.next + 1) s.entries ((s.next, p) ∷ [])
          (IsBelow-suc s.next s.entries s.below) (omega arith, tt);
    distinct = IsDistinct-append s.next p s.entries s.below s.distinct;
  };
  xread = λ n s. first n s.entries;
  xdel = λ l s. record {
    next = s.next;
    entries = keep (λ e. not (has_id e.0 l)) s.entries;
    below = All-keep (λ (e : ℕ × Fields). e.0 < s.next) (λ e. not (has_id e.0 l)) s.entries s.below;
    distinct = IsDistinct-keep (λ e. not (has_id e.0 l)) s.entries s.distinct;
  };
  next_id = λ s. s.next;
  distinct = λ s. s.distinct;
  xrange_xadd = λ p s. refl;
  xread_eq = λ n s. refl;
  xrange_xdel = λ l s. refl;
}

-- One entry.
abbrev pub log_of : Fields → Log
log_of p = record {
  next = 1;
  entries = (0, p) ∷ [];
  below = (omega arith, tt);
  distinct = (tt, tt);
}
