-- ===== src/Connections/Orderly.antt =====
-- Connections that come one at a time, and two that overlap (mautrix_asmux/api/as_websocket.py).
use mautrix_asmux.Prelude.{ℕ, ◌≡◌, ◌≢◌, ◌⊎◌, refl, true, false, none, some, [], ◌∷◌, ◌++◌, arith}
use mautrix_asmux.Connections.{
  entered, admitted, open_, Registry, init, close_stale, give_up, admit, register, is_current,
  finish, stop, Step, enters, refuses, admits, registers, abandons, gives_up, finishes, replaced,
  stops, Steps, here, later,
}

-- Nobody waits between the closing of the old websocket and the registration of its own.
abbrev pub NobodyWaits : Registry → Type 0
NobodyWaits r = (j : ℕ) → r.stage j ≢ admitted

-- The same steps, where a connection is admitted only when no other one waits.
pub data Orderly (r : Registry) : Registry → Type 0 where
  admits_alone : (i : ℕ) → NobodyWaits r → r.stage i ≡ entered → Orderly r (admit i r)
  goes_on :
      {s : Registry}
      → ((i : ℕ) → r.stage i ≢ admitted → s.stage i ≢ admitted)
      → Step r s
      → Orderly r s

pub data Orderlies (r : Registry) : Registry → Type 0 where
  begin : Orderlies r r
  then_ : {s t : Registry} → Orderlies r s → Orderly s t → Orderlies r t

pub record IsSingle (r : Registry) : Type 0 where
  pub one_waits : (i j : ℕ) → r.stage i ≡ admitted → r.stage j ≡ admitted → i ≡ j
  pub none_current : (i : ℕ) → r.stage i ≡ admitted → r.current ≡ none
  pub others_asked : (i : ℕ) → r.stage i ≡ open_ → (r.current ≡ some i) ⊎ (r.asked i ≡ true)

admits-IsSingle :
    (i : ℕ) (r : Registry) → NobodyWaits r → r.stage i ≡ entered → IsSingle r → IsSingle (admit i r)
unfolding close_stale admit
admits-IsSingle i r alone new h = record {
  one_waits = λ j k a b. ground (arith, alone j, alone k);
  none_current = λ j a. ground arith;
  others_asked = λ j o. ground (arith, h.others_asked j);
}

Step-IsSingle :
    {r s : Registry}
    → ((i : ℕ) → r.stage i ≢ admitted → s.stage i ≢ admitted)
    → Step r s
    → IsSingle r
    → IsSingle s
unfolding close_stale give_up admit register is_current finish stop
Step-IsSingle {r} new (enters i up idles) h = record {
  one_waits = λ j k a b. ground (arith, h.one_waits j k);
  none_current = λ j a. ground (arith, h.none_current j);
  others_asked = λ j o. ground (arith, h.others_asked j);
}
Step-IsSingle {r} new (refuses i waits) h = record {
  one_waits = λ j k a b. ground (arith, h.one_waits j k);
  none_current = λ j a. ground (arith, h.none_current j);
  others_asked = λ j o. ground (arith, h.others_asked j);
}
Step-IsSingle {r} new (gives_up i serves) h = record {
  one_waits = λ j k a b. ground (arith, h.one_waits j k);
  none_current = λ j a. ground (arith, h.none_current j);
  others_asked = λ j o. ground (arith, h.others_asked j);
}
Step-IsSingle {r} new (admits i is) h = absurd (new i (λ e. ground (arith, is)) (ground arith))
Step-IsSingle {r} new (registers i waits) h = record {
  one_waits = λ j k a b. ground (arith, h.one_waits j k);
  none_current = λ j a. ground (arith, h.one_waits i j waits);
  others_asked = λ j o. ground (arith, h.others_asked j, h.none_current i waits);
}
Step-IsSingle {r} new (abandons i waits) h = record {
  one_waits = λ j k a b. ground (arith, h.one_waits j k);
  none_current = λ j a. ground (arith, h.none_current j);
  others_asked = λ j o. ground (arith, h.others_asked j);
}
Step-IsSingle {r} new (finishes i serves) h = record {
  one_waits = λ j k a b. ground (arith, h.one_waits j k);
  none_current = λ j a. ground (arith, h.none_current j);
  others_asked = λ j o. ground (arith, h.others_asked j);
}
Step-IsSingle {r} new replaced h = record {
  one_waits = λ j k a b. ground (arith, h.one_waits j k);
  none_current = λ j a. ground (arith, h.none_current j);
  others_asked = λ j o. ground (arith, h.others_asked j);
}
Step-IsSingle {r} new stops h = record {
  one_waits = λ j k a b. ground (arith, h.one_waits j k);
  none_current = λ j a. ground (arith, h.none_current j);
  others_asked = λ j o. ground (arith, h.others_asked j);
}

init-IsSingle : IsSingle init
init-IsSingle = record {
  one_waits = λ i j a b. cc;
  none_current = λ i a. refl;
  others_asked = λ i o. cc;
}

Orderlies-IsSingle : {r s : Registry} → Orderlies r s → IsSingle r → IsSingle s
Orderlies-IsSingle begin h = h
Orderlies-IsSingle (then_ rs (admits_alone i alone new)) h =
    admits-IsSingle i _ alone new (Orderlies-IsSingle rs h)
Orderlies-IsSingle (then_ rs (goes_on new step)) h =
    Step-IsSingle new step (Orderlies-IsSingle rs h)

-- Where a connection is admitted only when no other one waits for its registration, of the
-- websockets that are served all but one are being closed.
pub orderly-single :
    (r : Registry) (i j : ℕ)
    → Orderlies init r
    → r.stage i ≡ open_
    → r.stage j ≡ open_
    → r.asked i ≡ false
    → r.asked j ≡ false
    → i ≡ j
orderly-single r i j steps a b c d =
    let h = Orderlies-IsSingle steps init-IsSingle in
    ground (arith, h.others_asked i a, h.others_asked j b)

-- Two connections that both wait for their registration may go on so that the first is served, is
-- not being closed, and is not registered either, while the end of the second has asked for a stop
-- of the sync proxy.
pub overlap :
    (r : Registry) (i j : ℕ)
    → i ≢ j
    → r.stage i ≡ admitted
    → r.stage j ≡ admitted
    → r.asked i ≡ false
    → (s : Registry) × Steps r s
      × (s.stage i ≡ open_)
      × (s.asked i ≡ false)
      × (s.current ≡ none)
      × (s.proxy_stops ≡ r.proxy_stops ++ j ∷ [])
unfolding register finish is_current
overlap r i j other a b c =
    let r1 = register i r in
    let r2 = register j r1 in
    (
      finish j r2,
      later (later (later here (registers i a)) (registers j (ground arith)))
          (finishes j (ground arith)),
      ground arith,
      ground arith,
      ground arith,
      ground arith,
    )
