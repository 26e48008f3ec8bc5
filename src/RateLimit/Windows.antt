-- ===== src/RateLimit/Windows.antt =====
-- The budget of a key: how many requests it has admitted in any window.
use mathlib.Core.List.{append_assoc}
use cofferwire.Base.{
  ℕ, ◌+◌, ◌%◌, ◌≤◌, ◌<◌, ◌≡◌, refl, inl, inr, none, some, Option, List, [], ◌∷◌, ◌++◌, arith,
  length, Bool-cases, if◌then◌else◌, leb, ltb, Bool, ◌&&◌, Each, Each-append, sym, ap, ◌∙◌,
}
use cofferwire.Types.{u64_mod}
use cofferwire.RateLimit.{drop_old}

-- How many of the times lie in the window of length w that begins at t.
abbrev pub in_window : ℕ → ℕ → List ℕ → ℕ
in_window t w [] = 0
in_window t w (s ∷ times) = (if leb t s && ltb s (t + w) then 1 else 0) + in_window t w times

in_window-append :
    (t w : ℕ) (xs ys : List ℕ) → in_window t w (xs ++ ys) ≡ in_window t w xs + in_window t w ys
in_window-append t w [] ys = omega arith
in_window-append t w (x ∷ xs) ys = omega (arith, in_window-append t w xs ys)

in_window-le-length : (t w : ℕ) (xs : List ℕ) → in_window t w xs ≤ length xs
in_window-le-length t w [] = omega arith
in_window-le-length t w (x ∷ xs) = ground (arith, in_window-le-length t w xs)

abbrev pub Gone : ℕ → ℕ → List ℕ → Type 0
Gone w now = Each (λ d. d + w ≤ now)

Gone-later : (w now later : ℕ) (xs : List ℕ) → now ≤ later → Gone w now xs → Gone w later xs
Gone-later w now later [] h g = tt
Gone-later w now later (x ∷ xs) h g = (omega arith, Gone-later w now later xs h g.1)

-- A window that has not ended holds nothing that has gone.
in_window-Gone : (t w now : ℕ) (xs : List ℕ) → Gone w now xs → now < t + w → in_window t w xs ≡ 0
in_window-Gone t w now [] g h = refl
in_window-Gone t w now (x ∷ xs) g h = ground (arith, in_window-Gone t w now xs g.1)

-- What the limiter drops from a window has gone.
drop_old-split :
    (w now : ℕ) (xs : List ℕ)
    → Each (λ d. d + w < u64_mod) xs
    → (past : List ℕ) × (xs ≡ past ++ drop_old w now xs)
      × Gone w now past
      × Each (λ d. d + w < u64_mod) (drop_old w now xs)
unfolding drop_old
drop_old-split w now [] f = ([], refl, tt, tt)
drop_old-split w now (x ∷ xs) f =
    let (past, split, gone, fits) = drop_old-split w now xs f.1 in
    let sum : (x + w) % u64_mod ≡ x + w = ground (arith, f.0) in
    elim (Bool-cases (leb (x + w) now)) [
      | inl old ↦ rw sum (rw old (x ∷ past, ap (◌∷◌ x) split, (ground arith, gone), fits))
      | inr new ↦ rw sum (rw new ([], refl, tt, f))
    ]

-- The times that a key was admitted at, those before its window first, and its budget.
pub record Tracked (w n now : ℕ) (times entries : List ℕ) : Type 0 where
  pub past : List ℕ
  pub split : times ≡ past ++ entries
  pub gone : Gone w now past
  pub fits : Each (λ d. d + w < u64_mod) entries
  pub bound : (t : ℕ) → in_window t w times ≤ n

pub Tracked-later :
    (w n now later : ℕ) (times entries : List ℕ)
    → now ≤ later
    → Tracked w n now times entries
    → Tracked w n later times entries
Tracked-later w n now later times entries h s = record {
  past = s.past;
  split = s.split;
  gone = Gone-later w now later s.past h s.gone;
  fits = s.fits;
  bound = s.bound;
}

pub Tracked-drop :
    (w n now : ℕ) (times entries : List ℕ)
    → Tracked w n now times entries
    → Tracked w n now times (drop_old w now entries)
Tracked-drop w n now times entries s =
    let (past, split, gone, fits) = drop_old-split w now entries s.fits in
    record {
      past = s.past ++ past;
      split = s.split ∙ (ap (◌++◌ s.past) split ∙ sym (append_assoc s.past past _));
      gone = Each-append _ s.past past s.gone gone;
      fits = fits;
      bound = s.bound;
    }

pub Tracked-push :
    (w n now : ℕ) (times entries : List ℕ)
    → length entries < n
    → now + w < u64_mod
    → Tracked w n now times entries
    → Tracked w n now (times ++ now ∷ []) (entries ++ now ∷ [])
Tracked-push w n now times entries room fit s = record {
  past = s.past;
  split = ap (λ (xs : List ℕ). xs ++ now ∷ []) s.split ∙ append_assoc s.past entries (now ∷ []);
  gone = s.gone;
  fits = Each-append _ entries (now ∷ []) s.fits (fit, tt);
  bound = λ t. pushed t;
}
  where
    in_window_left : (t : ℕ) → now < t + w → in_window t w times ≡ in_window t w entries
    in_window_left t h = omega (
      arith,
      ap (in_window t w) s.split,
      in_window-append t w s.past entries,
      in_window-Gone t w now s.past s.gone h,
    )

    pushed : (t : ℕ) → in_window t w (times ++ now ∷ []) ≤ n
    pushed t = elim (Bool-cases (leb t now && ltb now (t + w))) [
      | inr outside ↦
          rw (in_window-append t w times (now ∷ [])) (rw outside (omega (arith, s.bound t)))
      | inl inside ↦
          rw (in_window-append t w times (now ∷ []))
            (rw (in_window_left t (ground arith)) (ground (arith, in_window-le-length t w entries)))
    ]

-- The first request of a key.
pub Tracked-first :
    (w n now : ℕ) → 0 < n → now + w < u64_mod → Tracked w n now (now ∷ []) (now ∷ [])
Tracked-first w n now pos fit = record {
  past = [];
  split = refl;
  gone = tt;
  fits = (fit, tt);
  bound = λ t. ground arith;
}

-- A key that is not tracked was never admitted.
abbrev pub Window : ℕ → ℕ → ℕ → List ℕ → Option (List ℕ) → Type 0
Window w n now times none = times ≡ []
Window w n now times (some entries) = Tracked w n now times entries

pub Window-later :
    (w n now later : ℕ) (times : List ℕ) (o : Option (List ℕ))
    → now ≤ later
    → Window w n now times o
    → Window w n later times o
Window-later w n now later times none h s = s
Window-later w n now later times (some xs) h s = Tracked-later w n now later times xs h s

pub in_window-Window :
    (w n now t : ℕ) (times : List ℕ) (o : Option (List ℕ))
    → Window w n now times o
    → in_window t w times ≤ n
in_window-Window w n now t times none s = rw s (omega arith)
in_window-Window w n now t times (some xs) s = s.bound t

abbrev pub noted : Bool → ℕ → List ℕ → List ℕ
noted admitted now times = if admitted then times ++ now ∷ [] else times
