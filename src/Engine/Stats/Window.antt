-- ===== src/Engine/Stats/Window.antt =====
-- What the sliding window of the statistics keeps.
use air_ferry.Prelude.{
  ℕ, suc, ◌-◌, ◌≤◌, ◌<◌, ◌≡◌, ◌⊎◌, subst, inl, inr, false, refl, ap, ◌∙◌, ◌&&◌, ltb, List, [], ◌∷◌,
  ◌++◌, length, Bool-cases, arith, length-append,
}
use air_ferry.Engine.Stats.{
  RateSample, Stats, evict_old, evict_surplus, push_sample_at, stats_max_samples, stats_window_ms,
}

abbrev pub AllBefore : ℕ → List RateSample → Type 0
AllBefore cutoff [] = Unit {0}
AllBefore cutoff (s ∷ samples) = (s.t_ms < cutoff) × AllBefore cutoff samples

-- The first sample, if there is one, is not before the cutoff.
abbrev pub BeginsAt : ℕ → List RateSample → Type 0
BeginsAt cutoff [] = Unit {0}
BeginsAt cutoff (s ∷ samples) = cutoff ≤ s.t_ms

-- What is kept of some samples when the old ones at the front go, but two stay.
record IsRecent (cutoff : ℕ) (kept samples : List RateSample) : Type 0 where
  old : List RateSample
  splits : samples ≡ old ++ kept
  are_old : AllBefore cutoff old
  keeps_two : (old ≡ []) ⊎ (2 ≤ length kept)
  stops : (length kept ≤ 2) ⊎ BeginsAt cutoff kept

-- `window` is what remains of `samples`: the samples at the front that are before the cutoff go as long as
-- more than two are left, and then only what is more than 4096.
pub record IsWindowOf (cutoff : ℕ) (window samples : List RateSample) : Type 0 where
  pub old : List RateSample
  pub surplus : List RateSample
  pub splits : samples ≡ old ++ (surplus ++ window)
  pub are_old : AllBefore cutoff old
  pub keeps_two : (old ≡ []) ⊎ (2 ≤ length (surplus ++ window))
  pub stops : (length (surplus ++ window) ≤ 2) ⊎ BeginsAt cutoff (surplus ++ window)
  pub cut : (surplus ≡ []) ⊎ (length window ≡ stats_max_samples)
  pub bounded : length window ≤ stats_max_samples
  pub some_left : 0 < length window

evict_old-keeps :
    (cutoff n : ℕ) (window : List RateSample)
    → n ≤ 2
    → n ≤ length window
    → n ≤ length (evict_old cutoff window)
unfolding evict_old
evict_old-keeps cutoff n [] two h = h
evict_old-keeps cutoff n (s ∷ window) two h = ground (arith, evict_old-keeps cutoff n window two)

evict_old-IsRecent :
    (cutoff : ℕ) (window : List RateSample) → IsRecent cutoff (evict_old cutoff window) window
unfolding evict_old
evict_old-IsRecent cutoff [] = record {
  old = [];
  splits = refl;
  are_old = tt;
  keeps_two = inl refl;
  stops = inr tt;
}
evict_old-IsRecent cutoff (s ∷ window) =
    elim (Bool-cases (ltb 2 (suc (length window)) && ltb s.t_ms cutoff)) [
      | inl goes ↦
          let rest = evict_old-IsRecent cutoff window in
          rw goes (record {
            old = s ∷ rest.old;
            splits = ap (λ (r : List RateSample). s ∷ r) rest.splits;
            are_old = (ground arith, rest.are_old);
            keeps_two = inr (evict_old-keeps cutoff 2 window (omega arith) (ground arith));
            stops = rest.stops;
          })
      | inr stays ↦ rw stays (record {
        old = [];
        splits = refl;
        are_old = tt;
        keeps_two = inl refl;
        stops = begins (suc (length window)) s.t_ms stays;
      })
    ]
  where
    begins : (n t : ℕ) → (ltb 2 n && ltb t cutoff) ≡ false → (n ≤ 2) ⊎ (cutoff ≤ t)
    begins n t stays = ground arith

record IsCut (kept window : List RateSample) : Type 0 where
  surplus : List RateSample
  splits : window ≡ surplus ++ kept
  cut : (surplus ≡ []) ⊎ (length kept ≡ stats_max_samples)
  bounded : length kept ≤ stats_max_samples

evict_surplus-keeps :
    (n : ℕ) (window : List RateSample)
    → n ≤ stats_max_samples
    → n ≤ length window
    → n ≤ length (evict_surplus window)
unfolding evict_surplus
evict_surplus-keeps n [] most h = h
evict_surplus-keeps n (s ∷ window) most h = ground (arith, evict_surplus-keeps n window most)

evict_surplus-IsCut : (window : List RateSample) → IsCut (evict_surplus window) window
unfolding evict_surplus
evict_surplus-IsCut [] = record {
  surplus = [];
  splits = refl;
  cut = inl refl;
  bounded = omega arith;
}
evict_surplus-IsCut (s ∷ window) = elim (Bool-cases (ltb stats_max_samples (suc (length window)))) [
  | inl many ↦
      let rest = evict_surplus-IsCut window in
      let full = evict_surplus-keeps stats_max_samples window (omega arith) (ground arith) in
      rw many (record {
        surplus = s ∷ rest.surplus;
        splits = ap (λ (r : List RateSample). s ∷ r) rest.splits;
        cut = inr (omega (arith, full, rest.bounded));
        bounded = rest.bounded;
      })
  | inr few ↦
      rw few (record { surplus = []; splits = refl; cut = inl refl; bounded = ground arith })
]

-- After a push the window is a non-empty end of the previous window with the new sample behind it. From the
-- front have gone, first, samples that are before the cutoff of three seconds, until at most two were left
-- or the next one is not before the cutoff, and never so that fewer than two were left; then only what
-- was more than 4096.
pub push_sample_at-IsWindowOf :
    (stats : Stats) (t_ms bytes : ℕ)
    → IsWindowOf
        (t_ms - stats_window_ms)
        (push_sample_at stats t_ms bytes).window
        (stats.window ++ (record { t_ms = t_ms; bytes = bytes } ∷ []))
unfolding push_sample_at
push_sample_at-IsWindowOf stats t_ms bytes =
    let cutoff : ℕ = t_ms - stats_window_ms in
    let all : List RateSample = stats.window ++ (record { t_ms = t_ms; bytes = bytes } ∷ []) in
    let kept : List RateSample = evict_old cutoff all in
    let recent = evict_old-IsRecent cutoff all in
    let short = evict_surplus-IsCut kept in
    let any : 1 ≤ length all =
      omega (arith, length-append stats.window (record { t_ms = t_ms; bytes = bytes } ∷ [])) in
    let some_kept = evict_old-keeps cutoff 1 all (omega arith) any in
    record {
      old = recent.old;
      surplus = short.surplus;
      splits = recent.splits ∙ ap (λ (r : List RateSample). recent.old ++ r) short.splits;
      are_old = recent.are_old;
      keeps_two =
          subst (λ (r : List RateSample). (recent.old ≡ []) ⊎ (2 ≤ length r)) short.splits
            recent.keeps_two;
      stops =
          subst (λ (r : List RateSample). (length r ≤ 2) ⊎ BeginsAt cutoff r) short.splits
            recent.stops;
      cut = short.cut;
      bounded = short.bounded;
      some_left = evict_surplus-keeps 1 kept (omega arith) some_kept;
    }
