-- ===== src/Engine/Stats.antt =====
-- Throughput statistics (core/transfer-engine/src/progress.rs). The clock's readings are arguments; the
-- rates in floating point are left out.
pub mod Window
use air_ferry.Prelude.{
  ℕ, zero, suc, ◌+◌, ◌-◌, ◌*◌, Bool, true, false, ◌&&◌, ltb, List, [], ◌∷◌, ◌++◌, length,
  if◌then◌else◌,
}

abbrev pub stats_window_ms : ℕ
stats_window_ms = 3000

abbrev pub stats_max_samples : ℕ
stats_max_samples = 4096

pub record RateSample : Type 0 where
  pub t_ms : ℕ
  pub bytes : ℕ

pub record Stats : Type 0 where
  pub bytes : ℕ
  pub frames : ℕ
  pub elapsed_ms : ℕ
  pub window : List RateSample

abbrev pub default : Stats
default = record { bytes = 0; frames = 0; elapsed_ms = 0; window = [] }

-- `while self.window.len() > 2 && self.window.front().is_some_and(|s| s.t_ms < cutoff)`
unfoldable pub evict_old : ℕ → List RateSample → List RateSample
evict_old cutoff [] = []
evict_old cutoff (s ∷ window) =
    let rest = evict_old cutoff window in
    if ltb 2 (suc (length window)) && ltb s.t_ms cutoff then rest else s ∷ window

-- `while self.window.len() > STATS_MAX_SAMPLES`
unfoldable pub evict_surplus : List RateSample → List RateSample
evict_surplus [] = []
evict_surplus (s ∷ window) =
    let rest = evict_surplus window in
    if ltb stats_max_samples (suc (length window)) then rest else s ∷ window

unfoldable pub push_sample_at : Stats → ℕ → ℕ → Stats
push_sample_at stats t_ms bytes = record stats {
  window = evict_surplus (
      evict_old (t_ms - stats_window_ms)
        (stats.window ++ (record { t_ms = t_ms; bytes = bytes } ∷ [])));
}

-- The sums stay far below 64 bits.
unfoldable pub record_sent : Stats → (now payload_bytes : ℕ) → Stats
record_sent stats now payload_bytes =
    push_sample_at (record stats { bytes = stats.bytes + payload_bytes; frames = stats.frames + 1 })
      now payload_bytes

unfoldable pub record_received : Stats → (now payload_bytes : ℕ) → Bool → Stats
record_received stats now payload_bytes unique =
    push_sample_at
      (record stats {
        bytes = if unique then stats.bytes + payload_bytes else stats.bytes;
        frames = stats.frames + 1;
      })
      now (if unique then payload_bytes else 0)

-- The oldest and the newest time, the frames and the bytes of the samples from `cutoff` on.
pub record Rates : Type 0 where
  pub oldest : ℕ
  pub newest : ℕ
  pub frames : ℕ
  pub bytes : ℕ

abbrev pub no_rates : Rates
no_rates = record { oldest = 0; newest = 0; frames = 0; bytes = 0 }

-- One turn of the loop of `window_rates`; `first` is set by the first sample that counts.
unfoldable pub count_sample : ℕ → Rates → RateSample → Rates
count_sample cutoff r s = if ltb s.t_ms cutoff then r else record {
  oldest = if ltb 0 r.frames then r.oldest else s.t_ms;
  newest = s.t_ms;
  frames = r.frames + 1;
  bytes = r.bytes + s.bytes;
}

unfoldable pub count_samples : ℕ → Rates → List RateSample → Rates
count_samples cutoff r [] = r
count_samples cutoff r (s ∷ window) = count_samples cutoff (count_sample cutoff r s) window

-- `window_rates`: the span, the frames and the bytes.
unfoldable pub window_rates : Stats → ℕ → ℕ × ℕ × ℕ
window_rates stats now =
    let r = count_samples (now - stats_window_ms) no_rates stats.window in
    (r.newest - r.oldest, r.frames, r.bytes)
