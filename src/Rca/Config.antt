-- ===== src/Rca/Config.antt =====
-- internal/rca/rules/config.go: the thresholds of the rules.
use whymiss.Prelude.{Bool, ◌||◌, Option, none, some, if◌then◌else◌}
use whymiss.Prelude.Int.{pos, ltb_ℤ}
use whymiss.Prelude.Time.{Duration}
use whymiss.Prelude.Float.{FloatOps, not_finite}
use whymiss.Domain.Errors.{Err, invalid}

pub record Config (F : Type 0) : Type 0 where
  pub dominance : F
  pub clock_offset_max : Duration
  pub clock_sample_max_age : Duration
  pub network_deviation : Duration
  pub engine_spike_multiplier : F
  pub peer_count_min : F
  pub io_wait_pct : F
  pub cpu_steal_pct : F
  pub psi_mem_avg10 : F

module _ {F : Type 0} (fl : FloatOps F) where
  unfoldable pub default_config : Config F
  default_config = record {
    dominance = fl.lit (pos 5) 1;
    clock_offset_max = pos 100000000;
    clock_sample_max_age = pos 120000000000;
    network_deviation = pos 750000000;
    engine_spike_multiplier = fl.lit (pos 3) 0;
    peer_count_min = fl.lit (pos 40) 0;
    io_wait_pct = fl.lit (pos 20) 0;
    cpu_steal_pct = fl.lit (pos 5) 0;
    psi_mem_avg10 = fl.lit (pos 10) 0;
  }

  abbrev outside : F → F → F → Bool
  outside lo hi x = fl.lt x lo || fl.lt hi x

  unfoldable pub validate : Config F → Option Err
  validate c =
      if not_finite fl c.dominance
        || not_finite fl c.engine_spike_multiplier
        || not_finite fl c.peer_count_min
        || not_finite fl c.io_wait_pct
        || not_finite fl c.cpu_steal_pct
        || not_finite fl c.psi_mem_avg10
      then some invalid
      else if outside (fl.lit (pos 5) 1) (fl.lit (pos 9) 1) c.dominance
      then some invalid
      else if ltb_ℤ c.clock_offset_max (pos 10000000) || ltb_ℤ (pos 1000000000) c.clock_offset_max
      then some invalid
      else if ltb_ℤ c.clock_sample_max_age (pos 30000000000)
          || ltb_ℤ (pos 600000000000) c.clock_sample_max_age
      then some invalid
      else if ltb_ℤ c.network_deviation (pos 50000000) || ltb_ℤ (pos 5000000000) c.network_deviation
      then some invalid
      else if outside (fl.lit (pos 11) 1) (fl.lit (pos 20) 0) c.engine_spike_multiplier
      then some invalid
      else if outside (fl.lit (pos 1) 0) (fl.lit (pos 500) 0) c.peer_count_min
      then some invalid
      else if outside (fl.lit (pos 0) 0) (fl.lit (pos 100) 0) c.io_wait_pct
      then some invalid
      else if outside (fl.lit (pos 0) 0) (fl.lit (pos 100) 0) c.cpu_steal_pct
      then some invalid
      else if outside (fl.lit (pos 0) 0) (fl.lit (pos 100) 0) c.psi_mem_avg10
      then some invalid
      else none
