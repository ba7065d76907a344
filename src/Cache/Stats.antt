-- ===== src/Cache/Stats.antt =====
-- src/zdns/cache_stats.go: counters of 64 bits, kept only if statistics are captured. The rates of
-- `GetStatistics`, which are floats, are not modelled.
use zdns.Prelude.{ℕ, ◌+◌, ◌%◌, Bool, true, false, if◌then◌else◌}

pub record CacheStatistics : Type 0 where
  pub should_capture_statistics : Bool
  pub hits : ℕ
  pub misses : ℕ
  pub writes : ℕ
  pub ejects : ℕ

abbrev pub u64_mod : ℕ
u64_mod = 0x1_0000_0000_0000_0000

unfoldable pub capture_statistics : CacheStatistics → CacheStatistics
capture_statistics s = record s { should_capture_statistics = true }

unfoldable pub increment_hits : CacheStatistics → CacheStatistics
increment_hits s =
    if s.should_capture_statistics then record s { hits = (s.hits + 1) % u64_mod } else s

unfoldable pub increment_misses : CacheStatistics → CacheStatistics
increment_misses s =
    if s.should_capture_statistics then record s { misses = (s.misses + 1) % u64_mod } else s

unfoldable pub increment_adds : CacheStatistics → CacheStatistics
increment_adds s =
    if s.should_capture_statistics then record s { writes = (s.writes + 1) % u64_mod } else s

unfoldable pub increment_ejects : CacheStatistics → CacheStatistics
increment_ejects s =
    if s.should_capture_statistics then record s { ejects = (s.ejects + 1) % u64_mod } else s

-- the zero value of the struct
abbrev pub no_statistics : CacheStatistics
no_statistics = record {
  should_capture_statistics = false;
  hits = 0;
  misses = 0;
  writes = 0;
  ejects = 0;
}
