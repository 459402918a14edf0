-- ===== src/Ocsp/Index/Kept.antt =====
-- src/ocsp/clu_ocsp.c, `parseIndexFile` on any file.
use wolf_clu.Base.{ℕ, ◌*◌, ◌≤◌, ◌<◌, false, ◌&&◌, ◌==◌, length, ◌≡◌}
use wolf_clu.Ocsp.Index.{IndexEntry, is_minus_one}

module _ (size : ℕ) where
  -- The serial fits the buffer of the entry and is not empty, and a revoked certificate has a time
  -- that is not `(time_t)-1`.
  pub record Kept (e : IndexEntry) : Type 0 where
    pub not_empty : 0 < length e.serial
    pub fits : length e.serial ≤ 2 * size
    pub has_time : (e.status == b'R' && is_minus_one e.revocation_time) ≡ false
