-- ===== src/Cache/Examples.antt =====
-- A reference of the cache.
use codex_keyboard_windows.Base.{ℕ, zero, suc, ◌<◌, ◌≡◌, refl, arith, replicate, IsBytes, ok}
use codex_keyboard_windows.Cache.{CacheId, from_reference, reference}
use codex_keyboard_windows.Cache.Reference.{IsCacheId, from_reference-reference}

abbrev pub sample_id : CacheId
sample_id = record { task_hash = replicate 32 171; generation = 42 }

IsBytes-replicate : (n b : ℕ) → b < 256 → IsBytes (replicate n b)
IsBytes-replicate zero b h = tt
IsBytes-replicate (suc n) b h = (h, IsBytes-replicate n b h)

pub sample_id-IsCacheId : IsCacheId sample_id
sample_id-IsCacheId = record {
  hash_bytes = IsBytes-replicate 32 171 (omega arith);
  hash_length = refl;
  generation_set = λ e. omega (arith, e);
  generation_fits = omega arith;
}

from_reference-reference_example : from_reference (reference sample_id) ≡ ok sample_id
from_reference-reference_example = from_reference-reference sample_id sample_id-IsCacheId
