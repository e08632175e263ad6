-- ===== src/Memory/Margins.antt =====
-- The two safety margins.
use serve_mlx.Base.{ℕ, ◌+◌, ◌-◌, ◌*◌, ◌/◌, ◌≤◌, ◌<◌, ◌≡◌, min, max, ok, arith, lt→leb_false}
use serve_mlx.Memory.{gib, automatic_safety_margin_bytes, adaptive_safety_margin_bytes}

adaptive_lem :
    (p r : ℕ)
    → 0 < p
    → r ≤ p
    → adaptive_safety_margin_bytes p r ≡ ok (min (8 * gib) (max (1 * gib) (p / 4 - (p - r))))
unfolding adaptive_safety_margin_bytes
adaptive_lem p r h le = ground arith

-- What the two margins promise of a machine with `p` bytes of memory.
pub record Margins (p r a b : ℕ) : Type 0 where
  pub automatic : automatic_safety_margin_bytes p ≡ ok a
  pub adaptive : adaptive_safety_margin_bytes p r ≡ ok b
  pub automatic_range : (2 * gib ≤ a) × (a ≤ 8 * gib)
  pub adaptive_range : (1 * gib ≤ b) × (b ≤ 8 * gib)
  pub smaller : b ≤ a
  pub covers : p / 4 ≤ 8 * gib → p / 4 ≤ b + (p - r)

-- Both margins exist and stay in their ranges, the adaptive one is never the larger, and with what
-- the OS withholds it still amounts to a quarter of the memory (up to 32 GiB of it).
pub safety-Margins : (p r : ℕ) → 0 < p → r ≤ p → (a : ℕ) × (b : ℕ) × Margins p r a b
unfolding automatic_safety_margin_bytes
safety-Margins p r h le = (
  min (8 * gib) (max (2 * gib) (p / 4)),
  min (8 * gib) (max (1 * gib) (p / 4 - (p - r))),
  record {
    automatic = rw (lt→leb_false p 0 h);
    adaptive = adaptive_lem p r h le;
    automatic_range = omega arith;
    adaptive_range = omega arith;
    smaller = omega arith;
    covers = omega arith;
  },
)
