-- ===== src/Loader/Counts.antt =====
-- The account of the loader's counters.
use serve_mlx.Base.{ℕ, ◌+◌, ◌≤◌, Bool, true, false, arith}
use serve_mlx.Loader.{count_if}

count_if_lem : (b : Bool) (n : ℕ) → (n ≤ count_if b n) × (count_if b n ≤ n + 1)
count_if_lem true n = (omega arith, omega arith)
count_if_lem false n = (omega arith, omega arith)

count_if_mono : (b : Bool) (m n : ℕ) → m ≤ n → count_if b m ≤ count_if b n
count_if_mono true m n h = omega (arith, h)
count_if_mono false m n h = h

-- Calls of `prefetch` and `demand`, predictions among the former, and what became of them: each
-- submitted, skipped or coalesced call is one of the calls.
pub record Counted (prefetches demands predictions submitted skipped coalesced predicted : ℕ)
    : Type 0 where
  pub calls : submitted + skipped + coalesced ≤ prefetches + demands
  pub speculative : submitted + skipped ≤ prefetches
  pub asked : predictions ≤ prefetches
  pub answered : predicted ≤ predictions
  pub among : predicted ≤ submitted

module _ {prefetches demands predictions submitted skipped coalesced predicted : ℕ}
    (c : Counted prefetches demands predictions submitted skipped coalesced predicted) where
  pub demand-Counted :
      Counted prefetches (demands + 1) predictions submitted skipped coalesced predicted
  demand-Counted = record {
    calls = omega (arith, c.calls);
    speculative = c.speculative;
    asked = c.asked;
    answered = c.answered;
    among = c.among;
  }

  pub shared-Counted :
      Counted prefetches (demands + 1) predictions submitted skipped (coalesced + 1) predicted
  shared-Counted = record {
    calls = omega (arith, c.calls);
    speculative = c.speculative;
    asked = c.asked;
    answered = c.answered;
    among = c.among;
  }

  module _ (b : Bool) where
    pub coalesced-Counted :
        Counted
          (prefetches + 1)
          demands
          (count_if b predictions)
          submitted
          skipped
          (coalesced + 1)
          predicted
    coalesced-Counted =
        let l = count_if_lem b predictions in
        record {
          calls = omega (arith, c.calls);
          speculative = omega (arith, c.speculative);
          asked = omega (arith, c.asked, l);
          answered = omega (arith, c.answered, l);
          among = c.among;
        }

    pub skipped-Counted :
        Counted
          (prefetches + 1)
          demands
          (count_if b predictions)
          submitted
          (skipped + 1)
          coalesced
          predicted
    skipped-Counted =
        let l = count_if_lem b predictions in
        record {
          calls = omega (arith, c.calls);
          speculative = omega (arith, c.speculative);
          asked = omega (arith, c.asked, l);
          answered = omega (arith, c.answered, l);
          among = c.among;
        }

    pub submitted-Counted :
        Counted
          (prefetches + 1)
          demands
          (count_if b predictions)
          (submitted + 1)
          skipped
          coalesced
          (count_if b predicted)
    submitted-Counted = record {
      calls = omega (arith, c.calls);
      speculative = omega (arith, c.speculative);
      asked = omega (arith, c.asked, count_if_lem b predictions);
      answered = count_if_mono b predicted predictions c.answered;
      among = omega (arith, c.among, count_if_lem b predicted);
    }
