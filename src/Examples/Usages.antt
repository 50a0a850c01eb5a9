-- ===== src/Examples/Usages.antt =====
-- Sums of usages near the end of the integers (provider/provider.go).
use go_hydaelyn.Prelude.{ℕ, ◌≡◌, ◌≤◌, false, arith}
use go_hydaelyn.Prelude.Int.{pos, negsuc, int_max}
use go_hydaelyn.Provider.{Usage}
use go_hydaelyn.Provider.Usages.{Fits, add, add_assoc}

abbrev spent : ℕ → Usage
spent n = record {
  input_tokens = pos n;
  cached_input_tokens = pos 7;
  cached_input_tokens_reported = false;
  cache_write_input_tokens = negsuc 0;
  cache_write_input_tokens_reported = false;
  output_tokens = pos 2;
  reasoning_tokens = pos 5;
  total_tokens = pos 0;
}

spent-Fits : (n : ℕ) → n ≤ int_max → Fits (spent n)
spent-Fits n h = record {
  input = h;
  cached = omega arith;
  written = omega arith;
  out = omega arith;
  reasoning = omega arith;
  total = omega arith;
}

add_assoc_example :
    add (add (spent int_max) (spent 3)) (spent 4) ≡ add (spent int_max) (add (spent 3) (spent 4))
add_assoc_example =
    add_assoc (spent int_max) (spent 3) (spent 4) (spent-Fits int_max (omega arith))
      (spent-Fits 3 (omega arith)) (spent-Fits 4 (omega arith))
