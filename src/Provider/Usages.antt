-- ===== src/Provider/Usages.antt =====
-- The sum of token usages (`Usage.Add` of provider/provider.go).
use go_hydaelyn.Prelude.{
  ℕ, ◌+◌, ◌-◌, ◌≤◌, ltb, leb, Bool, ◌||◌, ◌≡◌, refl, sym, ap, ◌∙◌, min, max, if◌then◌else◌, arith,
}
use go_hydaelyn.Prelude.Int.{ℤ, pos, negsuc, int_max}
use go_hydaelyn.Provider.{Usage}

-- `max(0, tokens)`
abbrev pub tokens : ℤ → ℕ
tokens (pos n) = n
tokens (negsuc n) = 0

-- `saturatingTokenAdd` of two counts, neither negative
unfoldable pub saturating_token_add : ℕ → ℕ → ℕ
saturating_token_add left right = if leb (int_max - right) left then int_max else left + right

unfoldable pub normalized_usage : Usage → Usage
unfolding saturating_token_add
normalized_usage u =
    let input = tokens u.input_tokens in
    let out = tokens u.output_tokens in
    let cached = min (tokens u.cached_input_tokens) input in
    let written = min (tokens u.cache_write_input_tokens) input in
    record {
      input_tokens = pos input;
      cached_input_tokens = pos cached;
      cached_input_tokens_reported = u.cached_input_tokens_reported || ltb 0 cached;
      cache_write_input_tokens = pos written;
      cache_write_input_tokens_reported = u.cache_write_input_tokens_reported || ltb 0 written;
      output_tokens = pos out;
      reasoning_tokens = pos (min (tokens u.reasoning_tokens) out);
      total_tokens = pos (max (tokens u.total_tokens) (saturating_token_add input out));
    }

abbrev added : ℤ → ℤ → ℤ
unfolding saturating_token_add
added a b = pos (saturating_token_add (tokens a) (tokens b))

abbrev sum_of : Usage → Usage → Usage
sum_of u v = record {
  input_tokens = added u.input_tokens v.input_tokens;
  cached_input_tokens = added u.cached_input_tokens v.cached_input_tokens;
  cached_input_tokens_reported = u.cached_input_tokens_reported || v.cached_input_tokens_reported;
  cache_write_input_tokens = added u.cache_write_input_tokens v.cache_write_input_tokens;
  cache_write_input_tokens_reported =
      u.cache_write_input_tokens_reported || v.cache_write_input_tokens_reported;
  output_tokens = added u.output_tokens v.output_tokens;
  reasoning_tokens = added u.reasoning_tokens v.reasoning_tokens;
  total_tokens = added u.total_tokens v.total_tokens;
}

-- `Usage.Add`
unfoldable pub add : Usage → Usage → Usage
unfolding normalized_usage saturating_token_add
add u v = sum_of (normalized_usage u) (normalized_usage v)

-- Counts that an int holds.
pub record Fits (u : Usage) : Type 0 where
  pub input : tokens u.input_tokens ≤ int_max
  pub cached : tokens u.cached_input_tokens ≤ int_max
  pub written : tokens u.cache_write_input_tokens ≤ int_max
  pub out : tokens u.output_tokens ≤ int_max
  pub reasoning : tokens u.reasoning_tokens ≤ int_max
  pub total : tokens u.total_tokens ≤ int_max

saturating_lem :
    (a b : ℕ) → a ≤ int_max → b ≤ int_max → saturating_token_add a b ≡ min (a + b) int_max
unfolding saturating_token_add
saturating_lem a b h k = ground (arith, h, k)

saturating-le : (a b : ℕ) → a ≤ int_max → b ≤ int_max → saturating_token_add a b ≤ int_max
saturating-le a b h k = omega (arith, saturating_lem a b h k)

-- The sum of parts is a part of the sum of wholes.
part_of_sum :
    (c i d j : ℕ)
    → i ≤ int_max
    → j ≤ int_max
    → min (saturating_token_add (min c i) (min d j)) (saturating_token_add i j)
      ≡ saturating_token_add (min c i) (min d j)
part_of_sum c i d j h k = omega (
  arith,
  saturating_lem (min c i) (min d j),
  saturating_lem i j h k,
  h,
  k,
  saturating_lem (min c i) (min d j) (omega (arith, h)) (omega (arith, k)),
)

-- The sum of the totals is at least the total of the sums.
total_of_sum :
    (t i o s j p : ℕ)
    → t ≤ int_max
    → i ≤ int_max
    → o ≤ int_max
    → s ≤ int_max
    → j ≤ int_max
    → p ≤ int_max
    → max
        (saturating_token_add (max t (saturating_token_add i o)) (max s (saturating_token_add j p)))
        (saturating_token_add (saturating_token_add i j) (saturating_token_add o p))
      ≡ saturating_token_add (max t (saturating_token_add i o)) (max s (saturating_token_add j p))
total_of_sum t i o s j p ht hi ho hs hj hp =
    let io = saturating_lem i o hi ho in
    let jp = saturating_lem j p hj hp in
    let ij = saturating_lem i j hi hj in
    let op = saturating_lem o p ho hp in
    let left =
      saturating_lem (max t (saturating_token_add i o)) (max s (saturating_token_add j p))
        (omega (arith, io, ht)) (omega (arith, jp, hs)) in
    let right =
      saturating_lem (saturating_token_add i j) (saturating_token_add o p) (omega (arith, ij))
        (omega (arith, op)) in
    omega (arith, io, jp, ij, op, left, right)

-- A sum that is positive has a part that is.
reported_sum :
    (a b : Bool) (c d : ℕ)
    → ((a || ltb 0 c) || (b || ltb 0 d)) || ltb 0 (saturating_token_add c d)
      ≡ (a || ltb 0 c) || (b || ltb 0 d)
unfolding saturating_token_add
reported_sum a b c d = ground arith

-- The sum of two usages is normal, so that adding it on changes none of its fields but by the sum:
-- each part is at most its whole, and the total at least the saturated sum of input and output.
add_normalized : (u v : Usage) → Fits u → Fits v → normalized_usage (add u v) ≡ add u v
unfolding add normalized_usage
add_normalized u v f g =
    rw
      (
        part_of_sum (tokens u.cached_input_tokens) (tokens u.input_tokens)
            (tokens v.cached_input_tokens) (tokens v.input_tokens) f.input g.input,
        part_of_sum (tokens u.cache_write_input_tokens) (tokens u.input_tokens)
            (tokens v.cache_write_input_tokens) (tokens v.input_tokens) f.input g.input,
        part_of_sum (tokens u.reasoning_tokens) (tokens u.output_tokens) (tokens v.reasoning_tokens)
            (tokens v.output_tokens) f.out g.out,
        total_of_sum (tokens u.total_tokens) (tokens u.input_tokens) (tokens u.output_tokens)
            (tokens v.total_tokens) (tokens v.input_tokens) (tokens v.output_tokens) f.total f.input
            f.out g.total g.input g.out,
        reported_sum u.cached_input_tokens_reported v.cached_input_tokens_reported
            (min (tokens u.cached_input_tokens) (tokens u.input_tokens))
            (min (tokens v.cached_input_tokens) (tokens v.input_tokens)),
        reported_sum u.cache_write_input_tokens_reported v.cache_write_input_tokens_reported
            (min (tokens u.cache_write_input_tokens) (tokens u.input_tokens))
            (min (tokens v.cache_write_input_tokens) (tokens v.input_tokens)),
      )
      refl

saturating_assoc :
    (a b c : ℕ)
    → a ≤ int_max
    → b ≤ int_max
    → c ≤ int_max
    → saturating_token_add (saturating_token_add a b) c
      ≡ saturating_token_add a (saturating_token_add b c)
saturating_assoc a b c ha hb hc =
    let ab = saturating_lem a b ha hb in
    let bc = saturating_lem b c hb hc in
    let left = saturating_lem (saturating_token_add a b) c (omega (arith, ab)) hc in
    let right = saturating_lem a (saturating_token_add b c) ha (omega (arith, bc)) in
    omega (arith, ab, bc, left, right)

normal_Fits : (u : Usage) → Fits u → Fits (normalized_usage u)
unfolding normalized_usage
normal_Fits u f =
    let io = saturating_lem (tokens u.input_tokens) (tokens u.output_tokens) f.input f.out in
    record {
      input = f.input;
      cached = omega (arith, f.input);
      written = omega (arith, f.input);
      out = f.out;
      reasoning = omega (arith, f.out);
      total = omega (arith, f.total, io);
    }

or_assoc : (a b c : Bool) → (a || b) || c ≡ a || (b || c)
or_assoc a b c = ground arith

sum_assoc :
    (u v w : Usage) → Fits u → Fits v → Fits w → sum_of (sum_of u v) w ≡ sum_of u (sum_of v w)
unfolding added
sum_assoc u v w f g h =
    rw
      (
        saturating_assoc (tokens u.input_tokens) (tokens v.input_tokens) (tokens w.input_tokens)
            f.input g.input h.input,
        saturating_assoc (tokens u.cached_input_tokens) (tokens v.cached_input_tokens)
            (tokens w.cached_input_tokens) f.cached g.cached h.cached,
        saturating_assoc (tokens u.cache_write_input_tokens) (tokens v.cache_write_input_tokens)
            (tokens w.cache_write_input_tokens) f.written g.written h.written,
        saturating_assoc (tokens u.output_tokens) (tokens v.output_tokens) (tokens w.output_tokens)
            f.out g.out h.out,
        saturating_assoc (tokens u.reasoning_tokens) (tokens v.reasoning_tokens)
            (tokens w.reasoning_tokens) f.reasoning g.reasoning h.reasoning,
        saturating_assoc (tokens u.total_tokens) (tokens v.total_tokens) (tokens w.total_tokens)
            f.total g.total h.total,
        or_assoc u.cached_input_tokens_reported v.cached_input_tokens_reported
            w.cached_input_tokens_reported,
        or_assoc u.cache_write_input_tokens_reported v.cache_write_input_tokens_reported
            w.cache_write_input_tokens_reported,
      )
      refl

-- Token accounting does not depend on how the sums are grouped, saturation and clamping included,
-- for usages whose counts an int holds.
pub add_assoc : (u v w : Usage) → Fits u → Fits v → Fits w → add (add u v) w ≡ add u (add v w)
unfolding add
add_assoc u v w f g h =
    ap (λ x. sum_of x (normalized_usage w)) (add_normalized u v f g)
    ∙ sum_assoc (normalized_usage u) (normalized_usage v) (normalized_usage w) (normal_Fits u f)
        (normal_Fits v g) (normal_Fits w h)
    ∙ ap (λ x. sum_of (normalized_usage u) x) (sym (add_normalized v w g h))
