-- ===== src/Guard/Brace/Termination.antt =====
-- The rounds of the loop of `brace_alternatives` of scripts/agent/pre_tool_policy.py.
use native.Mathlib.Nat.{mul-le-mul_left, suc-mul, mul-suc, add-mul}
use gas_station.Base.{
  ℕ, zero, suc, ◌+◌, ◌-◌, ◌*◌, ◌≤◌, ◌<◌, String, List, [], ◌∷◌, ◌++◌, ◌≡◌, ◌≢◌, ap, ◌∙◌, arith, All,
  length, length-append, map, ltb, Bool-cases, inl, inr, prefix_to, suffix_from,
}
use gas_station.Guard.Host.{Host}
use gas_station.Guard.Brace.Counts.{braces, braces-append}
use gas_station.Guard.Brace.Shrinks.{around, brace_group-Shrinks}
use gas_station.Guard.Brace.Bounds.{Group-cases, length-map, ltb-false}
use gas_station.Guard.Brace.{
  brace_group, unfinished, spliced, expand, expansion_fuel, brace_alternatives,
}

-- The opening braces of the patterns that are left, and one for each.
abbrev weight : List String → ℕ
weight [] = 0
weight (x ∷ xs) = suc (braces x) + weight xs

weight-append : (xs ys : List String) → weight (xs ++ ys) ≡ weight xs + weight ys
weight-append [] ys = omega arith
weight-append (x ∷ xs) ys = omega (arith, weight-append xs ys)

-- No pattern that is left has more than `b` opening braces.
abbrev Below : ℕ → List String → Type 0
Below b = All (λ x. braces x ≤ b)

All-append-both {ℓ} :
    {A : Type ℓ} (P : A → Type 0) (xs ys : List A) → All P xs → All P ys → All P (xs ++ ys)
All-append-both P [] ys h k = k
All-append-both P (x ∷ xs) ys h k = (h.0, All-append-both P xs ys h.1 k)

braces-spliced :
    (current r : String) (s e : ℕ) → braces (spliced current s e r) ≡ around current s e r
braces-spliced current r s e =
    braces-append (prefix_to s current) _
    ∙ ap (λ n. braces (prefix_to s current) + n) (braces-append r (suffix_from (e + 1) current))

-- The alternatives in a pattern's place weigh at most what its opening braces are for each.
module _ (current : String) (s e b : ℕ) (bound : braces current ≤ b) where
  weight-spliced :
      (rs : List String)
      → All (λ r. around current s e r < braces current) rs
      → weight (map (spliced current s e) rs) ≤ length rs * braces current
  weight-spliced [] h = omega arith
  weight-spliced (r ∷ rs) h =
      omega (arith, braces-spliced current r s e, h.0, weight-spliced rs h.1)

  Below-spliced :
      (rs : List String)
      → All (λ r. around current s e r < braces current) rs
      → Below b (map (spliced current s e) rs)
  Below-spliced [] h = tt
  Below-spliced (r ∷ rs) h =
      (omega (arith, braces-spliced current r s e, h.0, bound), Below-spliced rs h.1)

-- The room that is left for more patterns, each of which may cost `b + 1` rounds, and the weight.
abbrev cost : ℕ → List String → List String → ℕ
cost b done pending = (64 - (length done + length pending)) * suc b + weight pending

-- A round that puts a group's alternatives in place of a pattern costs less than the pattern.
replaced-cost :
    (b B T n w : ℕ)
    → B ≤ b
    → 0 < n
    → T + n ≤ 64
    → w ≤ n * B
    → (64 - (T + n)) * suc b + w < (64 - (T + 1)) * suc b + suc B
replaced-cost b B T zero w hb h0 hT hw = elim h0 [ ]
replaced-cost b B T (suc m) w hb h0 hT hw =
    let room : ◌≡◌ {A = ℕ} (64 - (T + 1)) (64 - (T + suc m) + m) = omega (arith, hT) in
    let less : m * B ≤ m * b = mul-le-mul_left m hb in
    rw room
      (omega (arith, less, hw, suc-mul m B, add-mul (64 - (T + suc m)) m (suc b), mul-suc m b))

module _ (host : Host) (b : ℕ) where
  kept_cost :
      (current : String) (done pending : List String) (fuel : ℕ)
      → cost b done (current ∷ pending) < suc fuel
      → cost b (done ++ current ∷ []) pending < fuel
  kept_cost current done pending fuel c =
      let same : length (done ++ current ∷ []) + length pending
          ≡ length done + suc (length pending) =
        omega (arith, length-append done (current ∷ [])) in
      rw same (omega (arith, c))

  group_cost :
      (current : String) (done pending next : List String) (fuel n : ℕ)
      → cost b done (current ∷ pending) < suc fuel
      → length (next ++ pending) ≡ n + length pending
      → (64 - (length done + length pending + n)) * suc b + weight next
        < (64 - (length done + length pending + 1)) * suc b + suc (braces current)
      → cost b done (next ++ pending) < fuel
  group_cost current done pending next fuel n c sizes cheaper =
      let after : length done + length (next ++ pending) ≡ length done + length pending + n =
        omega (arith, sizes) in
      let before : length done + suc (length pending) ≡ length done + length pending + 1 =
        omega arith in
      let paid : (64 - (length done + length pending + 1)) * suc b
            + (suc (braces current) + weight pending)
          < suc fuel =
        rw before at c in
      rw after (omega (arith, paid, cheaper, weight-append next pending))

  expand_ends :
      (fuel : ℕ) (done pending : List String)
      → length done + length pending ≤ 64
      → cost b done pending < fuel
      → Below b pending
      → expand host fuel done pending ≢ unfinished
  unfolding expand
  expand_ends zero done pending h c k = elim c [ ]
  expand_ends (suc fuel) done [] h c k = cc
  expand_ends (suc fuel) done (current ∷ pending) h c k =
      elim (Group-cases (brace_group host current)) [
        | inl m ↦ rw (m, expand) (cc)
        | inr (inl n) ↦
            rw (n, expand)
              (expand_ends fuel (done ++ current ∷ []) pending
                (omega (arith, h, length-append done (current ∷ [])))
                (kept_cost current done pending fuel c) k.1)
        | inr (inr (s, e, rs, g)) ↦
            elim (Bool-cases (ltb 64 (length done + length pending + length rs))) [
              | inl big ↦ rw (g, expand) (rw big (cc))
              | inr small ↦
                  let next = map (spliced current s e) rs in
                  let fits = ltb-false 64 (length done + length pending + length rs) small in
                  let both : (0 < length rs) × All (λ r. around current s e r < braces current) rs =
                    rw g at (brace_group-Shrinks host current) in
                  let sizes : length (next ++ pending) ≡ length rs + length pending =
                    length-append next pending
                    ∙ ap (λ n. n + length pending) (length-map (spliced current s e) rs) in
                  let cheaper =
                    replaced-cost b (braces current) (length done + length pending) (length rs)
                      (weight next) k.0 both.0 fits (weight-spliced current s e b k.0 rs both.1) in
                  rw (g, expand)
                    (rw small (
                      expand_ends fuel done (next ++ pending) (omega (arith, fits, sizes))
                        (group_cost current done pending next fuel (length rs) c sizes cheaper)
                        (All-append-both _ next pending (Below-spliced current s e b k.0 rs both.1)
                          k.1)))
            ]
      ]

-- The loop over a pattern's alternatives ends: the expansion is refused or gives alternatives.
pub brace_alternatives_ends :
    (host : Host) (pattern : String) → brace_alternatives host pattern ≢ unfinished
unfolding brace_alternatives expansion_fuel
brace_alternatives_ends host pattern =
    expand_ends host (braces pattern) _ [] (pattern ∷ []) (omega arith) (omega arith)
      (omega arith, tt)
