-- ===== src/Protocol/Options/Ranges.antt =====
-- What the options that were parsed satisfy.
use Prim.Native.String.{String}
use mathlib.Core.Path.{subst}
use serve_mlx.Base.{
  ℕ, suc, ◌^◌, ◌≤◌, ◌≡◌, refl, ap, Option, none, some, true, false, List, [], ◌∷◌, length, Error,
  ok, guard, ◌>>◌, >>=_ok, guard_ok, ok-injective, &&_iff, if◌then◌else◌, leb→le, arith, All,
  Option-cases, inl, inr, if_pos, if_neg, ℕ_discrete,
}
use serve_mlx.Base.Int.{ℤ, pos, leb_ℤ, ◌≤ℤ◌}
use serve_mlx.Dict.{put}
use serve_mlx.Json.{Value, Items, Fields, null, int, float, str, arr, obj, nil, cons, end, field}
use serve_mlx.Manifest.{is_in}
use serve_mlx.Manifest.Valid.{leb_ℤ_iff, not_iff}
use serve_mlx.Protocol.Options.{
  Numbers, bad, get, has, max_tokens, value_within, text_length, stop_items, stop_values,
  count_items, parse_stop, parse_seed, efforts, parse_reasoning_effort, finite, number, bias_entry,
  bias_entries, parse_logit_bias,
}

value_within_lem :
    {F : Type 0} (parameter : String) (m : ℤ) (v : Value F) (n : ℤ)
    → value_within parameter m v ≡ ok n
    → (pos 0 ≤ℤ n) × (n ≤ℤ m)
value_within_lem parameter m (int k) n h =
    let (low, rest) = guard_ok _ _ _ n h in
    let (high, same) = guard_ok _ _ _ n rest in
    subst (λ z. (pos 0 ≤ℤ z) × (z ≤ℤ m)) (ok-injective same)
      ((leb_ℤ_iff (pos 0) k).0 low, (leb_ℤ_iff k m).0 high)
value_within_lem parameter m _ n h = absurd (let x = h in cc)

pub max_tokens_bound :
    {F : Type 0} (payload : Fields F) (m n : ℤ)
    → max_tokens payload m ≡ ok n
    → (pos 0 ≤ℤ n) × (n ≤ℤ m)
unfolding max_tokens
max_tokens_bound payload m n h =
    let parameter =
      if has "max_completion_tokens" payload then "max_completion_tokens" else "max_tokens" in
    let v = get parameter (int m) payload in
    value_within_lem parameter m v n
      (guard_ok _ (bad "max_tokens") (value_within parameter m v) n h).1

-- a stop sequence that is not empty and not too long
abbrev pub IsStop : String → Type 0
IsStop s = (1 ≤ text_length s) × (text_length s ≤ 256)

-- the stops of a request
abbrev pub IsStops : List String → Type 0
IsStops stops = (length stops ≤ 4) × All IsStop stops

stop_items_lem :
    {F : Type 0} (items : Items F) (stops : List String)
    → stop_items items ≡ ok stops
    → (length stops ≡ count_items items) × All IsStop stops
unfolding stop_items
stop_items_lem nil stops h = subst (λ l. (length l ≡ 0) × All IsStop l) (ok-injective h) (refl, tt)
stop_items_lem (cons (str s) rest) stops h =
    let (c, more) = guard_ok _ _ _ stops h in
    let (others, (e, same)) = >>=_ok _ _ stops more in
    let (a, b) = (&&_iff _ _).0 c in
    let (size, all) = stop_items_lem rest others e in
    subst (λ l. (length l ≡ suc (count_items rest)) × All IsStop l) {x = s ∷ others}
      (ok-injective same)
      (ap suc size, ((leb→le 1 (text_length s) a, leb→le (text_length s) 256 b), all))
stop_items_lem (cons _ rest) stops h = absurd (let x = h in cc)

stop_values_lem :
    {F : Type 0} (items : Items F) (stops : List String)
    → stop_values items ≡ ok stops
    → IsStops stops
unfolding stop_values
stop_values_lem items stops h =
    let (c, rest) = guard_ok _ _ _ stops h in
    let (size, all) = stop_items_lem items stops rest in
    (omega (arith, leb→le (count_items items) 4 ((&&_iff _ _).0 c).1, size), all)

pub parse_stop-IsStops :
    {F : Type 0} (v : Value F) (stops : List String) → parse_stop v ≡ ok stops → IsStops stops
unfolding parse_stop
parse_stop-IsStops null stops h = subst IsStops (ok-injective h) (omega arith, tt)
parse_stop-IsStops {F = F} (str s) stops h = stop_values_lem {F = F} (cons (str s) nil) stops h
parse_stop-IsStops (arr items) stops h = stop_values_lem items stops h
parse_stop-IsStops _ stops h = absurd (let x = h in cc)

-- no seed, or one of 32 bits
abbrev pub IsSeed : Option ℤ → Type 0
IsSeed none = Unit {0}
IsSeed (some n) = (pos 0 ≤ℤ n) × (leb_ℤ (pos (2 ^ 32)) n ≡ false)

pub parse_seed-IsSeed :
    {F : Type 0} (v : Value F) (seed : Option ℤ) → parse_seed v ≡ ok seed → IsSeed seed
unfolding parse_seed
parse_seed-IsSeed null seed h = subst IsSeed (ok-injective h) tt
parse_seed-IsSeed (int n) seed h =
    let (c, same) = guard_ok _ _ _ seed h in
    let (low, high) = (&&_iff _ _).0 c in
    subst IsSeed {x = some n} (ok-injective same)
      ((leb_ℤ_iff (pos 0) n).0 low, (not_iff (leb_ℤ (pos (2 ^ 32)) n)).0 high)
parse_seed-IsSeed _ seed h = absurd (let x = h in cc)

pub parse_reasoning_effort_lem :
    {F : Type 0} (v : Value F) (effort : String)
    → parse_reasoning_effort v ≡ ok effort
    → is_in effort efforts ≡ true
unfolding parse_reasoning_effort
parse_reasoning_effort_lem (str s) effort h =
    let (c, same) = guard_ok (is_in s efforts) (bad "reasoning_effort") (ok s) effort h in
    subst (λ e. is_in e efforts ≡ true) (ok-injective same) c
parse_reasoning_effort_lem _ effort h = absurd (let x = h in cc)

module _ {F : Type 0} (numbers : Numbers F) where
  -- a finite number within the bounds
  abbrev pub IsNumber : F → F → F → Type 0
  IsNumber minimum maximum x =
      (numbers.is_finite x ≡ true) × ((numbers.le minimum x ≡ true) × (numbers.le x maximum ≡ true))

  checked_lem :
      (e : Error) (x y : F)
      → guard (numbers.is_finite x) e >> ok x ≡ ok y
      → numbers.is_finite y ≡ true
  checked_lem e x y h =
      let (c, same) = guard_ok _ _ _ y h in
      subst (λ z. numbers.is_finite z ≡ true) (ok-injective same) c

  finite_lem :
      (name : String) (v : Value F) (x : F)
      → finite numbers name v ≡ ok x
      → numbers.is_finite x ≡ true
  finite_lem name (int n) x h = elim (Option-cases (numbers.of_int n)) [
    | inl e ↦ absurd (let y = (rw (finite, e) at h) in cc)
    | inr (y, e) ↦ checked_lem (bad name) y x (rw (finite, e) at h)
  ]
  finite_lem name (float y) x h = checked_lem (bad name) y x h
  finite_lem name _ x h = absurd (let y = h in cc)

  pub number-IsNumber :
      (payload : Fields F) (name : String) (default minimum maximum x : F)
      → number numbers payload name default minimum maximum ≡ ok x
      → IsNumber minimum maximum x
  unfolding number
  number-IsNumber payload name default minimum maximum x h =
      let (y, (e, rest)) = >>=_ok _ _ x h in
      let (c, same) = guard_ok _ _ _ x rest in
      subst (IsNumber minimum maximum) (ok-injective same) (finite_lem name _ y e, (&&_iff _ _).0 c)

  -- the entries of a bias
  abbrev pub IsBias : F → F → List (ℕ × F) → Type 0
  IsBias minimum maximum entries = All (λ e. IsNumber minimum maximum e.1) entries

  bias_entry_lem :
      (minimum maximum : F) (token_id : String) (bias : Value F) (entry : ℕ × F)
      → bias_entry numbers minimum maximum token_id bias ≡ ok entry
      → IsNumber minimum maximum entry.1
  unfolding bias_entry
  bias_entry_lem minimum maximum token_id bias entry h =
      elim (Option-cases (numbers.int_of token_id)) [
        | inl e ↦ absurd (let y = (rw (bias_entry, e) at h) in cc)
        | inr (id, e) ↦
            let (_, rest) = guard_ok _ _ _ entry (rw (bias_entry, e) at h) in
            let (x, (found, more)) = >>=_ok _ _ entry rest in
            let (c, same) = guard_ok _ _ _ entry more in
            subst (λ z. IsNumber minimum maximum z.1) (ok-injective same)
              (finite_lem "logit_bias" bias x found, (&&_iff _ _).0 c)
      ]

  put-IsBias :
      (minimum maximum : F) (k : ℕ) (x : F) (entries : List (ℕ × F))
      → IsNumber minimum maximum x
      → IsBias minimum maximum entries
      → IsBias minimum maximum (put ℕ_discrete k x entries)
  unfolding put
  put-IsBias minimum maximum k x [] h all = (h, tt)
  put-IsBias minimum maximum k x ((j, y) ∷ entries) h all =
      let rest = put-IsBias minimum maximum k x entries h all.1 in
      elim (ℕ_discrete j k) [
        | yes e ↦ rw (if_pos (ℕ_discrete j k) e) (h, all.1)
        | no e ↦ rw (if_neg (ℕ_discrete j k) e) (all.0, rest)
      ]

  bias_entries-IsBias :
      (minimum maximum : F) (fields : Fields F) (entries r : List (ℕ × F))
      → IsBias minimum maximum entries
      → bias_entries numbers minimum maximum fields entries ≡ ok r
      → IsBias minimum maximum r
  unfolding bias_entries
  bias_entries-IsBias minimum maximum end entries r all h =
      subst (IsBias minimum maximum) (ok-injective h) all
  bias_entries-IsBias minimum maximum (field token_id bias rest) entries r all h =
      let (entry, (e, more)) = >>=_ok _ _ r h in
      bias_entries-IsBias minimum maximum rest _ r
        (put-IsBias minimum maximum entry.0 entry.1 entries
          (bias_entry_lem minimum maximum token_id bias entry e) all)
        more

  abbrev pub IsBiasOption : F → F → Option (List (ℕ × F)) → Type 0
  IsBiasOption minimum maximum none = Unit {0}
  IsBiasOption minimum maximum (some entries) = IsBias minimum maximum entries

  pub parse_logit_bias-IsBias :
      (minimum maximum : F) (v : Value F) (r : Option (List (ℕ × F)))
      → parse_logit_bias numbers minimum maximum v ≡ ok r
      → IsBiasOption minimum maximum r
  unfolding parse_logit_bias
  parse_logit_bias-IsBias minimum maximum null r h =
      subst (IsBiasOption minimum maximum) (ok-injective h) tt
  parse_logit_bias-IsBias minimum maximum (obj fields) r h =
      let (entries, (e, same)) = >>=_ok _ _ r h in
      subst (IsBiasOption minimum maximum) (ok-injective same)
        (bias_entries-IsBias minimum maximum fields [] entries tt e)
  parse_logit_bias-IsBias minimum maximum _ r h = absurd (let x = h in cc)
