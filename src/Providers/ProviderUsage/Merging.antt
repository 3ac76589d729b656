-- ===== src/Providers/ProviderUsage/Merging.antt =====
-- The order of the fragments of a stream does not matter.
use mathlib.Core.List.{Permᴰ}
use tokenpanel.Prelude.{
  ℕ, ◌≡◌, refl, ap, ◌∙◌, max, Bool, ◌||◌, Option, none, some, List, [], ◌∷◌, arith,
}
use tokenpanel.Billing.Charges.{or_zero}
use tokenpanel.Providers.ProviderUsage.Stream.{
  Fragment, Accum, is_given, positive, accum, merge_present, merge_anthropic_stream_usage, nothing,
}

-- The loop over the fragments of a stream: `lastUsage = mergeAnthropicStreamUsage(lastUsage, frag)`.
unfoldable pub merge_all : Option Accum → List Fragment → Option Accum
unfolding merge_anthropic_stream_usage
merge_all prev [] = prev
merge_all prev (f ∷ fs) = merge_all (some (merge_anthropic_stream_usage prev f)) fs

or_zero-positive : (n : ℕ) → or_zero (positive n) ≡ n
or_zero-positive n = ground arith

max_swap : (a b c : ℕ) → max (max a b) c ≡ max (max a c) b
max_swap a b c = omega arith

or_swap : (a b c : Bool) → (a || b || c) ≡ (a || c || b)
or_swap a b c = ground arith

-- A merge after a merge, from the maxima.
merged_twice :
    (u : Accum) (f g : Fragment)
    → merge_present (merge_present u f) g
      ≡ accum
          (max (max u.prompt_tokens (or_zero f.prompt_tokens)) (or_zero g.prompt_tokens))
          (max
            (max u.completion_tokens (or_zero f.completion_tokens))
            (or_zero g.completion_tokens))
          (max
            (max (or_zero u.reasoning_tokens) (or_zero f.reasoning_tokens))
            (or_zero g.reasoning_tokens))
          (max
            (max (or_zero u.cache_read_tokens) (or_zero f.cache_read_tokens))
            (or_zero g.cache_read_tokens))
          (max
            (max (or_zero u.cache_write_tokens) (or_zero f.cache_write_tokens))
            (or_zero g.cache_write_tokens))
          (u.has_input || is_given f.prompt_tokens || is_given g.prompt_tokens)
          (u.has_output || is_given f.completion_tokens || is_given g.completion_tokens)
unfolding merge_present
merged_twice u f g =
    rw
      (
        or_zero-positive (max (or_zero u.reasoning_tokens) (or_zero f.reasoning_tokens)),
        or_zero-positive (max (or_zero u.cache_read_tokens) (or_zero f.cache_read_tokens)),
        or_zero-positive (max (or_zero u.cache_write_tokens) (or_zero f.cache_write_tokens)),
      )
      refl

swapped :
    (u : Accum) (f g : Fragment)
    → merge_present (merge_present u f) g ≡ merge_present (merge_present u g) f
swapped u f g =
    rw
      (
        merged_twice u f g,
        merged_twice u g f,
        max_swap u.prompt_tokens (or_zero f.prompt_tokens) (or_zero g.prompt_tokens),
        max_swap u.completion_tokens (or_zero f.completion_tokens) (or_zero g.completion_tokens),
        max_swap (or_zero u.reasoning_tokens) (or_zero f.reasoning_tokens)
            (or_zero g.reasoning_tokens),
        max_swap (or_zero u.cache_read_tokens) (or_zero f.cache_read_tokens)
            (or_zero g.cache_read_tokens),
        max_swap (or_zero u.cache_write_tokens) (or_zero f.cache_write_tokens)
            (or_zero g.cache_write_tokens),
        or_swap u.has_input (is_given f.prompt_tokens) (is_given g.prompt_tokens),
        or_swap u.has_output (is_given f.completion_tokens) (is_given g.completion_tokens),
      )
      refl

merge_swap :
    (o : Option Accum) (f g : Fragment)
    → merge_anthropic_stream_usage (some (merge_anthropic_stream_usage o f)) g
      ≡ merge_anthropic_stream_usage (some (merge_anthropic_stream_usage o g)) f
unfolding merge_anthropic_stream_usage
merge_swap none f g = swapped nothing f g
merge_swap (some u) f g = swapped u f g

-- However the fragments of a stream are ordered, merging them all gives the same usage, total and
-- flags.
pub merge_any_order :
    (o : Option Accum) (fs gs : List Fragment) → Permᴰ fs gs → merge_all o fs ≡ merge_all o gs
unfolding merge_all
merge_any_order o fs gs Permᴰ.nil = refl
merge_any_order o (f ∷ fs) (g ∷ gs) (Permᴰ.cons e d) =
    rw e (merge_any_order (some (merge_anthropic_stream_usage o g)) fs gs d)
merge_any_order o (f ∷ g ∷ fs) (g' ∷ f' ∷ gs) (Permᴰ.swap e e') =
    rw (e, e') (ap (λ u. merge_all (some u) fs) (merge_swap o f' g'))
merge_any_order o fs gs (Permᴰ.trans {l₂ = hs} d d') =
    merge_any_order o fs hs d ∙ merge_any_order o hs gs d'
