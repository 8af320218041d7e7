-- ===== src/Eval/Operators/RegexCache.antt =====
-- `regexCache` of internal/eval/operators.go: `matchRegex` with the map of compiled patterns that it
-- keeps between calls, against the same test without a cache.
use pennant.Prelude.{
  String, Option, none, some, Bool, false, ◌≡◌, refl, sym, ap, arith, eq_iff, ◌>>=◌, or_else,
}
use pennant.Prelude.Dict
use pennant.Prelude.Dict.{Dict, get-put}
use pennant.Model.Types.{RawMessage}
use pennant.Eval.Runtime.{Runtime, Value}
use pennant.Eval.Operators.{string?, match_regex}

module _ (rt : Runtime) where
  open rt use {Float, unmarshal_string, Regexp, compile, match_string}

  abbrev pub Cache : Type 0
  Cache = Dict Regexp

  -- `regexp.Compile`, and `regexCache.Store` of what compiled.
  unfoldable pub store_compiled : Cache → String → Option Regexp → Option Regexp × Cache
  store_compiled cache pattern none = (none, cache)
  store_compiled cache pattern (some re) = (some re, Dict.put pattern re cache)

  unfoldable pub from_cache : Cache → String → Option Regexp → Option Regexp × Cache
  from_cache cache pattern (some re) = (some re, cache)
  from_cache cache pattern none = store_compiled cache pattern (compile pattern)

  abbrev run_regex : String → Option Regexp × Cache → Bool × Cache
  run_regex av (found, cache) = (or_else (found >>= λ re. some (match_string re av)) false, cache)

  abbrev with_pattern : Cache → String → Option String → Bool × Cache
  with_pattern cache av none = (false, cache)
  with_pattern cache av (some pattern) =
      run_regex av (from_cache cache pattern (Dict.get pattern cache))

  abbrev with_string : Cache → RawMessage → Option String → Bool × Cache
  with_string cache raw none = (false, cache)
  with_string cache raw (some av) = with_pattern cache av (unmarshal_string raw)

  -- `matchRegex`: the result and the cache that it leaves.
  unfoldable pub match_regex_cached : Cache → Value Float → RawMessage → Bool × Cache
  match_regex_cached cache v raw = with_string cache raw (string? rt v)

  -- Every entry is what its pattern compiles to.
  abbrev pub IsCoherent : Cache → Type 0
  IsCoherent cache =
      (pattern : String) (re : Regexp)
      → Dict.get pattern cache ≡ some re
      → compile pattern ≡ some re

  store_compiled-IsCoherent :
      (cache : Cache) (pattern : String) (o : Option Regexp)
      → compile pattern ≡ o
      → IsCoherent cache
      → IsCoherent (store_compiled cache pattern o).1
  unfolding store_compiled
  store_compiled-IsCoherent cache pattern none e h p re = h p re
  store_compiled-IsCoherent cache pattern (some new) e h p re =
      rw (get-put {V = Regexp} pattern p new cache) (ground (arith, h p re, eq_iff pattern p))

  from_cache_lem :
      (cache : Cache) (pattern : String) (o : Option Regexp)
      → Dict.get pattern cache ≡ o
      → IsCoherent cache
      → ((from_cache cache pattern o).0 ≡ compile pattern)
        × IsCoherent (from_cache cache pattern o).1
  unfolding from_cache
  from_cache_lem cache pattern (some re) e h = (sym (h pattern re e), h)
  from_cache_lem cache pattern none e h =
      (store_compiled_lem (compile pattern), store_compiled-IsCoherent cache pattern _ refl h)
    where
      store_compiled_lem : (o : Option Regexp) → (store_compiled cache pattern o).0 ≡ o
      store_compiled_lem none = unfold store_compiled in refl
      store_compiled_lem (some re) = unfold store_compiled in refl

  run_regex_lem :
      (av : String) (found : Option Regexp × Cache) (o : Option Regexp)
      → (found.0 ≡ o) × IsCoherent found.1
      → ((run_regex av found).0 ≡ or_else (o >>= λ re. some (match_string re av)) false)
        × IsCoherent (run_regex av found).1
  run_regex_lem av found o h =
      (ap (λ r. or_else (r >>= λ re. some (match_string re av)) false) h.0, h.1)

  -- With a cache whose entries are what their patterns compile to, `matchRegex` answers as it would
  -- with no cache, and leaves such a cache.
  pub match_regex_cached_lem :
      (cache : Cache) (v : Value Float) (raw : RawMessage)
      → IsCoherent cache
      → ((match_regex_cached cache v raw).0 ≡ match_regex rt v raw)
        × IsCoherent (match_regex_cached cache v raw).1
  unfolding match_regex_cached match_regex
  match_regex_cached_lem cache v raw h = by_string (string? rt v)
    where
      by_pattern :
          (av : String) (p : Option String)
          → ((with_pattern cache av p).0
              ≡ or_else
                  (p >>= λ pattern. compile pattern >>= λ re. some (match_string re av))
                  false)
            × IsCoherent (with_pattern cache av p).1
      by_pattern av none = (refl, h)
      by_pattern av (some pattern) = run_regex_lem av _ _ (from_cache_lem cache pattern _ refl h)

      by_string :
          (s : Option String)
          → ((with_string cache raw s).0
              ≡ or_else
                  (s >>= λ av. unmarshal_string raw >>= λ pattern.
                    compile pattern >>= λ re. some (match_string re av))
                  false)
            × IsCoherent (with_string cache raw s).1
      by_string none = (refl, h)
      by_string (some av) = by_pattern av (unmarshal_string raw)
