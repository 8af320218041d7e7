-- ===== src/Eval/Bucket.antt =====
-- internal/eval/bucket.go: the bucket of a context, a float made from a hash.
use Prim.Native.String.{◌++◌, slice}
use pennant.Prelude.{String, Option, none, some, ◌&&◌, ◌==◌, ◌>>=◌, or_else, if◌then◌else◌}
use pennant.Prelude.Int.{ℤ, pos}
use pennant.Eval.Runtime.{Runtime, Value, Context, get_attribute}

-- `BucketScale`
abbrev pub bucket_scale : ℤ
bucket_scale = pos 0xfffffffffffffff

-- `if bucketBy == "" { bucketBy = "key" }`
abbrev pub default_key : String → String
default_key by = if by == "" then "key" else by

module _ (rt : Runtime) where
  open rt use {Float, of_int, to_int64, div, trunc, abs, lt, eq, format_int, parse_hex, sha1_hex}

  -- Texts, integers, and floats that are whole and below 1e15.
  unfoldable pub stringify_bucket_value : Value Float → Option String
  stringify_bucket_value (Value.text s) = some s
  stringify_bucket_value (Value.int i) = some (format_int i)
  stringify_bucket_value (Value.float f) =
      if eq f (trunc f) && lt (abs f) (of_int (pos 1000000000000000))
      then some (format_int (to_int64 f))
      else none
  stringify_bucket_value v = none

  unfoldable pub hash_input : String → String → Option ℤ → String → String
  hash_input key salt (some seed) id = format_int seed ++ ("." ++ id)
  hash_input key salt none id = key ++ ("." ++ (salt ++ ("." ++ id)))

  -- The first 15 of the 40 hexadecimal digits, read as a number.
  unfoldable pub bucket_number : String → Option ℤ
  bucket_number input = parse_hex (slice (sha1_hex input) 0 15)

  unfoldable pub compute_bucket : Context Float → String → String → String → Option ℤ → Float
  compute_bucket ctx by key salt seed =
      or_else
        (get_attribute ctx (default_key by)
          >>= stringify_bucket_value
          >>= (λ id. bucket_number (hash_input key salt seed id))
          >>= λ n. some (div (of_int n) (of_int bucket_scale)))
        (of_int (pos 0))
