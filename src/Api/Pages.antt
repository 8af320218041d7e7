-- ===== src/Api/Pages.antt =====
-- The pagination of internal/api/server.go.
pub mod Cover
use pennant.Prelude.{
  ℕ, suc, ◌+◌, ◌-◌, String, Option, none, some, List, [], Bool, ◌==◌, ltb, leb, length, take, drop,
  if◌then◌else◌,
}
use pennant.Prelude.Int.{ℤ, pos, negsuc}
use pennant.Api.Types.{Page}

-- `err == nil && n > 0`
abbrev pub positive_or : ℕ → Option ℤ → ℕ
positive_or d (some (pos (suc n))) = suc n
positive_or d n = d

-- `err == nil && n >= 0`
abbrev pub natural_or : ℕ → Option ℤ → ℕ
natural_or d (some (pos n)) = n
natural_or d n = d

-- The query's texts and `strconv.Atoi` give the limit and the offset, neither of which is negative.
unfoldable pub parse_pagination : (String → Option ℤ) → String → String → ℕ × ℕ
parse_pagination atoi limit_text offset_text =
    let limit = if limit_text == "" then 50 else positive_or 50 (atoi limit_text) in
    (
      if ltb 500 limit then 500 else limit,
      if offset_text == "" then 0 else natural_or 0 (atoi offset_text),
    )

-- `offset+limit` does not wrap, since the offset is below the length of a list in memory, and the limit at most 500.
unfoldable pub apply_pagination : {A : Type 0} → List A → ℕ → ℕ → List A × ℕ
apply_pagination items limit offset =
    let total = length items in
    let last = if ltb total (offset + limit) then total else offset + limit in
    if leb total offset then ([], total) else (take (last - offset) (drop offset items), total)

-- The page that a list endpoint answers with.
unfoldable pub paginate : {A : Type 0} → (String → Option ℤ) → String → String → List A → Page A
paginate atoi limit_text offset_text items =
    let (limit, offset) = parse_pagination atoi limit_text offset_text in
    let (page, total) = apply_pagination items limit offset in
    record { items = page; total = total; limit = limit; offset = offset }
