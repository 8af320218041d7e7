-- ===== src/Api/Pages/Cover.antt =====
-- The page that parsePagination and applyPagination of internal/api/server.go cut out of a list.
use pennant.Prelude.{
  ℕ, zero, suc, ◌+◌, ◌-◌, ◌≤◌, ◌<◌, String, Option, none, some, List, [], ◌∷◌, false, ◌≡◌, refl,
  sym, ap, ◌∙◌, arith, length, take, drop, ltb, leb, Bool-cases, subst, inl, inr,
}
use pennant.Prelude.Int.{ℤ, pos, negsuc}
use pennant.Api.Pages.{parse_pagination, apply_pagination, paginate, positive_or}

module _ {A : Type 0} where
  length-take_le : (n : ℕ) (xs : List A) → length (take n xs) ≤ n
  length-take_le zero xs = omega arith
  length-take_le (suc n) [] = omega arith
  length-take_le (suc n) (x ∷ xs) = omega (arith, length-take_le n xs)

  length-drop : (n : ℕ) (xs : List A) → length (drop n xs) ≡ length xs - n
  length-drop zero xs = omega arith
  length-drop (suc n) [] = omega arith
  length-drop (suc n) (x ∷ xs) = omega (arith, length-drop n xs)

  take_all : (n : ℕ) (xs : List A) → length xs ≤ n → take n xs ≡ xs
  take_all zero [] h = refl
  take_all zero (x ∷ xs) h = absurd (omega arith)
  take_all (suc n) [] h = refl
  take_all (suc n) (x ∷ xs) h = ap (λ ys. x ∷ ys) (take_all n xs (omega arith))

  drop_all : (n : ℕ) (xs : List A) → length xs ≤ n → drop n xs ≡ []
  drop_all zero [] h = refl
  drop_all zero (x ∷ xs) h = absurd (omega arith)
  drop_all (suc n) [] h = refl
  drop_all (suc n) (x ∷ xs) h = drop_all n xs (omega arith)

  take-nil : (n : ℕ) → take {A = A} n [] ≡ []
  take-nil zero = refl
  take-nil (suc n) = refl

  beyond_end :
      (items : List A) (limit offset : ℕ)
      → length items ≤ offset
      → apply_pagination items limit offset ≡ (take limit (drop offset items), length items)
  unfolding apply_pagination
  beyond_end items limit offset h = rw (drop_all offset items h, take-nil limit) (ground arith)

  shorter_page :
      (items : List A) (limit offset : ℕ)
      → offset < length items
      → length items < offset + limit
      → take (length items - offset) (drop offset items) ≡ take limit (drop offset items)
  shorter_page items limit offset h l =
      take_all (length items - offset) (drop offset items) (omega (arith, length-drop offset items))
      ∙ sym (take_all limit (drop offset items) (omega (arith, length-drop offset items)))

  within :
      (items : List A) (limit offset : ℕ)
      → offset < length items
      → apply_pagination items limit offset ≡ (take limit (drop offset items), length items)
  unfolding apply_pagination
  within items limit offset h = elim (Bool-cases (ltb (length items) (offset + limit))) [
    | inl l ↦
        simp (l, not_leb h)
          (ap (λ ys. (ys, length items)) (shorter_page items limit offset h (ground (arith, l))))
    | inr l ↦
        simp (l, not_leb h) (ap (λ n. (take n (drop offset items), length items)) (omega arith))
  ]
    where
      not_leb : offset < length items → leb (length items) offset ≡ false
      not_leb h = ground arith

  -- The page that the code slices is the list without the offset's elements, up to the limit.
  apply_pagination_lem :
      (items : List A) (limit offset : ℕ)
      → apply_pagination items limit offset ≡ (take limit (drop offset items), length items)
  apply_pagination_lem items limit offset = elim (Bool-cases (leb (length items) offset)) [
    | inl h ↦ beyond_end items limit offset (ground (arith, h))
    | inr h ↦ within items limit offset (ground (arith, h))
  ]

positive_or_pos : (d : ℕ) (o : Option ℤ) → 1 ≤ d → 1 ≤ positive_or d o
positive_or_pos d none h = h
positive_or_pos d (some (pos zero)) h = h
positive_or_pos d (some (pos (suc n))) h = omega arith
positive_or_pos d (some (negsuc n)) h = h

parse_pagination-bounds :
    (atoi : String → Option ℤ) (limit_text offset_text : String)
    → (1 ≤ (parse_pagination atoi limit_text offset_text).0)
      × ((parse_pagination atoi limit_text offset_text).0 ≤ 500)
unfolding parse_pagination
parse_pagination-bounds atoi limit_text offset_text =
    let h : 1 ≤ positive_or 50 (atoi limit_text) =
      positive_or_pos 50 (atoi limit_text) (omega arith) in
    ground (arith, h)

-- Whatever the query's texts are, a list response has a limit between 1 and 500, at most that many items, and the
-- length of the whole list, and its items are those from its offset on.
pub paginate-bounds :
    {A : Type 0} (atoi : String → Option ℤ) (limit_text offset_text : String) (items : List A)
    → let page = paginate atoi limit_text offset_text items in
      (1 ≤ page.limit)
      × (page.limit ≤ 500)
      × (length page.items ≤ page.limit)
      × (page.total ≡ length items)
      × (page.items ≡ take page.limit (drop page.offset items))
unfolding paginate
paginate-bounds {A = A} atoi limit_text offset_text items =
    let (limit, offset) = parse_pagination atoi limit_text offset_text in
    let (low, high) = parse_pagination-bounds atoi limit_text offset_text in
    let page = apply_pagination_lem items limit offset in
    (
      low,
      high,
      subst (λ (r : List A × ℕ). length r.0 ≤ limit) (sym page)
          (length-take_le limit (drop offset items)),
      ap (λ (r : List A × ℕ). r.1) page,
      ap (λ (r : List A × ℕ). r.0) page,
    )
