-- ===== src/Catalog/Pagination/Walk.antt =====
-- A client that follows the cursors of catalog/pagination.go from the first page to the last.
use mmmcp.Base.{
  ℕ, zero, suc, ◌+◌, ◌-◌, ◌≤◌, ◌<◌, ◌≡◌, ◌≢◌, refl, sym, ap, ◌∙◌, inl, inr, Bool-cases, ℤ, false,
  if◌then◌else◌, ltb, is_empty, Option, none, some, List, [], ◌++◌, length, get_elem?, take, drop,
  take-append-drop, length-drop, map, Text, text_eq_iff, ok, err, arith, All,
}
use mmmcp.Catalog.Pagination.{
  Family, Cursor, position_after, page_start, next_cursor, page_end, page, page_of,
}
use mmmcp.Catalog.Sorting.{Ascending}
use mmmcp.Catalog.Pagination.Positions.{
  get_elem?-eq-some, All-get_elem?, search_strings-get_elem?, same_family_refl, take_all, drop_cong,
  drop-drop, length-map,
}

module _ (encode : Cursor → Text) (decode : Text → Option Cursor)
    (decode-encode : (c : Cursor) → decode (encode c) ≡ some c)
    (encode_nonempty : (c : Cursor) → is_empty (encode c) ≡ false) where
  page_start-encode :
      (id : Text) (family : Family) (ts : List Text) (i : ℕ) (t : Text)
      → Ascending ts
      → All (λ u. u ≢ []) ts
      → get_elem? ts i ≡ some t
      → page_start encode decode id family ts
          (encode (record { catalog = id; family = family; after = t }))
        ≡ ok (i + 1)
  unfolding page_start position_after
  page_start-encode id family ts i t a n e =
      rw
        (
          encode_nonempty (record { catalog = id; family = family; after = t }),
          decode-encode (record { catalog = id; family = family; after = t }),
          page_start,
        )
        (ground (
          arith,
          text_eq_iff id id,
          text_eq_iff t t,
          same_family_refl family,
          All-get_elem? (λ u. u ≢ []) i ts n e,
          search_strings-get_elem? i ts t a e,
        ))

  module _ {A : Type 0} (identity : A → Text) (id : Text) (family : Family) (features : List A)
      (page_size : ℤ) where
    -- What a client gets that asks for the next page until there is none, on so many requests.
    unfoldable pub walk : ℕ → Text → Option (List A)
    walk zero requested = none
    walk (suc n) requested =
        elim (page_of encode decode identity id family features requested page_size) [
          | err e ↦ none
          | ok p ↦
              let more = elim (walk n p.1) as (λ o. Option (List A)) [
                | none ↦ none
                | some rest ↦ some (p.0 ++ rest)
              ] in
              if is_empty p.1 then some p.0 else more
        ]

    page_of-from :
        (requested next : Text) (start end : ℕ)
        → page_start encode decode id family (map identity features) requested ≡ ok start
        → page_end encode decode (map identity features) start page_size ≡ end
        → next_cursor encode decode id family (map identity features) end ≡ ok next
        → page_of encode decode identity id family features requested page_size
          ≡ ok (take (end - start) (drop start features), next)
    unfolding page_of page
    page_of-from requested next start end s e n = rw (s, page_of, page, e, n)

    last_page :
        (n start : ℕ) (requested : Text)
        → page_start encode decode id family (map identity features) requested ≡ ok start
        → length features ≤ page_end encode decode (map identity features) start page_size
        → walk (suc n) requested ≡ some (drop start features)
    unfolding walk next_cursor page_end
    last_page n start requested s h =
        let ts = map identity features in
        let e : page_end encode decode ts start page_size ≡ length ts =
          ground (arith, length-map identity features) in
        let c : next_cursor encode decode id family ts (length ts) ≡ ok [] = ground arith in
        rw (page_of-from requested [] start (length ts) s e c, walk, length-map identity features)
          (ap some (
            take_all (length features - start) (drop start features)
              (omega (arith, length-drop start features))))

    middle_page :
        (n start end : ℕ) (requested next : Text)
        → page_start encode decode id family (map identity features) requested ≡ ok start
        → page_end encode decode (map identity features) start page_size ≡ end
        → next_cursor encode decode id family (map identity features) end ≡ ok next
        → is_empty next ≡ false
        → start ≤ end
        → walk n next ≡ some (drop end features)
        → walk (suc n) requested ≡ some (drop start features)
    unfolding walk
    middle_page n start end requested next s e c k le w =
        rw (page_of-from requested next start end s e c, walk, k, w)
          (ap (λ r. some (take (end - start) (drop start features) ++ r))
              (sym (
                drop-drop (end - start) start features
                ∙ drop_cong (start + (end - start)) end features (omega arith)))
            ∙ ap some (take-append-drop (end - start) (drop start features)))

    abbrev ends : ℕ → ℕ
    ends start = page_end encode decode (map identity features) start page_size

    ends-after : (start : ℕ) → ends start < length features → start < ends start
    unfolding page_end
    ends-after start h = ground (arith, length-map identity features)

    next_cursor-at :
        (end : ℕ) (t : Text)
        → end < length features
        → get_elem? (map identity features) (end - 1) ≡ some t
        → next_cursor encode decode id family (map identity features) end
          ≡ ok (encode (record { catalog = id; family = family; after = t }))
    unfolding next_cursor
    next_cursor-at end t h e = ground (arith, length-map identity features)

    middle_at :
        (n start : ℕ) (requested t : Text)
        → page_start encode decode id family (map identity features) requested ≡ ok start
        → ends start < length features
        → get_elem? (map identity features) (ends start - 1) ≡ some t
        → walk n (encode (record { catalog = id; family = family; after = t }))
          ≡ some (drop (ends start) features)
        → walk (suc n) requested ≡ some (drop start features)
    middle_at n start requested t s h e w =
        let c : Cursor = record { catalog = id; family = family; after = t } in
        middle_page n start (ends start) requested (encode c) s refl
          (next_cursor-at (ends start) t h e) (encode_nonempty c)
          (omega (arith, ends-after start h)) w

    start_at :
        (end : ℕ) (t : Text)
        → Ascending (map identity features)
        → All (λ u. u ≢ []) (map identity features)
        → 0 < end
        → get_elem? (map identity features) (end - 1) ≡ some t
        → page_start encode decode id family
            (map identity features)
            (encode (record { catalog = id; family = family; after = t }))
          ≡ ok end
    start_at end t a ne h e =
        page_start-encode id family (map identity features) (end - 1) t a ne e ∙ ap ok (omega arith)

    walk_from :
        (n start : ℕ) (requested : Text)
        → Ascending (map identity features)
        → All (λ t. t ≢ []) (map identity features)
        → page_start encode decode id family (map identity features) requested ≡ ok start
        → start ≤ length features
        → length features < start + n
        → walk n requested ≡ some (drop start features)
    walk_from zero start requested a ne s le h = absurd (omega arith)
    walk_from (suc n) start requested a ne s le h =
        elim (Bool-cases (ltb (ends start) (length features))) [
          | inr q ↦ last_page n start requested s (ground arith)
          | inl q ↦
              let below : ends start < length features = ground arith in
              let after : start < ends start = ends-after start below in
              let found =
                get_elem?-eq-some (ends start - 1) (map identity features)
                  (omega (arith, below, after, length-map identity features)) in
              middle_at n start requested found.0 s below found.1 (
                walk_from n (ends start) _ a ne
                  (start_at (ends start) found.0 a ne (omega (arith, after)) found.1)
                  (omega (arith, below)) (omega (arith, after, h)))
        ]

    first_page : page_start encode decode id family (map identity features) [] ≡ ok 0
    unfolding page_start
    first_page = refl

    -- From the first page on, whatever the page size, the cursors lead through every feature
    -- exactly once and in order, in at most one request more than there are features, where the
    -- identities ascend and are not empty, and cursors decode to what they encode and are not
    -- empty.
    pub walk_visits_every :
        Ascending (map identity features)
        → All (λ t. t ≢ []) (map identity features)
        → walk (length features + 1) [] ≡ some features
    walk_visits_every a ne =
        walk_from (length features + 1) 0 [] a ne first_page (omega arith) (omega arith)
