-- ===== src/Activity/Paging.antt =====
-- Pages of activity events: following a cursor goes on exactly where the page ended.
use ai_channel.Prelude.{
  ℕ, zero, suc, ◌+◌, ◌≡◌, refl, sym, ◌∙◌, true, false, some, List, [], ◌∷◌, ◌++◌, arith, ltb, ◌≤◌,
  none, length, take, drop, drop_until, last, All, All-take, Bool-cases, inl, inr,
}
use ai_channel.Prelude.Order.{Ordering}
use ai_channel.Prelude.Text.{Text, compare_text-flip}
use ai_channel.Prelude.Result.{ok}
use ai_channel.Activity.{
  StoredActivityEvent, ActivityCursor, ActivityPage, cursor_at, activity_event_is_after_cursor,
  compare_activity_events_oldest_first, tail_from, CursorCodec, page_of,
}

-- each event comes strictly before every later one
abbrev pub Ascending : List StoredActivityEvent → Type 0
Ascending [] = Unit
Ascending (x ∷ xs) =
    All (λ y. compare_activity_events_oldest_first x y ≡ Ordering.lt) xs × Ascending xs

after_of_lt :
    (l e : StoredActivityEvent)
    → compare_activity_events_oldest_first l e ≡ Ordering.lt
    → activity_event_is_after_cursor (cursor_at l) e ≡ true
unfolding compare_activity_events_oldest_first activity_event_is_after_cursor
after_of_lt l e h = ground (arith, h, compare_text-flip l.event.event_id e.event.event_id)

not_after_of_lt :
    (e l : StoredActivityEvent)
    → compare_activity_events_oldest_first e l ≡ Ordering.lt
    → activity_event_is_after_cursor (cursor_at l) e ≡ false
unfolding compare_activity_events_oldest_first activity_event_is_after_cursor
not_after_of_lt e l h = ground (arith, h)

not_after_itself :
    (l : StoredActivityEvent) → activity_event_is_after_cursor (cursor_at l) l ≡ false
unfolding activity_event_is_after_cursor
not_after_itself l = ground (arith, compare_text-flip l.event.event_id l.event.event_id)

some_inj : {A : Type 0} {a b : A} → some a ≡ some b → a ≡ b
some_inj p = cc

All-last : {A : Type 0} (P : A → Type 0) (xs : List A) {l : A} → All P xs → last xs ≡ some l → P l
All-last P [] h e = cc
All-last P (x ∷ []) h e = rw (← some_inj e) h.0
All-last P (x ∷ y ∷ xs) h e = All-last P (y ∷ xs) h.1 e

rest_after :
    (l : StoredActivityEvent) (xs : List StoredActivityEvent)
    → All (λ y. compare_activity_events_oldest_first l y ≡ Ordering.lt) xs
    → drop_until (activity_event_is_after_cursor (cursor_at l)) xs ≡ xs
rest_after l [] h = refl
rest_after l (y ∷ ys) h = rw (after_of_lt l y h.0) refl

skipped :
    (l x : StoredActivityEvent) (xs : List StoredActivityEvent)
    → activity_event_is_after_cursor (cursor_at l) x ≡ false
    → drop_until (activity_event_is_after_cursor (cursor_at l)) (x ∷ xs)
      ≡ drop_until (activity_event_is_after_cursor (cursor_at l)) xs
skipped l x xs e = rw e refl

after_page :
    (limit : ℕ) (xs : List StoredActivityEvent) (l : StoredActivityEvent)
    → Ascending xs
    → last (take limit xs) ≡ some l
    → drop_until (activity_event_is_after_cursor (cursor_at l)) xs ≡ drop limit xs
after_page zero xs l h e = cc
after_page (suc n) [] l h e = cc
after_page (suc zero) (x ∷ xs) l h e =
    let same : x ≡ l = some_inj e in
    skipped l x xs (rw same (not_after_itself l)) ∙ rest_after l xs (rw (← same) h.0)
after_page (suc (suc n)) (x ∷ []) l h e =
    let same : x ≡ l = some_inj e in skipped l x [] (rw same (not_after_itself l))
after_page (suc (suc n)) (x ∷ y ∷ xs) l h e =
    skipped l x (y ∷ xs) (
      not_after_of_lt x l (
        All-last (λ z. compare_activity_events_oldest_first x z ≡ Ordering.lt)
          (take (suc n) (y ∷ xs))
          (All-take (λ z. compare_activity_events_oldest_first x z ≡ Ordering.lt) (suc n) (y ∷ xs)
            h.0)
          e))
    ∙ after_page (suc n) (y ∷ xs) l h.1 e

take_append_drop : (n : ℕ) (xs : List StoredActivityEvent) → take n xs ++ drop n xs ≡ xs
take_append_drop zero xs = refl
take_append_drop (suc n) [] = refl
take_append_drop (suc n) (x ∷ xs) = ground (arith, take_append_drop n xs)

take-take : (n : ℕ) (xs : List StoredActivityEvent) → take n (take (suc n) xs) ≡ take n xs
take-take zero xs = refl
take-take (suc n) [] = refl
take-take (suc n) (x ∷ xs) = ground (arith, take-take n xs)

take_short :
    (n : ℕ) (xs : List StoredActivityEvent)
    → ltb n (length (take (suc n) xs)) ≡ false
    → (take (suc n) xs ≡ take n xs) × (take (suc n) xs ≡ xs)
take_short zero [] h = (refl, refl)
take_short zero (x ∷ xs) h = absurd (ground (arith, h))
take_short (suc n) [] h = (refl, refl)
take_short (suc n) (x ∷ xs) h =
    let rest = take_short n xs (ground (arith, h)) in
    (ground (arith, rest.0), ground (arith, rest.1))

page_events :
    (cursors : CursorCodec) (limit : ℕ) (xs : List StoredActivityEvent)
    → ((page_of cursors limit xs).events ≡ take limit xs)
      × ((page_of cursors limit xs).has_more ≡ false → take limit xs ≡ xs)
unfolding page_of
page_events cursors limit xs =
    let fetched = take (suc limit) xs in
    let plus : limit + 1 ≡ suc limit = omega arith in
    elim (Bool-cases (ltb limit (length fetched))) [
      | inl e ↦ rw (plus, e) (take-take limit xs, λ more. cc more)
      | inr e ↦
          let short = take_short limit xs e in rw (plus, e) (short.0, λ more. sym short.0 ∙ short.1)
    ]

-- what a page says of whether there are more
has_more_eq :
    (cursors : CursorCodec) (limit : ℕ) (xs : List StoredActivityEvent)
    → (page_of cursors limit xs).has_more ≡ ltb limit (length (take (suc limit) xs))
unfolding page_of
has_more_eq cursors limit xs = let plus : limit + 1 ≡ suc limit = omega arith in rw plus refl

last_of :
    (x : StoredActivityEvent) (xs : List StoredActivityEvent)
    → (l : StoredActivityEvent) × (last (x ∷ xs) ≡ some l)
last_of x [] = (x, refl)
last_of x (y ∷ xs) = last_of y xs

-- a page before others is not empty
page_last :
    (limit : ℕ) (xs : List StoredActivityEvent)
    → 1 ≤ limit
    → ltb limit (length (take (suc limit) xs)) ≡ true
    → (l : StoredActivityEvent) × (last (take limit xs) ≡ some l)
page_last zero xs positive more = absurd (omega (arith, positive))
page_last (suc n) [] positive more = absurd (ground (arith, more))
page_last (suc n) (x ∷ xs) positive more = last_of x (take n xs)

next_cursor_eq :
    (cursors : CursorCodec) (limit : ℕ) (xs : List StoredActivityEvent) (l : StoredActivityEvent)
    (token : Text)
    → ltb limit (length (take (suc limit) xs)) ≡ true
    → last (take limit xs) ≡ some l
    → cursors.encode (cursor_at l) ≡ ok token
    → (page_of cursors limit xs).next_cursor ≡ some token
unfolding page_of
next_cursor_eq cursors limit xs l token more e encoded =
    let plus : limit + 1 ≡ suc limit = omega arith in
    rw (plus, more, take-take limit xs, e, encoded) refl

no_cursor :
    (cursors : CursorCodec) (limit : ℕ) (xs : List StoredActivityEvent)
    → (page_of cursors limit xs).has_more ≡ false
    → (page_of cursors limit xs).next_cursor ≡ none
unfolding page_of
no_cursor cursors limit xs ends = rw ends refl

-- every cursor is encoded, and decoded to itself
abbrev pub DecodesBack : CursorCodec → Type 0
DecodesBack cursors =
    (cursor : ActivityCursor)
    → (token : Text) × (cursors.encode cursor ≡ ok token) × (cursors.decode token ≡ ok cursor)

-- what a client needs of a page, to go on where it ends
pub record IsPage (cursors : CursorCodec) (limit : ℕ) (xs : List StoredActivityEvent)
    (page : ActivityPage) : Type 0 where
  pub first : page.events ≡ take limit xs
  pub is_last : page.has_more ≡ false → (page.events ≡ xs) × (page.next_cursor ≡ none)
  pub goes_on :
      page.has_more ≡ true
      → (token : Text) × (cursor : ActivityCursor) × (page.next_cursor ≡ some token)
        × (cursors.decode token ≡ ok cursor)
        × (page.events ++ tail_from (some cursor) xs ≡ xs)

-- Where the events of a bucket are in strictly ascending order and the limit is at least one, a page
-- has the first events up to the limit. A page that says that there are more has a next cursor, and
-- the page together with the events from the position on that this cursor decodes to are all the
-- events, in order and none twice. A page that says that there are no more has all the events and no
-- next cursor. Every cursor is taken to be encoded, and decoded to itself.
pub page_of-IsPage :
    (cursors : CursorCodec) (limit : ℕ) (xs : List StoredActivityEvent)
    → DecodesBack cursors
    → 1 ≤ limit
    → Ascending xs
    → IsPage cursors limit xs (page_of cursors limit xs)
unfolding tail_from
page_of-IsPage cursors limit xs decodes positive ascending =
    let page = page_events cursors limit xs in
    record {
      first = page.0;
      is_last = λ ends. (page.0 ∙ page.1 ends, no_cursor cursors limit xs ends);
      goes_on = λ goes.
          let more : ltb limit (length (take (suc limit) xs)) ≡ true =
            sym (has_more_eq cursors limit xs) ∙ goes in
          let (l, e) = page_last limit xs positive more in
          let (token, encoded, decoded) = decodes (cursor_at l) in
          (
            token,
            cursor_at l,
            next_cursor_eq cursors limit xs l token more e encoded,
            decoded,
            rw (page.0, after_page limit xs l ascending e) (take_append_drop limit xs),
          );
    }
