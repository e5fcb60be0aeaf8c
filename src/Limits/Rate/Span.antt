-- ===== src/Limits/Rate/Span.antt =====
-- The requests of one client and class that pass in a span as long as the window.
use Prim.Native.Nat.{min}
use ai_channel.Prelude.{
  ℕ, ◌+◌, ◌*◌, ◌-◌, ◌≤◌, ◌<◌, ◌≡◌, ◌∙◌, ap, true, false, none, some, List, [], ◌∷◌, arith,
  Bool-cases, inl, inr, All, leb, leb→le, not_leb→lt, All-map_imp, Option, Option-cases,
}
use ai_channel.Time.{rate_limit_window, second}
use ai_channel.Limits.Rate.{
  RateLimitConfig, RateLimitKey, RateLimitBucket, Buckets, class_limit, key_eq, lookup, or_insert,
  renew, retry_after, charge,
}
use ai_channel.Limits.Rate.Window.{
  Arrival, limit_of, after, passes, admitted, arriving, Within, opened, bound, passed, charged,
  lookup_other, lookup_same, passes_same, charge_full, charge_room, passed_full, passed_room,
  passes_full, passes_room, lookup_full, lookup_room, count_inside,
}

not_over : (now s : ℕ) → leb rate_limit_window (now - s) ≡ false → now < s + rate_limit_window
not_over now s h = omega (arith, not_leb→lt rate_limit_window (now - s) h)

module _ (config : RateLimitConfig) (key : RateLimitKey) where
  -- a request that opens a window, and the rest of that window
  module _ (a : Arrival) (arrivals : List Arrival) (m : Buckets)
      (p : passes config a m ≡ passed config key a.instant (opened a.instant 0))
      (l : lookup key (after config a m) ≡ some (charged config key a.instant (opened a.instant 0)))
      (h : All (λ b. b.instant < a.instant + rate_limit_window) arrivals) where
    fresh_count :
        passes config a m + admitted config key arrivals (after config a m)
        ≡ min (arriving key arrivals + 1) (bound config key)
    fresh_count = elim (Bool-cases (leb (bound config key) 0)) [
      | inl b ↦
          let full = leb→le (bound config key) 0 b in
          let inside : a.instant < a.instant + rate_limit_window = omega arith in
          omega (
            arith,
            full,
            p,
            passed_full config key a.instant a.instant 0 inside full,
            count_inside config key arrivals a.instant 0 (after config a m) h
                (l ∙ ap (λ r. some r.1) (charge_full config key a.instant a.instant 0 inside full)),
          )
      | inr b ↦
          let room = not_leb→lt (bound config key) 0 b in
          let inside : a.instant < a.instant + rate_limit_window = omega arith in
          omega (
            arith,
            room,
            p,
            passed_room config key a.instant a.instant 0 inside room,
            count_inside config key arrivals a.instant 1 (after config a m) h
                (l ∙ ap (λ r. some r.1) (charge_room config key a.instant a.instant 0 inside room)),
          )
    ]

  later :
      (lo : ℕ) (a : Arrival) (arrivals : List Arrival)
      → lo ≤ a.instant
      → Within lo arrivals
      → All (λ b. b.instant < a.instant + rate_limit_window) arrivals
  later lo a arrivals h w =
      All-map_imp (λ b. (lo ≤ b.instant) × (b.instant < lo + rate_limit_window))
        (λ b. b.instant < a.instant + rate_limit_window) (λ b k. omega (arith, k.1)) arrivals w

  fresh_of_none :
      (a : Arrival) (arrivals : List Arrival) (m : Buckets) (lo : ℕ)
      → Within lo (a ∷ arrivals)
      → key_eq a.key key ≡ true
      → lookup key m ≡ none
      → passes config a m + admitted config key arrivals (after config a m)
        ≡ min (arriving key arrivals + 1) (bound config key)
  fresh_of_none a arrivals m lo w e l =
      fresh_count a arrivals m
        (passes_same config key a m e
          ∙ ap (λ o. passed config key a.instant (or_insert a.instant o)) l)
        (lookup_same config key a m e
          ∙ ap (λ o. some (charged config key a.instant (or_insert a.instant o))) l)
        (later lo a arrivals w.0.0 w.1)

  -- the window of the bucket is over: the request opens a new one
  charge_expired :
      (now : ℕ) (b : RateLimitBucket)
      → leb rate_limit_window (now - b.window_start) ≡ true
      → charge now (bound config key) b ≡ charge now (bound config key) (opened now 0)
  unfolding charge renew
  charge_expired now b h = ground arith

  fresh_of_expired :
      (a : Arrival) (arrivals : List Arrival) (m : Buckets) (lo : ℕ) (b : RateLimitBucket)
      → Within lo (a ∷ arrivals)
      → key_eq a.key key ≡ true
      → lookup key m ≡ some b
      → leb rate_limit_window (a.instant - b.window_start) ≡ true
      → passes config a m + admitted config key arrivals (after config a m)
        ≡ min (arriving key arrivals + 1) (bound config key)
  fresh_of_expired a arrivals m lo b w e l x =
      fresh_count a arrivals m
        (passes_same config key a m e
          ∙ ap (λ o. passed config key a.instant (or_insert a.instant o)) l
          ∙ ap (λ (r : Option ℕ × RateLimitBucket). elim r.0 [ none ↦ 1 | some delay ↦ 0 ])
              (charge_expired a.instant b x))
        (lookup_same config key a m e
          ∙ ap (λ o. some (charged config key a.instant (or_insert a.instant o))) l
          ∙ ap (λ r. some r.1) (charge_expired a.instant b x))
        (later lo a arrivals w.0.0 w.1)

  abbrev room_of : Option RateLimitBucket → ℕ
  room_of none = 0
  room_of (some b) = bound config key - b.count

  Spans : List Arrival → Type 0
  Spans arrivals =
      (m : Buckets) → admitted config key arrivals m ≤ room_of (lookup key m) + bound config key

  Spans-some :
      (a : Arrival) (arrivals : List Arrival) (m : Buckets) (lo : ℕ) (b : RateLimitBucket)
      → Within lo (a ∷ arrivals)
      → key_eq a.key key ≡ true
      → lookup key m ≡ some b
      → Spans arrivals
      → passes config a m + admitted config key arrivals (after config a m)
        ≤ (bound config key - b.count) + bound config key
  unfolding Spans
  Spans-some a arrivals m lo b w e l ih =
      elim (Bool-cases (leb rate_limit_window (a.instant - b.window_start))) [
        | inl x ↦ omega (arith, fresh_of_expired a arrivals m lo b w e l x)
        | inr x ↦
            let inside : a.instant < b.window_start + rate_limit_window = not_over _ _ x in
            elim (Bool-cases (leb (bound config key) b.count)) [
              | inl f ↦
                  let full = leb→le (bound config key) b.count f in
                  omega (
                    arith,
                    full,
                    passes_full config key a b.window_start b.count m e inside l full,
                    rw (lookup_full config key a b.window_start b.count m e inside l full) at
                        (ih (after config a m)),
                  )
              | inr f ↦
                  let room = not_leb→lt (bound config key) b.count f in
                  omega (
                    arith,
                    room,
                    passes_room config key a b.window_start b.count m e inside l room,
                    rw (lookup_room config key a b.window_start b.count m e inside l room) at
                        (ih (after config a m)),
                  )
            ]
      ]

  spans : (arrivals : List Arrival) (lo : ℕ) → Within lo arrivals → Spans arrivals
  unfolding Spans admitted
  spans [] lo w m = omega arith
  spans (a ∷ arrivals) lo w m = elim (Bool-cases (key_eq a.key key)) [
    | inr e ↦ rw e (
        omega
          (arith, rw (lookup_other config key a m e) at (spans arrivals lo w.1 (after config a m))))
    | inl e ↦ elim (Option-cases (lookup key m)) [
      | inl l ↦ rw (e, l) (omega (arith, fresh_of_none a arrivals m lo w e l))
      | inr (b, l) ↦ rw (e, l) (Spans-some a arrivals m lo b w e l (spans arrivals lo w.1))
    ]
  ]

room_le :
    (config : RateLimitConfig) (key : RateLimitKey) (o : Option RateLimitBucket)
    → room_of config key o ≤ limit_of config key
room_le config key none = omega arith
room_le config key (some b) = omega arith

-- Whatever the limiter has seen before, and however the requests of other clients are mixed in, of
-- the requests of one client and class in any span shorter than the window at most twice the limit
-- pass.
pub admitted-le-twice :
    (config : RateLimitConfig) (key : RateLimitKey) (arrivals : List Arrival) (lo : ℕ) (m : Buckets)
    → Within lo arrivals
    → admitted config key arrivals m ≤ 2 * class_limit config key.class
unfolding Spans
admitted-le-twice config key arrivals lo m w =
    omega (arith, spans config key arrivals lo w m, room_le config key (lookup key m))

-- For a client and class that the limiter has not seen, exactly the first requests of the window
-- pass, as many as the limit allows.
pub admitted_first_window :
    (config : RateLimitConfig) (key : RateLimitKey) (arrivals : List Arrival) (lo : ℕ) (m : Buckets)
    → Within lo arrivals
    → lookup key m ≡ none
    → admitted config key arrivals m ≡ min (arriving key arrivals) (class_limit config key.class)
unfolding admitted arriving
admitted_first_window config key [] lo m w l = omega arith
admitted_first_window config key (a ∷ arrivals) lo m w l = elim (Bool-cases (key_eq a.key key)) [
  | inr e ↦ rw e (
      omega (
        arith,
        admitted_first_window config key arrivals lo (after config a m) w.1
            (lookup_other config key a m e ∙ l),
      ))
  | inl e ↦ rw e (omega (arith, fresh_of_none config key a arrivals m lo w e l))
]

module _ (now limit : ℕ) (b : RateLimitBucket) where
  refused_bucket : {d : ℕ} → (charge now limit b).0 ≡ some d → (charge now limit b).1 ≡ renew now b
  unfolding charge
  refused_bucket e = ground arith

  refused_delay : (d : ℕ) → (charge now limit b).0 ≡ some d → d ≡ retry_after now (renew now b)
  unfolding charge
  refused_delay d e = ground arith

  renew_open : now - (renew now b).window_start < rate_limit_window
  unfolding renew
  renew_open = ground arith

  renew_started : b.window_start ≤ now → (renew now b).window_start ≤ now
  unfolding renew
  renew_started h = ground arith

  charge_over : 0 < limit → rate_limit_window ≤ now - b.window_start → (charge now limit b).0 ≡ none
  unfolding charge renew
  charge_over pos over = ground arith

delay_bounds : (now : ℕ) (c : RateLimitBucket) → (1 ≤ retry_after now c) × (retry_after now c ≤ 60)
unfolding retry_after
delay_bounds now c = (omega arith, omega arith)

delay_covers :
    (now later_on : ℕ) (c : RateLimitBucket)
    → c.window_start ≤ now
    → now - c.window_start < rate_limit_window
    → now + (retry_after now c + 1) * second ≤ later_on
    → rate_limit_window ≤ later_on - c.window_start
unfolding retry_after
delay_covers now later_on c o h w = omega arith

-- A request that is refused with a delay of `d` seconds, which is between 1 and 60, is followed by
-- one that passes if the limit is not 0, the bucket's window was opened in the past, and the client
-- waits `d + 1` seconds and sends nothing else meanwhile.
pub retry_after_suffices :
    (now later_on limit d : ℕ) (b : RateLimitBucket)
    → 0 < limit
    → b.window_start ≤ now
    → (charge now limit b).0 ≡ some d
    → now + (d + 1) * second ≤ later_on
    → (1 ≤ d) × (d ≤ 60) × ((charge later_on limit (charge now limit b).1).0 ≡ none)
retry_after_suffices now later_on limit d b pos started refused waits =
    let c = renew now b in
    let e = refused_delay now limit b d refused in
    let waited : now + (retry_after now c + 1) * second ≤ later_on = rw (← e) waits in
    (
      omega (arith, e, delay_bounds now c),
      omega (arith, e, delay_bounds now c),
      rw (refused_bucket now limit b refused) (
          charge_over later_on limit c pos (
            delay_covers now later_on c (renew_started now limit b started) (renew_open now limit b)
              waited)),
    )
