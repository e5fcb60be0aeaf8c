-- ===== src/Limits/Rate/Window.antt =====
-- How many requests of one client and class pass the limiter, among the requests of all clients.
use Prim.Native.Nat.{min}
use ai_channel.Prelude.{
  ℕ, ◌+◌, ◌-◌, ◌≤◌, ◌<◌, ◌≡◌, refl, ◌∙◌, ap, true, false, none, some, List, [], ◌∷◌, arith,
  if◌then◌else◌, Bool-cases, inl, inr, All, leb, leb→le, not_leb→lt,
}
use ai_channel.Time.{rate_limit_window}
use ai_channel.Limits.Rate.{
  RateLimitConfig, RateLimitKey, RateLimitBucket, Buckets, class_limit, key_eq, lookup, or_insert,
  renew, retry_after, charge, check,
}
use ai_channel.Limits.Rate.Buckets.{key_eq_iff, lookup-check}

-- A request as the limiter sees it.
pub record Arrival : Type 0 where
  pub instant : ℕ
  pub key : RateLimitKey

abbrev pub limit_of : RateLimitConfig → RateLimitKey → ℕ
limit_of config key = class_limit config key.class

abbrev pub after : RateLimitConfig → Arrival → Buckets → Buckets
after config a m = (check a.instant a.key (limit_of config a.key) m).1

abbrev pub passes : RateLimitConfig → Arrival → Buckets → ℕ
passes config a m =
    elim (charge a.instant (limit_of config a.key) (or_insert a.instant (lookup a.key m))).0 [
      | none ↦ 1
      | some delay ↦ 0
    ]

-- How many of the arrivals with this key pass.
unfoldable pub admitted : RateLimitConfig → RateLimitKey → List Arrival → Buckets → ℕ
admitted config key [] m = 0
admitted config key (a ∷ arrivals) m =
    (if key_eq a.key key then passes config a m else 0)
    + admitted config key arrivals (after config a m)

-- How many of the arrivals have this key.
unfoldable pub arriving : RateLimitKey → List Arrival → ℕ
arriving key [] = 0
arriving key (a ∷ arrivals) = (if key_eq a.key key then 1 else 0) + arriving key arrivals

-- The arrivals all lie in one span of the window's length.
abbrev pub Within : ℕ → List Arrival → Type 0
Within lo = All (λ a. (lo ≤ a.instant) × (a.instant < lo + rate_limit_window))

abbrev pub opened : ℕ → ℕ → RateLimitBucket
opened s c = record { window_start = s; count = c }

module _ (config : RateLimitConfig) (key : RateLimitKey) where
  abbrev pub bound : ℕ
  bound = limit_of config key

  abbrev pub charged : ℕ → RateLimitBucket → RateLimitBucket
  charged now b = (charge now bound b).1

  abbrev pub passed : ℕ → RateLimitBucket → ℕ
  passed now b = elim (charge now bound b).0 [ none ↦ 1 | some delay ↦ 0 ]

  -- one arrival with another key leaves the bucket alone
  pub lookup_other :
      (a : Arrival) (m : Buckets)
      → key_eq a.key key ≡ false
      → lookup key (after config a m) ≡ lookup key m
  lookup_other a m e = rw (lookup-check a.instant (limit_of config a.key) a.key key m, e) refl

  pub lookup_same :
      (a : Arrival) (m : Buckets)
      → key_eq a.key key ≡ true
      → lookup key (after config a m)
        ≡ some (charged a.instant (or_insert a.instant (lookup key m)))
  lookup_same a m e =
      lookup-check a.instant (limit_of config a.key) a.key key m
      ∙ rw (e, (key_eq_iff a.key key).0 e) refl

  pub passes_same :
      (a : Arrival) (m : Buckets)
      → key_eq a.key key ≡ true
      → passes config a m ≡ passed a.instant (or_insert a.instant (lookup key m))
  passes_same a m e = rw ((key_eq_iff a.key key).0 e) refl

  -- inside the window of its bucket a request passes while the count is below the bound
  pub charge_full :
      (now s c : ℕ)
      → now < s + rate_limit_window
      → bound ≤ c
      → charge now bound (record { window_start = s; count = c }) ≡ (
        some (retry_after now (record { window_start = s; count = c })),
        record { window_start = s; count = c },
      )
  unfolding charge renew
  charge_full now s c h full = ground arith

  pub charge_room :
      (now s c : ℕ)
      → now < s + rate_limit_window
      → c < bound
      → charge now bound (record { window_start = s; count = c })
        ≡ (none, record { window_start = s; count = c + 1 })
  unfolding charge renew
  charge_room now s c h room = ground arith

  pub passed_full :
      (now s c : ℕ) → now < s + rate_limit_window → bound ≤ c → passed now (opened s c) ≡ 0
  unfolding charge renew
  passed_full now s c h full = ground arith

  pub passed_room :
      (now s c : ℕ) → now < s + rate_limit_window → c < bound → passed now (opened s c) ≡ 1
  unfolding charge renew
  passed_room now s c h room = ground arith

  module _ (a : Arrival) (s c : ℕ) (m : Buckets) (e : key_eq a.key key ≡ true)
      (h : a.instant < s + rate_limit_window) (l : lookup key m ≡ some (opened s c)) where
    passes-opened : passes config a m ≡ passed a.instant (opened s c)
    passes-opened = passes_same a m e ∙ ap (λ o. passed a.instant (or_insert a.instant o)) l

    lookup-opened : lookup key (after config a m) ≡ some (charged a.instant (opened s c))
    lookup-opened = lookup_same a m e ∙ ap (λ o. some (charged a.instant (or_insert a.instant o))) l

    pub passes_full : bound ≤ c → passes config a m ≡ 0
    passes_full full = passes-opened ∙ passed_full a.instant s c h full

    pub passes_room : c < bound → passes config a m ≡ 1
    passes_room room = passes-opened ∙ passed_room a.instant s c h room

    pub lookup_full : bound ≤ c → lookup key (after config a m) ≡ some (opened s c)
    lookup_full full = lookup-opened ∙ ap (λ r. some r.1) (charge_full a.instant s c h full)

    pub lookup_room : c < bound → lookup key (after config a m) ≡ some (opened s (c + 1))
    lookup_room room = lookup-opened ∙ ap (λ r. some r.1) (charge_room a.instant s c h room)

  -- in one window the requests that pass are as many as there are, up to the room that is left
  pub count_inside :
      (arrivals : List Arrival) (s c : ℕ) (m : Buckets)
      → All (λ a. a.instant < s + rate_limit_window) arrivals
      → lookup key m ≡ some (opened s c)
      → admitted config key arrivals m ≡ min (arriving key arrivals) (bound - c)
  unfolding admitted arriving
  count_inside [] s c m h l = omega arith
  count_inside (a ∷ arrivals) s c m h l =
      let rest = λ (d : ℕ). count_inside arrivals s d (after config a m) h.1 in
      elim (Bool-cases (key_eq a.key key)) [
        | inr e ↦ rw e (omega (arith, rest c (lookup_other a m e ∙ l)))
        | inl e ↦ elim (Bool-cases (leb bound c)) [
          | inl b ↦
              let full = leb→le bound c b in
              rw e (
                omega (
                  arith,
                  full,
                  passes_full a s c m e h.0 l full,
                  rest c (lookup_full a s c m e h.0 l full),
                ))
          | inr b ↦
              let room = not_leb→lt bound c b in
              rw e (
                omega (
                  arith,
                  room,
                  passes_room a s c m e h.0 l room,
                  rest (c + 1) (lookup_room a s c m e h.0 l room),
                ))
        ]
      ]
