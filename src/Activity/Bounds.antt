-- ===== src/Activity/Bounds.antt =====
-- The events of an activity bucket: at most two thousand, oldest first; what an upload does to them.
use ai_channel.Prelude.{
  ℕ, zero, suc, ◌-◌, ◌≤◌, ◌≡◌, refl, ◌⊎◌, true, false, Option, none, some, List, [], ◌∷◌, arith,
  length, find, drop, length-retain-le, ltb, Bool-cases, inl, inr,
}
use ai_channel.Prelude.Order.{
  Chain-compare, Chain-then_with, compare-flip, flip-then_with, IsComparison-of_Chain, IsComparison,
}
use ai_channel.Prelude.Sort.{sort_by, Sorted, sort_by-Sorted, Sorted-retain, Sorted-drop}
use ai_channel.Prelude.Text.{Text, text_eq, compare_text-flip, Chain-compare_text}
use ai_channel.Time.{DateTime}
use ai_channel.Protocol.Types.{ActivityEvent}
use ai_channel.Protocol.External.{Crypto, Codec}
use ai_channel.Digest.{activity_auth_hash}
use ai_channel.Activity.{
  max_activity_events, StoredActivityEvent, StoredActivityBucket, ActivityPutStatus, has_event_id,
  compare_activity_events_oldest_first, prune_expired, is_current, keep_newest, put_in_bucket,
}

length-drop : {A : Type 0} (n : ℕ) (xs : List A) → length (drop n xs) ≡ length xs - n
length-drop zero xs = omega arith
length-drop (suc n) [] = omega arith
length-drop (suc n) (x ∷ xs) = omega (arith, length-drop n xs)

oldest_first-IsComparison : IsComparison compare_activity_events_oldest_first
unfolding compare_activity_events_oldest_first
oldest_first-IsComparison =
    IsComparison-of_Chain compare_activity_events_oldest_first
      (λ a b. rw (
        compare-flip a.event.created_at b.event.created_at,
        compare_text-flip a.event.event_id b.event.event_id,
        flip-then_with,
      ))
      (λ a b c.
        Chain-then_with _ _ _ _ _ _
          (Chain-compare a.event.created_at b.event.created_at c.event.created_at)
          (Chain-compare_text a.event.event_id b.event.event_id c.event.event_id))

pub record IsWellFormed (bucket : StoredActivityBucket) : Type 0 where
  pub bounded : length bucket.events ≤ max_activity_events
  pub ordered : Sorted compare_activity_events_oldest_first bucket.events

keep_newest-bounded :
    (events : List StoredActivityEvent) → length (keep_newest events) ≤ max_activity_events
unfolding keep_newest
keep_newest-bounded events =
    let sorted = sort_by compare_activity_events_oldest_first events in
    ground (arith, length-drop (length sorted - max_activity_events) sorted)

keep_newest-Sorted :
    (events : List StoredActivityEvent)
    → Sorted compare_activity_events_oldest_first (keep_newest events)
unfolding keep_newest
keep_newest-Sorted events =
    let sorted = sort_by compare_activity_events_oldest_first events in
    let in_order = sort_by-Sorted oldest_first-IsComparison events in
    elim (Bool-cases (ltb max_activity_events (length sorted))) [
      | inl e ↦ rw e (
          Sorted-drop compare_activity_events_oldest_first (length sorted - max_activity_events)
            sorted in_order)
      | inr e ↦ rw e in_order
    ]

prune_expired-IsWellFormed :
    (now : DateTime) (bucket : StoredActivityBucket)
    → IsWellFormed bucket
    → IsWellFormed (prune_expired now bucket)
unfolding prune_expired
prune_expired-IsWellFormed now bucket w = record {
  bounded = omega (arith, w.bounded, length-retain-le (is_current now) bucket.events);
  ordered =
      Sorted-retain compare_activity_events_oldest_first (is_current now) bucket.events w.ordered;
}

Option-cases : {A : Type 0} (o : Option A) → ((a : A) × o ≡ some a) ⊎ (o ≡ none)
Option-cases none = inr refl
Option-cases (some a) = inl (a, refl)

-- An upload leaves a bucket of at most two thousand events, oldest first, if it was one. With a wrong
-- token it changes nothing. An event whose id an unexpired event of the bucket has is not stored
-- again: the answer is the entry that is there, and the bucket only loses its expired events.
pub put_in_bucket-safe :
    (crypto : Crypto) (codec : Codec) (auth_token : Text) (event : ActivityEvent) (now : DateTime)
    (bucket : StoredActivityBucket)
    → IsWellFormed bucket
    → IsWellFormed (put_in_bucket crypto codec auth_token event now bucket).1
      × (text_eq bucket.auth_hash (activity_auth_hash crypto auth_token) ≡ false
          → put_in_bucket crypto codec auth_token event now bucket
            ≡ (ActivityPutStatus.unauthorized, bucket))
      × ((existing : StoredActivityEvent)
          → text_eq bucket.auth_hash (activity_auth_hash crypto auth_token) ≡ true
          → find (has_event_id event.event_id) (prune_expired now bucket).events ≡ some existing
          → put_in_bucket crypto codec auth_token event now bucket
            ≡ (ActivityPutStatus.stored existing, prune_expired now bucket))
unfolding put_in_bucket
put_in_bucket-safe crypto codec auth_token event now bucket w =
    elim (Bool-cases (text_eq bucket.auth_hash (activity_auth_hash crypto auth_token))) [
      | inr e ↦ rw e (w, λ wrong. refl, λ existing right. cc right)
      | inl e ↦
          elim (Option-cases
            (find (has_event_id event.event_id) (prune_expired now bucket).events)) [
              | inl (found, f) ↦
                  rw (e, f)
                    (
                      prune_expired-IsWellFormed now bucket w,
                      λ wrong. cc wrong,
                      λ existing right same. cc same,
                    )
              | inr f ↦
                  rw (e, f)
                    (
                      record { bounded = keep_newest-bounded _; ordered = keep_newest-Sorted _ },
                      λ wrong. cc wrong,
                      λ existing right same. cc same,
                    )
            ]
    ]
