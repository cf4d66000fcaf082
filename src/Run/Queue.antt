-- ===== src/Run/Queue.antt =====
-- The sorted timeline.
use mathlib.Core.List.{Perm, Pairwise}
use tinyrange_ad.Common.{List, [], ◌∷◌, false, ℤ, pos, ◌≡◌, ◌≢◌, refl, arith, All}
use tinyrange_ad.Common.Int.{◌-ℤ◌, ◌≤ℤ◌, ltb_ℤ, ◌==ℤ◌, wrap64, quot}
use tinyrange_ad.Common.Outcome.{ok}
use tinyrange_ad.Config.{TimelineEvent}
use tinyrange_ad.Score.{SortFunc}
use tinyrange_ad.Score.Ranking.{Small}
use tinyrange_ad.Run.{queue_order, event_queue}

differ-Small : (a b : ℤ) → Small a → Small b → ltb_ℤ (wrap64 (a -ℤ b)) (pos 0) ≡ ltb_ℤ a b
unfolding wrap64 ◌-ℤ◌
differ-Small a b ha hb = ground arith

All-map : {A : Type 0} (P Q : A → Type 0) (l : List A) → ((x : A) → P x → Q x) → All P l → All Q l
All-map P Q [] f h = tt
All-map P Q (x ∷ l) f h = (f x h.0, All-map P Q l f h.1)

orders :
    (rate : ℤ) (l : List TimelineEvent)
    → All (λ e. Small (quot e.at rate)) l
    → All
        (λ x.
          All
            (λ y. ltb_ℤ (queue_order rate x y) (pos 0) ≡ ltb_ℤ (quot x.at rate) (quot y.at rate))
            l)
        l
unfolding queue_order
orders rate l small =
    All-map _ _ l
      (λ x hx. All-map _ _ l (λ y hy. differ-Small (quot x.at rate) (quot y.at rate) hx hy) small)
      small

-- With a tick rate that is not 0 and ticks that leave an int's differences room, the queue has the
-- events of the timeline, in the order of their ticks.
event_queue-sorted :
    (sorter : SortFunc) (rate : ℤ) (timeline : List TimelineEvent)
    → rate ≢ pos 0
    → All (λ e. Small (quot e.at rate)) timeline
    → (queue : List TimelineEvent) × (event_queue sorter rate timeline ≡ ok queue)
      × Perm timeline queue
      × Pairwise (λ x y. quot x.at rate ≤ℤ quot y.at rate) queue
unfolding event_queue
event_queue-sorted sorter rate timeline live small =
    let positive : (rate ==ℤ pos 0) ≡ false = ground (arith, live) in
    (
      sorter.sort (queue_order rate) timeline,
      rw positive refl,
      sorter.sort-perm (queue_order rate) timeline,
      sorter.sort_sorted (queue_order rate) (λ e. quot e.at rate) timeline
          (orders rate timeline small),
    )
