-- ===== src/Speakers/Ranking.antt =====
-- Who is identified: the speaker with the best score, by a margin.
use nyra.Base.{
  ◌≡◌, refl, ◌⊎◌, inl, inr, String, true, false, Option, some, List, [], ◌∷◌, All, order_by,
  insert_ordered, Occurs, Occurs-order_by, All-insert_ordered, arith, Bool-cases,
}
use nyra.Speakers.{
  IdentificationResult, Scale, speaker_identified, ranks_first, is_ambiguous, classify_ranked,
  classify_scores,
}

-- The order of finite floating point numbers, and how a difference falls with what is taken away
pub record IsOrder {F : Type 0} (scale : Scale F) : Type 0 where
  pub asymmetric : (a b : F) → scale.is_less a b ≡ true → scale.is_less b a ≡ false
  pub co_transitive :
      (a b c : F)
      → scale.is_less a b ≡ false
      → scale.is_less b c ≡ false
      → scale.is_less a c ≡ false
  pub antitone :
      (a b c d : F)
      → scale.is_less b c ≡ false
      → scale.is_less (scale.minus a b) d ≡ false
      → scale.is_less (scale.minus a c) d ≡ false

module _ {F : Type 0} (scale : Scale F) (order : IsOrder scale) where
  abbrev Unbeaten : String × F → String × F → Type 0
  Unbeaten a b = scale.is_less a.1 b.1 ≡ false

  abbrev IsRanked : List (String × F) → Type 0
  IsRanked [] = Unit
  IsRanked (x ∷ xs) = All (Unbeaten x) xs × IsRanked xs

  All-Unbeaten :
      (x y : String × F) (ys : List (String × F))
      → Unbeaten x y
      → All (Unbeaten y) ys
      → All (Unbeaten x) ys
  All-Unbeaten x y [] h rest = tt
  All-Unbeaten x y (z ∷ ys) h (first, rest) =
      (order.co_transitive x.1 y.1 z.1 h first, All-Unbeaten x y ys h rest)

  insert-IsRanked :
      (x : String × F) (ys : List (String × F))
      → IsRanked ys
      → IsRanked (insert_ordered (ranks_first scale) x ys)
  insert-IsRanked x [] h = (tt, tt)
  insert-IsRanked x (y ∷ ys) (first, h) = elim (Bool-cases (ranks_first scale x y)) [
    | inl e ↦
        let above : Unbeaten x y = ground (arith, order.asymmetric y.1 x.1) in
        rw e ((above, All-Unbeaten x y ys above first), (first, h))
    | inr e ↦
        let below : Unbeaten y x = ground arith in
        rw e (
          All-insert_ordered (ranks_first scale) (Unbeaten y) x ys below first,
          insert-IsRanked x ys h,
        )
  ]

  order_by-IsRanked : (xs : List (String × F)) → IsRanked (order_by (ranks_first scale) xs)
  order_by-IsRanked [] = tt
  order_by-IsRanked (x ∷ xs) =
      insert-IsRanked x (order_by (ranks_first scale) xs) (order_by-IsRanked xs)

  from-inserted :
      (P : String × F → Type 0) (x : String × F) (ys : List (String × F))
      → All P (insert_ordered (ranks_first scale) x ys)
      → P x × All P ys
  from-inserted P x [] (h, rest) = (h, tt)
  from-inserted P x (y ∷ ys) h = elim (Bool-cases (ranks_first scale x y)) [
    | inl e ↦ rw e at h
    | inr e ↦
        let (second, later) : P y × All P (insert_ordered (ranks_first scale) x ys) = rw e at h in
        let (first, rest) = from-inserted P x ys later in (first, (second, rest))
  ]

  from-order_by :
      (P : String × F → Type 0) (xs : List (String × F))
      → All P (order_by (ranks_first scale) xs)
      → All P xs
  from-order_by P [] h = tt
  from-order_by P (x ∷ xs) h =
      let (first, rest) = from-inserted P x (order_by (ranks_first scale) xs) h in
      (first, from-order_by P xs rest)

  -- What the speaker who is identified satisfies: one of the profiles, with this as its score, which reaches the
  -- threshold, which no score exceeds, and which leaves all others behind by the margin
  pub record IsBest (scores : List (String × F)) (threshold margin : F) (user : String) (score : F)
      : Type 0 where
    pub listed : Occurs (user, score) scores
    pub reaches : scale.is_less score threshold ≡ false
    pub ahead :
        All
          (λ e.
            (e ≡ (user, score))
            ⊎ ((scale.is_less score e.1 ≡ false)
                × (scale.is_less (scale.minus score e.1) margin ≡ false)))
          scores

  abbrev Trails : String × F → F → String × F → Type 0
  Trails best margin e =
      (e ≡ best)
      ⊎ ((scale.is_less best.1 e.1 ≡ false)
          × (scale.is_less (scale.minus best.1 e.1) margin ≡ false))

  All-behind :
      (best second : String × F) (margin : F) (rest : List (String × F))
      → scale.is_less (scale.minus best.1 second.1) margin ≡ false
      → All (Unbeaten best) rest
      → All (Unbeaten second) rest
      → All (Trails best margin) rest
  All-behind best second margin [] clear h k = tt
  All-behind best second margin (e ∷ rest) clear (first, h) (next, k) = (
    inr (first, order.antitone best.1 second.1 e.1 margin next clear),
    All-behind best second margin rest clear h k,
  )

  All-Trails :
      (best : String × F) (margin : F) (rest : List (String × F))
      → is_ambiguous scale margin best.1 rest ≡ false
      → All (Unbeaten best) rest
      → IsRanked rest
      → All (Trails best margin) rest
  All-Trails best margin [] clear h ranked = tt
  All-Trails best margin (second ∷ rest) clear (first, h) (next, ranked) =
      (inr (first, clear), All-behind best second margin rest clear h next)

  -- The best of a ranked list
  record Chosen (threshold margin : F) (result : IdentificationResult F)
      (ranked : List (String × F)) : Type 0 where
    user : String
    score : F
    named : result.identified_user_id ≡ some user
    scored : result.best_score ≡ some score
    listed : Occurs (user, score) ranked
    reached : scale.is_less score threshold ≡ false
    behind : All (Trails (user, score) margin) ranked

  classify_ranked-Chosen :
      (threshold margin : F) (diagnostic_id : Option String) (ranked : List (String × F))
      → IsRanked ranked
      → (classify_ranked scale threshold margin diagnostic_id ranked).outcome ≡ speaker_identified
      → Chosen threshold margin (classify_ranked scale threshold margin diagnostic_id ranked) ranked
  unfolding classify_ranked
  classify_ranked-Chosen threshold margin diagnostic_id [] sorted h = absurd (ground arith)
  classify_ranked-Chosen threshold margin diagnostic_id (best ∷ rest) (first, sorted) h = record {
    user = best.0;
    score = best.1;
    named = ground arith;
    scored = ground arith;
    listed = inl refl;
    reached = ground arith;
    behind = (inl refl, All-Trails best margin rest (ground arith) first sorted);
  }

  -- Where a speaker is identified, it is one of the profiles, its score is the one that is reported, reaches the threshold
  -- and is exceeded by none, and every other profile is behind it by at least the margin.
  pub classify_scores-IsBest :
      (scores : List (String × F)) (threshold margin : F) (diagnostic_id : Option String)
      → (classify_scores scale scores threshold margin diagnostic_id).outcome ≡ speaker_identified
      → (user : String) × (score : F) × ((classify_scores scale scores threshold margin
            diagnostic_id).identified_user_id
          ≡ some user)
        × ((classify_scores scale scores threshold margin diagnostic_id).best_score ≡ some score)
        × IsBest scores threshold margin user score
  unfolding classify_scores
  classify_scores-IsBest scores threshold margin diagnostic_id h =
      let ranked = order_by (ranks_first scale) scores in
      let chosen =
        classify_ranked-Chosen threshold margin diagnostic_id ranked (order_by-IsRanked scores) h in
      (
        chosen.user,
        chosen.score,
        chosen.named,
        chosen.scored,
        record {
          listed =
              Occurs-order_by (ranks_first scale) (chosen.user, chosen.score) scores chosen.listed;
          reaches = chosen.reached;
          ahead = from-order_by (Trails (chosen.user, chosen.score) margin) scores chosen.behind;
        },
      )
