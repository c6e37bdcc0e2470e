-- ===== src/Speakers/Tests.antt =====
-- Runs at concrete inputs, and the witness of the property. Scores are whole numbers here.
use nyra.Base.{
  ℕ, ◌≡◌, refl, ◌-◌, ltb, false, String, none, some, List, [], ◌∷◌, arith, length, raise,
}
use nyra.Speakers.{
  Scale, speaker_identified, refusal, classify_ranked, classify_scores, cosine_similarity,
  identify_embedding,
}
use nyra.Speakers.Ranking.{IsOrder, IsBest, classify_scores-IsBest}

abbrev percent : Scale ℕ
percent = record { is_less = ltb; minus = λ a b. a - b }

percent-IsOrder : IsOrder percent
percent-IsOrder = record {
  asymmetric = λ a b h. ground arith;
  co_transitive = λ a b c h k. ground arith;
  antitone = λ a b c d h k. ground arith;
}

abbrev household : List (String × ℕ)
household = ("ada", 40) ∷ ("bob", 81) ∷ ("eve", 60) ∷ []

bob_identified : classify_scores percent household 70 10 none ≡ record {
  outcome = speaker_identified;
  identified_user_id = some "bob";
  best_score = some 81;
  diagnostic_id = none;
  reason_code = none;
}
unfolding classify_scores classify_ranked
bob_identified = refl

too_close : classify_scores percent household 70 30 none ≡ refusal (some 81) none "AMBIGUOUS_MARGIN"
unfolding classify_scores classify_ranked
too_close = refl

nobody_known : classify_scores percent [] 70 10 none ≡ refusal none none "NO_PROFILES"
unfolding classify_scores classify_ranked
nobody_known = refl

-- A profile of another dimension
mismatch_raises :
    identify_embedding
      (record { norm = length; is_zero = λ n. false; ratio = λ a b. 50 })
      percent
      (1 ∷ [])
      (("ada", 1 ∷ 2 ∷ []) ∷ [])
      70
      10
      none
    ≡ raise "embedding dimensions must match"
unfolding identify_embedding cosine_similarity
mismatch_raises = refl

classify_scores-IsBest_example :
    (user : String) × (score : ℕ) × ((classify_scores percent household 70 10
        none).identified_user_id
      ≡ some user)
    × ((classify_scores percent household 70 10 none).best_score ≡ some score)
    × IsBest percent percent-IsOrder household 70 10 user score
unfolding classify_scores classify_ranked
classify_scores-IsBest_example =
    classify_scores-IsBest percent percent-IsOrder household 70 10 none refl
