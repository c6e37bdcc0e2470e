-- ===== src/Speakers.antt =====
-- The identification of a speaker by scores (speaker-id/identification.py). The arithmetic of an embedding's numbers is
-- an argument, as are the order and the difference of scores.
mod Ranking
mod Tests
use nyra.Base.{
  String, Bool, true, false, ◌&&◌, ◌||◌, not, Option, none, some, List, [], ◌∷◌, order_by, text_le,
  if◌then◌else◌, length, nat_eq, Result, ok, raise, raise_if, ◌>>=◌, ◌>>◌,
}
use nyra.Base.Mapping.{Mapping}

pub data IdentificationOutcome : Type 0 where
  speaker_identified not_recognized identification_failed : IdentificationOutcome

pub record IdentificationResult (F : Type 0) : Type 0 where
  pub outcome : IdentificationOutcome
  pub identified_user_id : Option String
  pub best_score : Option F
  pub diagnostic_id : Option String
  pub reason_code : Option String

-- `<` and `-` of scores
pub record Scale (F : Type 0) : Type 0 where
  pub is_less : F → F → Bool
  pub minus : F → F → F

module _ {F : Type 0} where
  abbrev pub refusal : Option F → Option String → String → IdentificationResult F
  refusal best diagnostic_id reason = record {
    outcome = not_recognized;
    identified_user_id = none;
    best_score = best;
    diagnostic_id = diagnostic_id;
    reason_code = some reason;
  }

  -- `failed_result`
  abbrev pub failed_result : Option String → String → IdentificationResult F
  failed_result diagnostic_id reason = record {
    outcome = identification_failed;
    identified_user_id = none;
    best_score = none;
    diagnostic_id = diagnostic_id;
    reason_code = some reason;
  }

  module _ (scale : Scale F) where
    -- `(-item[1], item[0])`
    abbrev pub ranks_first : String × F → String × F → Bool
    ranks_first a b = scale.is_less b.1 a.1 || (not (scale.is_less a.1 b.1) && text_le a.0 b.0)

    -- Whether the second is too close to the best
    abbrev pub is_ambiguous : F → F → List (String × F) → Bool
    is_ambiguous margin best [] = false
    is_ambiguous margin best (second ∷ rest) = scale.is_less (scale.minus best second.1) margin

    -- What is made of the ranked scores
    unfoldable pub classify_ranked :
        F → F → Option String → List (String × F) → IdentificationResult F
    classify_ranked threshold margin diagnostic_id [] = refusal none diagnostic_id "NO_PROFILES"
    classify_ranked threshold margin diagnostic_id (best ∷ rest) =
        if scale.is_less best.1 threshold
        then refusal (some best.1) diagnostic_id "BELOW_THRESHOLD"
        else if is_ambiguous margin best.1 rest
        then refusal (some best.1) diagnostic_id "AMBIGUOUS_MARGIN"
        else record {
          outcome = speaker_identified;
          identified_user_id = some best.0;
          best_score = some best.1;
          diagnostic_id = diagnostic_id;
          reason_code = none;
        }

    unfoldable pub classify_scores : Mapping F → F → F → Option String → IdentificationResult F
    classify_scores scores threshold margin diagnostic_id =
        classify_ranked threshold margin diagnostic_id (order_by ranks_first scores)

-- The norm of an embedding, whether a norm is zero, and the sum of products over the product of norms
pub record Cosine (F : Type 0) : Type 0 where
  pub norm : List F → F
  pub is_zero : F → Bool
  pub ratio : List F → List F → F

module _ {F : Type 0} (cosine : Cosine F) where
  unfoldable pub cosine_similarity : List F → List F → Result String F
  cosine_similarity left right =
      raise_if (not (nat_eq (length left) (length right))) "embedding dimensions must match"
      >> (raise_if (nat_eq (length left) 0) "embeddings must not be empty"
          >> (raise_if (cosine.is_zero (cosine.norm left) || cosine.is_zero (cosine.norm right))
                "embeddings must have non-zero magnitude"
              >> ok (cosine.ratio left right)))

  abbrev pub cosine_scores : List F → Mapping (List F) → Result String (Mapping F)
  cosine_scores query [] = ok []
  cosine_scores query ((user, centroid) ∷ profiles) = cosine_similarity query centroid >>= λ score.
      cosine_scores query profiles >>= λ scores. ok ((user, score) ∷ scores)

  unfoldable pub identify_embedding :
      Scale F
      → List F
      → Mapping (List F)
      → F
      → F
      → Option String
      → Result String (IdentificationResult F)
  identify_embedding scale query profiles threshold margin diagnostic_id =
      cosine_scores query profiles >>= λ scores.
      ok (classify_scores scale scores threshold margin diagnostic_id)
