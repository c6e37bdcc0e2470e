-- ===== src/Enrollment/Phrases.antt =====
-- `deterministic_phrase_plan`. `str.lower` is modelled on ASCII letters: no other code point has an
-- ASCII letter for its lower case on its own, so the lookup of "it" and "en" is the same.
use Prim.Native.Char.{code}
use nyra.Base.{
  ℕ, zero, suc, ◌+◌, ◌%◌, ◌/◌, ◌<◌, ◌≡◌, refl, String, ◌&&◌, some, List, [], ◌∷◌, leb, nat_eq,
  if◌then◌else◌, strip, length, get_elem?, arith,
}

pub data PhraseLength : Type 0 where
  short medium long : PhraseLength

pub record EnrollmentPhrase : Type 0 where
  pub text : String
  pub language : String
  pub length_class : PhraseLength

-- The two phrases of each length, in Italian and in English.
pub record Catalog : Type 0 where
  pub short_phrases : String × String
  pub medium_phrases : String × String
  pub long_phrases : String × String

abbrev italian : Catalog
italian = record {
  short_phrases = ("La luce è accesa.", "Oggi resto a casa.");
  medium_phrases = (
    "Questa mattina il cielo sopra casa è molto limpido.",
    "Vorrei ascoltare della musica mentre preparo la cena.",
  );
  long_phrases = (
    "Domani controllerò il calendario prima di organizzare tutti gli impegni della giornata.",
    "Quando torno a casa preferisco abbassare le luci e ascoltare qualcosa di tranquillo.",
  );
}

abbrev english : Catalog
english = record {
  short_phrases = ("The light is on.", "Today I am staying home.");
  medium_phrases = (
    "The sky above the house is very clear this morning.",
    "I would like some music while I prepare dinner.",
  );
  long_phrases = (
    "Tomorrow I will check the calendar before arranging all the activities for the day.",
    "When I come home I prefer to dim the lights and listen to something quiet.",
  );
}

-- `locale.split("-", 1)[0].lower()`, as code points
pub base_codes : String → List ℕ
base_codes String.[] = []
base_codes (String.◌∷◌ c s) =
    let rest = base_codes s in
    if nat_eq (code c) 45
    then []
    else (if leb 65 (code c) && leb (code c) 90 then code c + 32 else code c) ∷ rest

-- `_FALLBACK.get(base, _FALLBACK["en"])`: 105 and 116 spell "it"
pub catalog_of : List ℕ → Catalog
catalog_of (a ∷ b ∷ []) = if nat_eq a 105 && nat_eq b 116 then italian else english
catalog_of _ = english

abbrev pub choices : Catalog → PhraseLength → String × String
choices c short = c.short_phrases
choices c medium = c.medium_phrases
choices c long = c.long_phrases

-- `choices[n % len(choices)]`
abbrev pub choice : String × String → ℕ → String
choice (first, second) n = if nat_eq (n % 2) 0 then first else second

-- `order[index % len(order)]`
abbrev pub order_at : ℕ → PhraseLength
order_at index =
    if nat_eq (index % 3) 0 then short else if nat_eq (index % 3) 1 then medium else long

-- The dict `used`.
pub record Used : Type 0 where
  pub short_used : ℕ
  pub medium_used : ℕ
  pub long_used : ℕ

abbrev pub used_at : Used → PhraseLength → ℕ
used_at u short = u.short_used
used_at u medium = u.medium_used
used_at u long = u.long_used

abbrev pub use_one : Used → PhraseLength → Used
use_one u short = record u { short_used = u.short_used + 1 }
use_one u medium = record u { medium_used = u.medium_used + 1 }
use_one u long = record u { long_used = u.long_used + 1 }

-- The loop, with the rounds that are left.
plan_from : Catalog → String → ℕ → ℕ → Used → List EnrollmentPhrase
plan_from catalog locale zero index used = []
plan_from catalog locale (suc rounds) index used =
    record {
      text = choice (choices catalog (order_at index)) (used_at used (order_at index));
      language = locale;
      length_class = order_at index;
    }
    ∷ plan_from catalog locale rounds (index + 1) (use_one used (order_at index))

abbrev unused : Used
unused = record { short_used = 0; medium_used = 0; long_used = 0 }

unfoldable pub deterministic_phrase_plan : String → ℕ → List EnrollmentPhrase
unfolding plan_from catalog_of base_codes strip
deterministic_phrase_plan language target_count =
    plan_from (catalog_of (base_codes (strip language))) (strip language) target_count 0 unused

length-plan_from :
    (c : Catalog) (locale : String) (rounds index : ℕ) (used : Used)
    → length (plan_from c locale rounds index used) ≡ rounds
unfolding plan_from
length-plan_from c locale zero index used = refl
length-plan_from c locale (suc n) index used =
    omega (arith, length-plan_from c locale n (index + 1) (use_one used (order_at index)))

-- The plan has as many phrases as were asked for.
pub length-deterministic_phrase_plan :
    (language : String) (n : ℕ) → length (deterministic_phrase_plan language n) ≡ n
unfolding deterministic_phrase_plan
length-deterministic_phrase_plan language n = length-plan_from _ _ n 0 _

-- How often each length has been used before a round.
abbrev IsCounted : ℕ → Used → Type 0
IsCounted index u =
    (u.short_used ≡ (index + 2) / 3) × (u.medium_used ≡ (index + 1) / 3) × (u.long_used ≡ index / 3)

-- The phrase that stands at an index, described without the loop.
abbrev pub phrase_at : String → ℕ → EnrollmentPhrase
phrase_at language i = record {
  text = choice (choices (catalog_of (base_codes (strip language))) (order_at i)) (i / 3);
  language = strip language;
  length_class = order_at i;
}

use_one-IsCounted :
    (index : ℕ) (u : Used) → IsCounted index u → IsCounted (index + 1) (use_one u (order_at index))
use_one-IsCounted index u h = ground arith

plan_from-eq :
    (c : Catalog) (locale : String) (rounds index i : ℕ) (used : Used)
    → IsCounted index used
    → i < rounds
    → get_elem? (plan_from c locale rounds index used) i
      ≡ some (record {
        text = choice (choices c (order_at (index + i))) ((index + i) / 3);
        language = locale;
        length_class = order_at (index + i);
      })
unfolding plan_from
plan_from-eq c locale zero index i used h lt = absurd (omega arith)
plan_from-eq c locale (suc n) index zero used h lt = ground arith
plan_from-eq c locale (suc n) index (suc i) used h lt =
    let shift : index + suc i ≡ (index + 1) + i = omega arith in
    rw shift (
      plan_from-eq c locale n (index + 1) i (use_one used (order_at index))
        (use_one-IsCounted index used h) (omega arith))

-- Each phrase of the plan takes the next length in turn, and of that length the next text in turn.
pub deterministic_phrase_plan-eq :
    (language : String) (n i : ℕ)
    → i < n
    → get_elem? (deterministic_phrase_plan language n) i ≡ some (phrase_at language i)
unfolding deterministic_phrase_plan
deterministic_phrase_plan-eq language n i h =
    let from_start : 0 + i ≡ i = omega arith in
    rw from_start at (
      plan_from-eq (catalog_of (base_codes (strip language))) (strip language) n 0 i unused
        (omega arith) h)
