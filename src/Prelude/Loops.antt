-- ===== src/Prelude/Loops.antt =====
-- `for (const item of items) await send(item)`: the requests go out one after the other, and the
-- first that is refused throws and ends the loop.
use mathlib.Core.Path.{◌≡◌, refl, ap}
use mathlib.Core.Option.{Option, none, some}
use mathlib.Core.List.{List, [], ◌∷◌, ◌++◌}
use native.Mathlib.Omega.{arith}
use affiliate_platform_api.Prelude.Lists.{All, some?}
use affiliate_platform_api.Prelude.Tests.{is_some}
use mathlib.Core.Bool.{◌||◌}

module _ {A E : Type 0} (refusal : A → Option E) where
  abbrev pub sent_first : A → Option E → List A × Option E → List A × Option E
  sent_first item none (sent, thrown) = (item ∷ sent, thrown)
  sent_first item (some e) rest = (item ∷ [], some e)

  -- What was sent, and what is thrown.
  unfoldable pub send_each : List A → List A × Option E
  send_each [] = ([], none)
  send_each (item ∷ items) = sent_first item (refusal item) (send_each items)

  -- The loop stopped at the first item that was refused.
  pub record Stops (items sent : List A) (e : E) : Type 0 where
    pub before : List A
    pub at : A
    pub left : List A
    pub split : items ≡ before ++ at ∷ left
    pub sent_split : sent ≡ before ++ at ∷ []
    pub accepted_before : All (λ x. refusal x ≡ none) before
    pub refused_at : refusal at ≡ some e

  -- Either all was sent and accepted, or the loop stopped at the first that was refused.
  abbrev pub Outcome : List A → List A → Option E → Type 0
  Outcome items sent none = (sent ≡ items) × All (λ x. refusal x ≡ none) items
  Outcome items sent (some e) = Stops items sent e

  sent_first-Outcome :
      (item : A) (items : List A) (answer : Option E) (rest : List A × Option E)
      → refusal item ≡ answer
      → Outcome items rest.0 rest.1
      → Outcome (item ∷ items) (sent_first item answer rest).0 (sent_first item answer rest).1
  sent_first-Outcome item items none (sent, none) h (e, all) = (ap (λ s. item ∷ s) e, (h, all))
  sent_first-Outcome item items none (sent, some e) h s = record {
    before = item ∷ s.before;
    at = s.at;
    left = s.left;
    split = ap (λ l. item ∷ l) s.split;
    sent_split = ap (λ l. item ∷ l) s.sent_split;
    accepted_before = (h, s.accepted_before);
    refused_at = s.refused_at;
  }
  sent_first-Outcome item items (some e) rest h k = record {
    before = [];
    at = item;
    left = items;
    split = refl;
    sent_split = refl;
    accepted_before = tt;
    refused_at = h;
  }

  pub send_each-Outcome : (items : List A) → Outcome items (send_each items).0 (send_each items).1
  unfolding send_each
  send_each-Outcome [] = (refl, tt)
  send_each-Outcome (item ∷ items) =
      sent_first-Outcome item items (refusal item) (send_each items) refl (send_each-Outcome items)

  sent_first-thrown :
      (item : A) (answer : Option E) (rest : List A × Option E)
      → is_some (sent_first item answer rest).1 ≡ (is_some answer || is_some rest.1)
  sent_first-thrown item none (sent, thrown) = refl
  sent_first-thrown item (some e) rest = refl

  pub send_each-thrown :
      (items : List A) → is_some (send_each items).1 ≡ some? (λ item. is_some (refusal item)) items
  unfolding send_each
  send_each-thrown [] = refl
  send_each-thrown (item ∷ items) =
      ground
        (arith, sent_first-thrown item (refusal item) (send_each items), send_each-thrown items)
