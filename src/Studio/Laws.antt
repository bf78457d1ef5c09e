-- ===== src/Studio/Laws.antt =====
-- What every reachable session of the studio satisfies.
use affiliate_platform_api.Prelude.{
  Bool, Bool-cases, List, NoRepeat, NoRepeat-concat, NoRepeat-without, Option, String, [], arith,
  eq_iff, false, if◌then◌else◌, includes, includes-append, inl, inr, length, none, not, refl, some,
  true, ◌+◌, ◌++◌, ◌==◌, ◌≡◌, ◌∷◌, ap, sym, ◌∙◌, subst, ap₂,
}
use affiliate_platform_api.Studio.History.{last_activated, last_activated-append}
use affiliate_platform_api.Studio.Variants.{
  Numbered, Numbered-concat, Numbered-edit, variant_ids-concat, variant_ids-edit,
}
use affiliate_platform_api.Studio.{
  Action, ContentSession, ContentSessionEvent, ContentVariant, activate_variant, append_variant,
  build_variant, restore, config_changed, create_empty_session, distributed, edit_active,
  find_variant, log_distribution, modifier_toggled, perform, reset_studio, restore_from,
  restore_variant, session_created, set_advanced_open, set_compare_variant_ids,
  set_suggestions_open, toggle_modifier, toggle_text, update_active_content, update_config,
  update_product_context, variant_activated, variant_generated, variant_ids, variant_restored,
}

abbrev pub is_variant : Option String → List String → Bool
is_variant none ids = true
is_variant (some id) ids = includes ids id

pub record IsSound (s : ContentSession) : Type 0 where
  pub distinct : NoRepeat (variant_ids s.variants)
  pub numbered : Numbered 1 s.variants
  pub active : is_variant s.active_variant_id (variant_ids s.variants) ≡ true
  pub logged : last_activated none s.history ≡ s.active_variant_id
  pub modifiers : NoRepeat s.instruction_modifiers

-- `crypto.randomUUID` draws an id that no variant has.
abbrev pub IsFresh : Action → ContentSession → Type 0
IsFresh (append_variant id r o) s = includes (variant_ids s.variants) id ≡ false
IsFresh (restore_variant from id) s = includes (variant_ids s.variants) id ≡ false
IsFresh _ s = Unit

pub data Reached : ContentSession → Type 0 where
  started : (id now : String) → Reached (create_empty_session id now)
  acted :
      (s : ContentSession) (now : String) (a : Action)
      → Reached s
      → IsFresh a s
      → Reached (perform now a s)

-- A new variant at the end, which becomes the active one.
added-IsSound :
    (s : ContentSession) (v : ContentVariant) (now : String) (e : ContentSessionEvent)
    → IsSound s
    → includes (variant_ids s.variants) v.id ≡ false
    → v.index ≡ length s.variants + 1
    → IsSound (record s {
      updated_at = now;
      variants = s.variants ++ v ∷ [];
      active_variant_id = some v.id;
      history = s.history ++ e ∷ variant_activated now v.id ∷ [];
    })
added-IsSound s v now e i fresh numbered = record {
  distinct =
      subst NoRepeat (sym (variant_ids-concat s.variants v))
        (NoRepeat-concat (variant_ids s.variants) v.id i.distinct fresh);
  numbered = Numbered-concat 1 s.variants v i.numbered numbered;
  active = ground (
    arith,
    ap (λ ids. includes ids v.id) (variant_ids-concat s.variants v),
    includes-append (variant_ids s.variants) (v.id ∷ []) v.id,
    (eq_iff v.id v.id).1 refl,
  );
  logged = last_activated-append none s.history (e ∷ variant_activated now v.id ∷ []) ∙ after e;
  modifiers = i.modifiers;
}
  where
    after :
        (e : ContentSessionEvent)
        → last_activated (last_activated none s.history) (e ∷ variant_activated now v.id ∷ [])
          ≡ some v.id
    after (session_created _) = refl
    after (config_changed _ _) = refl
    after (modifier_toggled _ _ _) = refl
    after (variant_generated _ _) = refl
    after (variant_activated _ _) = refl
    after (variant_restored _ _ _) = refl
    after (distributed _ _ _) = refl

toggle_text-NoRepeat : (m : String) (ms : List String) → NoRepeat ms → NoRepeat (toggle_text m ms)
toggle_text-NoRepeat m ms h = elim (Bool-cases (includes ms m)) [
  | inl old ↦ rw old (NoRepeat-without m ms h)
  | inr new ↦ rw new (NoRepeat-concat ms m h new)
]

edit-IsSound :
    (now content : String) (active : Option String) (s : ContentSession)
    → IsSound s
    → IsSound (edit_active now content active s)
edit-IsSound now content none s i = i
edit-IsSound now content (some active) s i = elim (Bool-cases (active == "")) [
  | inl empty ↦ rw empty i
  | inr other ↦ rw other (record {
    distinct = subst NoRepeat (sym (variant_ids-edit active content s.variants)) i.distinct;
    numbered = Numbered-edit 1 active content s.variants i.numbered;
    active =
        subst (λ ids. is_variant s.active_variant_id ids ≡ true)
          (sym (variant_ids-edit active content s.variants)) i.active;
    logged = i.logged;
    modifiers = i.modifiers;
  })
]

restored-IsSound :
    (now from id : String) (source : Option ContentVariant) (s : ContentSession)
    → IsSound s
    → includes (variant_ids s.variants) id ≡ false
    → IsSound (restore_from now from id source s)
restored-IsSound now from id none s i fresh = i
restored-IsSound now from id (some source) s i fresh =
    added-IsSound s
      (record source { id = id; index = length s.variants + 1; created_at = now; origin = restore })
      now (variant_restored now from id) i fresh refl

activated-IsSound :
    (known : Bool) (now id : String) (s : ContentSession)
    → includes (variant_ids s.variants) id ≡ known
    → IsSound s
    → IsSound (
        if not known then s else record s {
          updated_at = now;
          active_variant_id = some id;
          history = s.history ++ variant_activated now id ∷ [];
        })
activated-IsSound false now id s h i = i
activated-IsSound true now id s h i = record {
  distinct = i.distinct;
  numbered = i.numbered;
  active = h;
  logged = last_activated-append none s.history (variant_activated now id ∷ []);
  modifiers = i.modifiers;
}

-- The parts of a session that soundness speaks of are the same.
kept-IsSound :
    (s s' : ContentSession)
    → IsSound s
    → s'.variants ≡ s.variants
    → s'.active_variant_id ≡ s.active_variant_id
    → last_activated none s'.history ≡ last_activated none s.history
    → NoRepeat s'.instruction_modifiers
    → IsSound s'
kept-IsSound s s' i vs active history modifiers = record {
  distinct = subst (λ xs. NoRepeat (variant_ids xs)) (sym vs) i.distinct;
  numbered = subst (Numbered 1) (sym vs) i.numbered;
  active = ap₂ (λ o xs. is_variant o (variant_ids xs)) active vs ∙ i.active;
  logged = history ∙ i.logged ∙ sym active;
  modifiers = modifiers;
}

perform-IsSound :
    (now : String) (a : Action) (s : ContentSession)
    → IsSound s
    → IsFresh a s
    → IsSound (perform now a s)
unfolding perform create_empty_session
perform-IsSound now (update_product_context patch) s i f =
    kept-IsSound s _ i refl refl refl i.modifiers
perform-IsSound now (update_config patch) s i f =
    kept-IsSound s _ i refl refl
      (last_activated-append none s.history (config_changed now (patch s.config) ∷ [])) i.modifiers
perform-IsSound now (toggle_modifier m) s i f =
    kept-IsSound s _ i refl refl
      (last_activated-append none s.history
        (modifier_toggled now m (not (includes s.instruction_modifiers m)) ∷ []))
      (toggle_text-NoRepeat m s.instruction_modifiers i.modifiers)
perform-IsSound now (set_suggestions_open shown) s i f =
    kept-IsSound s _ i refl refl refl i.modifiers
perform-IsSound now (set_advanced_open shown) s i f = kept-IsSound s _ i refl refl refl i.modifiers
perform-IsSound now (set_compare_variant_ids ids) s i f =
    kept-IsSound s _ i refl refl refl i.modifiers
perform-IsSound now (activate_variant id) s i f =
    activated-IsSound (includes (variant_ids s.variants) id) now id s refl i
perform-IsSound now (append_variant id response origin) s i f =
    added-IsSound s (build_variant now id s response origin) now (variant_generated now id) i f refl
perform-IsSound now (update_active_content content) s i f =
    edit-IsSound now content s.active_variant_id s i
perform-IsSound now (restore_variant from id) s i f =
    restored-IsSound now from id (find_variant from s.variants) s i f
perform-IsSound now (log_distribution kind id) s i f =
    kept-IsSound s _ i refl refl
      (last_activated-append none s.history (distributed kind now id ∷ [])) i.modifiers
perform-IsSound now (reset_studio id) s i f = record {
  distinct = tt;
  numbered = tt;
  active = refl;
  logged = refl;
  modifiers = tt;
}

-- In every session that the studio reaches from an empty one, by any actions that draw fresh ids:
-- no two variants have the same id, they are numbered from one on without a gap, the active variant
-- is one of them, it is the one that the history activated last, and no modifier is there twice.
pub Reached-IsSound : (s : ContentSession) → Reached s → IsSound s
unfolding create_empty_session
Reached-IsSound _ (started id now) = record {
  distinct = tt;
  numbered = tt;
  active = refl;
  logged = refl;
  modifiers = tt;
}
Reached-IsSound _ (acted s now a r f) = perform-IsSound now a s (Reached-IsSound s r) f
