-- ===== src/Advice/Diffs.antt =====
-- The differences between two rule runs.
use pgproof.Common.{
  String, false, not, Option, none, some, List, [], ◌∷◌, ◌++◌, ◌≡◌, ◌≢◌, ◌↔◌, inl, inr, refl, sym,
  ap, ◌∙◌, subst, arith, map, In, ◌==◌, text_equality, option_equality, keep, keep-In, In-keep,
  Bool-cases, eq_of_test, test_of_eq, contains, contains→In, In→contains, In-map, map-In,
  In-append_cases, In-append_left, In-append_right, if◌then◌else◌, Option-cases,
}
use pgproof.Common.Dict.{Dict, put, get, keys, get-put, get-keys}
use pgproof.Common.Sets.{unique, In-unique, unique-In}
use pgproof.Common.Sorting.{text_le, In-sort_by, sort_by-In}
use pgproof.Advice.Questions.{ContextIr}
use pgproof.Advice.Recommendations.{Recommendation, RecommendationSet}
use pgproof.Advice.Equality.{recommendation_equality}
use pgproof.Advice.Scenarios.{
  DeltaKind, added, removed, changed, ScenarioDelta, sole_changed_answer, recommendations_by_id,
  delta, minus, common, diff_recommendations,
}

-- What a set reports under an id: the last recommendation with that id.
unfoldable pub last_with : String → List Recommendation → Option Recommendation
last_with id [] = none
last_with id (item ∷ items) = elim (last_with id items) [
  | some later ↦ some later
  | none ↦ if item.id == id then some item else none
]

get-recommendations_by_id :
    (items : List Recommendation) (d : Dict String Recommendation) (id : String)
    → get id (recommendations_by_id items d)
      ≡ elim (last_with id items) [ some later ↦ some later | none ↦ get id d ]
unfolding recommendations_by_id last_with
get-recommendations_by_id [] d id = refl
get-recommendations_by_id (item ∷ items) d id =
    ground
      (arith, get-recommendations_by_id items (put item.id item d) id, get-put item.id id item d)

-- How two reports of one id differ.
abbrev pub Differs : DeltaKind → Option Recommendation → Option Recommendation → Type 0
Differs added none (some new) = Unit
Differs removed (some old) none = Unit
Differs changed (some old) (some new) = old ≢ new
Differs _ _ _ = ⊥

last_with-get :
    (items : List Recommendation) (id : String)
    → get id (recommendations_by_id items []) ≡ last_with id items
unfolding get last_with
last_with-get items id = get-recommendations_by_id items [] id ∙ itself (last_with id items)
  where
    itself : (o : Option Recommendation) → (elim o [ some later ↦ some later | none ↦ none ]) ≡ o
    itself none = refl
    itself (some r) = refl

keys-get :
    (id : String) (d : Dict String Recommendation) (v : Recommendation)
    → get id d ≡ some v
    → In id (keys d)
unfolding get
keys-get id [] v h = cc h
keys-get id ((k, w) ∷ d) v h = elim (Bool-cases (k == id)) [
  | inl t ↦ inl (sym (eq_of_test k id t))
  | inr f ↦ inr (keys-get id d v (rw f at h))
]

no_key :
    (id : String) (d : Dict String Recommendation) → get id d ≡ none → contains id (keys d) ≡ false
no_key id d h = elim (Bool-cases (contains id (keys d))) [
  | inl t ↦ let (v, e) = get-keys id d (contains→In id (keys d) t) in cc (e, h)
  | inr f ↦ f
]

module _ (id : String) (a b : List String) where
  minus-In : In id (minus a b) → In id a × (contains id b ≡ false)
  unfolding minus
  minus-In m =
      let (k, t) = keep-In (λ x. not (contains x b)) id (unique a) (sort_by-In text_le id _ m) in
      (unique-In id a k, ground (arith, t))

  In-minus : In id a → contains id b ≡ false → In id (minus a b)
  unfolding minus
  In-minus m f =
      In-sort_by text_le id _
        (In-keep (λ x. not (contains x b)) id (unique a) (In-unique id a m) (ap not f))

  common-In : In id (common a b) → In id a × In id b
  unfolding common
  common-In m =
      let (k, t) = keep-In (λ x. contains x b) id (unique a) (sort_by-In text_le id _ m) in
      (unique-In id a k, contains→In id b t)

  In-common : In id a → In id b → In id (common a b)
  unfolding common
  In-common m n =
      In-sort_by text_le id _
        (In-keep (λ x. contains x b) id (unique a) (In-unique id a m) (In→contains id b n))

-- The three groups of ids, by what the two dictionaries hold.
module _ (id : String) (base target : Dict String Recommendation) where
  abbrev Reported : DeltaKind → Type 0
  Reported kind = Differs kind (get id base) (get id target)

  abbrev group : DeltaKind → List String
  group added = minus (keys target) (keys base)
  group removed = minus (keys base) (keys target)
  group changed = keep (λ x. not (get x base == get x target)) (common (keys base) (keys target))

  group-Reported : (kind : DeltaKind) → In id (group kind) → Reported kind
  group-Reported added m =
      let (k, f) = minus-In id (keys target) (keys base) m in
      let (v, e) = get-keys id target k in
      elim (Option-cases (get id base)) [
        | inl none_left ↦ rw (e, none_left) tt
        | inr (w, h) ↦ cc (In→contains id (keys base) (keys-get id base w h), f)
      ]
  group-Reported removed m =
      let (k, f) = minus-In id (keys base) (keys target) m in
      let (v, e) = get-keys id base k in
      elim (Option-cases (get id target)) [
        | inl none_left ↦ rw (e, none_left) tt
        | inr (w, h) ↦ cc (In→contains id (keys target) (keys-get id target w h), f)
      ]
  group-Reported changed m =
      let (both, t) =
        keep-In (λ x. not (get x base == get x target)) id (common (keys base) (keys target)) m in
      let (k, l) = common-In id (keys base) (keys target) both in
      let (v, e) = get-keys id base k in
      let (w, h) = get-keys id target l in
      rw (e, h)
        (λ same. cc (test_of_eq (get id base) (get id target) (e ∙ ap some same ∙ sym h), t))

  group-of :
      (kind : DeltaKind) (old new : Option Recommendation)
      → get id base ≡ old
      → get id target ≡ new
      → Differs kind old new
      → In id (group kind)
  group-of added none (some v) h e r =
      In-minus id (keys target) (keys base) (keys-get id target v e) (no_key id base h)
  group-of added none none h e r = elim r [ ]
  group-of added (some v) none h e r = elim r [ ]
  group-of added (some v) (some w) h e r = elim r [ ]
  group-of removed (some v) none h e r =
      In-minus id (keys base) (keys target) (keys-get id base v h) (no_key id target e)
  group-of removed none none h e r = elim r [ ]
  group-of removed none (some v) h e r = elim r [ ]
  group-of removed (some v) (some w) h e r = elim r [ ]
  group-of changed none none h e r = elim r [ ]
  group-of changed none (some v) h e r = elim r [ ]
  group-of changed (some v) none h e r = elim r [ ]
  group-of changed (some v) (some w) h e n =
      In-keep (λ x. not (get x base == get x target)) id (common (keys base) (keys target))
        (In-common id (keys base) (keys target) (keys-get id base v h) (keys-get id target w e))
        (elim (Bool-cases (get id base == get id target)) [
          | inl t ↦
              let same : some v ≡ some w = sym h ∙ eq_of_test (get id base) (get id target) t ∙ e in
              absurd (n (cc same))
          | inr f ↦ ap not f
        ])

in_group :
    (deltas : DeltaKind → List ScenarioDelta) (kind : DeltaKind) (x : ScenarioDelta)
    → In x (deltas kind)
    → In x (deltas added ++ deltas removed ++ deltas changed)
in_group deltas added x m =
    In-append_left x (deltas added ++ deltas removed) (deltas changed)
      (In-append_left x (deltas added) (deltas removed) m)
in_group deltas removed x m =
    In-append_left x (deltas added ++ deltas removed) (deltas changed)
      (In-append_right x (deltas added) (deltas removed) m)
in_group deltas changed x m = In-append_right x (deltas added ++ deltas removed) (deltas changed) m

-- Each delta of a diff has a kind and an id, and the diff reports an id as added, removed or changed
-- exactly where the two sets report it so; all deltas have the same cause.
pub diff_recommendations-Differs :
    (base target : RecommendationSet) (base_context target_context : ContextIr) (d : ScenarioDelta)
    → In d (diff_recommendations base target base_context target_context) ↔ (
        (kind : DeltaKind) × (id : String) × (d
          ≡ delta (sole_changed_answer base_context target_context) kind id)
        × Differs kind (last_with id base.recommendations) (last_with id target.recommendations))
unfolding diff_recommendations
diff_recommendations-Differs base target base_context target_context d =
    let b = recommendations_by_id base.recommendations [] in
    let t = recommendations_by_id target.recommendations [] in
    let cause = sole_changed_answer base_context target_context in
    let deltas : DeltaKind → List ScenarioDelta =
      λ kind. map (delta cause kind) (group "" b t kind) in
    let shown : (kind : DeltaKind) (m : In d (deltas kind))
        → (k : DeltaKind) × (id : String) × (d ≡ delta cause k id)
          × Differs k (last_with id base.recommendations) (last_with id target.recommendations) =
      λ kind m.
        let (id, k, e) = map-In (delta cause kind) d (group "" b t kind) m in
        (
          kind,
          id,
          e,
          subst (λ (o : Option Recommendation). Differs kind (last_with id base.recommendations) o)
              (last_with-get target.recommendations id)
              (subst (λ (o : Option Recommendation). Differs kind o (get id t))
                (last_with-get base.recommendations id) (group-Reported id b t kind k)),
        ) in
    (
      λ m. elim (In-append_cases d (deltas added ++ deltas removed) (deltas changed) m) [
        | inr k ↦ shown changed k
        | inl l ↦ elim (In-append_cases d (deltas added) (deltas removed) l) [
          | inl k ↦ shown added k
          | inr k ↦ shown removed k
        ]
      ],
      λ (kind, id, e, r).
          subst (λ (z : ScenarioDelta). In z (deltas added ++ deltas removed ++ deltas changed))
            (sym e)
            (in_group deltas kind (delta cause kind id) (
              In-map (delta cause kind) id (group "" b t kind) (
                group-of id b t kind _ _ (last_with-get base.recommendations id)
                  (last_with-get target.recommendations id) r))),
    )
