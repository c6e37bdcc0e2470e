-- ===== src/HomeAssistant/Targets.antt =====
-- What a reference is resolved to.
use mathlib.Core.Path.{subst}
use mathlib.Core.Option.{some-injective}
use nyra.Base.{
  ◌≡◌, refl, sym, ap, length, String, true, Option, some, is_some, List, [], ◌∷◌, All, order_by,
  All-order_by, ◌∙◌, arith, Result, ok, >>=-eq-ok, Bool-cases, Option-cases, inl, inr, ◌⊎◌, ◌==◌,
  eq_iff, Occurs, any-Occurs, all-All, List-cases,
}
use nyra.Capability.{
  NyraResourceType, resource_type_value, parse_resource_type,
  parse_resource_type-resource_type_value,
}
use nyra.Plans.{ResolveStatus, resolved_one}
use nyra.HomeAssistant.Resolve.{
  one_resource, ResourceReference, NativeEntity, ResolveCandidate, query_tokens, searchable_tokens,
  has_token, fits_type, is_subset, fits_query, candidate_for, is_candidate, type_of_entity,
  candidates_of, ranks_candidate, status_of, wanted_area, area_ids_of, resolve_reference,
}

module _ (casefold : String → String) (reference : ResourceReference) where
  -- What a candidate is: one of the states, by its identifier and name, of the type that its identifier begins with,
  -- which is the one that is named where one is; one of the resources that may be used, where these are told, and of the
  -- area, where one is looked in; and with all words of the query, unless the query has none, or is the one word that
  -- stands for a type in the area.
  pub record IsTarget (allowed ids : Option (List String)) (natives : List NativeEntity)
      (c : ResolveCandidate) : Type 0 where
    pub listed : Occurs (record { entity_id = some c.resource_id; friendly_name = c.name }) natives
    pub typed : type_of_entity casefold reference c.resource_id ≡ some c.resource_type
    pub wanted : (t : NyraResourceType) → reference.resource_type ≡ some t → c.resource_type ≡ t
    pub permitted : (xs : List String) → allowed ≡ some xs → Occurs c.resource_id xs
    pub inside : (xs : List String) → ids ≡ some xs → Occurs c.resource_id xs
    pub worded :
        (query_tokens casefold reference ≡ [])
        ⊎ ((length (query_tokens casefold reference) ≡ 1) × (is_some ids ≡ true))
        ⊎ All
            (λ word. Occurs word (searchable_tokens casefold reference c.resource_id c.name))
            (query_tokens casefold reference)

  resource_type_value-eq :
      (a b : NyraResourceType) → (resource_type_value a == resource_type_value b) ≡ true → b ≡ a
  resource_type_value-eq a b h = some-injective b a (
      sym (parse_resource_type-resource_type_value b)
      ∙ ap parse_resource_type (sym ((eq_iff (resource_type_value a) (resource_type_value b)).0 h))
      ∙ parse_resource_type-resource_type_value a)

  has_token-Occurs : (xs : List String) (x : String) → has_token xs x ≡ true → Occurs x xs
  has_token-Occurs xs x h =
      let (y, occurs, same) = any-Occurs (λ t. t == x) xs h in
      subst (λ z. Occurs z xs) ((eq_iff y x).0 same) occurs

  fits_query-worded :
      (ids : Option (List String)) (id : String) (name : Option String)
      → fits_query casefold reference ids id name ≡ true
      → (query_tokens casefold reference ≡ [])
        ⊎ ((length (query_tokens casefold reference) ≡ 1) × (is_some ids ≡ true))
        ⊎ All
            (λ word. Occurs word (searchable_tokens casefold reference id name))
            (query_tokens casefold reference)
  fits_query-worded ids id name h =
      let words = query_tokens casefold reference in
      let there = searchable_tokens casefold reference id name in
      elim (List-cases words) [
        | inl e ↦ inl e
        | inr (w, ws, e) ↦ elim (Bool-cases (is_subset words there)) [
          | inl f ↦ inr (
              inr (
                all-All (has_token there) (λ word. Occurs word there) words (has_token-Occurs there)
                  f))
          | inr f ↦ inr (inl (ground arith, ground arith))
        ]
      ]

  is_candidate-IsTarget :
      (allowed ids : Option (List String)) (natives : List NativeEntity) (native : NativeEntity)
      (id : String) (type : NyraResourceType)
      → Occurs native natives
      → native.entity_id ≡ some id
      → type_of_entity casefold reference id ≡ some type
      → is_candidate casefold reference allowed ids id native.friendly_name type ≡ true
      → IsTarget allowed ids natives (candidate_for casefold reference id native.friendly_name type)
  is_candidate-IsTarget allowed ids natives native id type stands named f g = record {
    listed = subst (λ n. Occurs n natives) (ap (λ e. record native { entity_id = e }) named) stands;
    typed = f;
    wanted = λ t e.
        let fits : fits_type reference.resource_type type ≡ true = ground arith in
        sym (resource_type_value-eq type t (rw e at fits));
    permitted = λ xs e. has_token-Occurs xs id (ground arith);
    inside = λ xs e. has_token-Occurs xs id (ground arith);
    worded = fits_query-worded ids id native.friendly_name (ground arith);
  }

  candidates_of-IsTarget :
      (allowed ids : Option (List String)) (all_natives natives : List NativeEntity)
      → ((n : NativeEntity) → Occurs n natives → Occurs n all_natives)
      → All
          (IsTarget allowed ids all_natives)
          (candidates_of casefold reference allowed ids natives)
  unfolding candidates_of
  candidates_of-IsTarget allowed ids all_natives [] among = tt
  candidates_of-IsTarget allowed ids all_natives (native ∷ natives) among =
      let rest = candidates_of-IsTarget allowed ids all_natives natives (λ n o. among n (inr o)) in
      elim (Option-cases native.entity_id) [
        | inl e ↦ rw (candidates_of, e) rest
        | inr (id, e) ↦ elim (Option-cases (type_of_entity casefold reference id)) [
          | inl f ↦ rw (candidates_of, e, f) rest
          | inr (type, f) ↦
              elim (Bool-cases
                (is_candidate casefold reference allowed ids id native.friendly_name type)) [
                  | inl g ↦
                      let target =
                        is_candidate-IsTarget allowed ids all_natives native id type
                          (among native (inl refl)) e f g in
                      rw (candidates_of, e, f, g) (target, rest)
                  | inr g ↦ rw (candidates_of, e, f, g) rest
                ]
        ]
      ]

  single :
      (cs : List ResolveCandidate)
      → status_of casefold reference cs ≡ resolved_one
      → reference.cardinality ≡ one_resource
      → length cs ≡ 1
  single [] h one = absurd (ground arith)
  single (c ∷ []) h one = omega arith
  single (c ∷ d ∷ more) h one = absurd (ground arith)

  -- Every candidate of a reference is one of the states of Home Assistant, is of the type that its identifier says and of
  -- the type that is asked for, is one of the resources that may be used and of the area that is looked in, and has all
  -- words of the query, which may also be empty, or one word in an area; and a reference to one resource is RESOLVED only
  -- with one candidate.
  pub resolve_reference-AllTargets :
      (states : Result String (List NativeEntity))
      (area_entities : String → Result String (List String)) (allowed : Option (List String))
      (area : Option String) (status : ResolveStatus) (cs : List ResolveCandidate)
      → resolve_reference casefold reference states area_entities allowed area ≡ ok (status, cs)
      → ((natives : List NativeEntity) × (ids : Option (List String)) × (states ≡ ok natives)
          × (area_ids_of casefold reference area_entities (wanted_area casefold reference area)
              ≡ ok ids)
          × All (IsTarget allowed ids natives) cs)
        × (status ≡ resolved_one → reference.cardinality ≡ one_resource → length cs ≡ 1)
  unfolding resolve_reference
  resolve_reference-AllTargets states area_entities allowed area status cs e =
      let (natives, f, g) = >>=-eq-ok states _ e in
      let (ids, h, i) =
        >>=-eq-ok
          (area_ids_of casefold reference area_entities (wanted_area casefold reference area)) _
          g in
      let ranked =
        order_by (ranks_candidate casefold reference)
          (candidates_of casefold reference allowed ids natives) in
      let same : ranked ≡ cs = cc in
      let status_same : status_of casefold reference ranked ≡ status = cc in
      (
        (
          natives,
          ids,
          f,
          h,
          subst (All (IsTarget allowed ids natives)) same (
              All-order_by (ranks_candidate casefold reference) (IsTarget allowed ids natives) _
                (candidates_of-IsTarget allowed ids natives natives (λ n o. o))),
        ),
        λ resolved one.
            subst (λ xs. length xs ≡ 1) same (single ranked (status_same ∙ resolved) one),
      )
