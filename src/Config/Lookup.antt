-- ===== src/Config/Lookup.antt =====
-- What an update does to the lookups behind it, in every domain.
use umbongo.Base.{
  ℕ, ◌≡◌, refl, sym, ap, ◌∙◌, List, [], ◌∷◌, none, some, true, false, ◌&&◌, if◌then◌else◌,
  Bool-cases, inl, inr, arith,
}
use umbongo.Strings.{same_view, same_view_iff}
use umbongo.Config.{KeyValue, Domain, lookup_pairs, update_pairs, lookup}
use umbongo.Config.Requests.{update, lookup_all, update_all}

-- Views that are the same are compared alike.
same_view_trans : (a b c : List ℕ) → same_view a b ≡ true → same_view a c ≡ same_view b c
same_view_trans a b c h = ap (λ t. same_view t c) ((same_view_iff a b).0 h)

same_view-right : (a b c : List ℕ) → same_view b c ≡ true → same_view a c ≡ same_view a b
same_view-right a b c h = ap (λ t. same_view a t) (sym ((same_view_iff b c).0 h))

lookup_pairs-update_pairs :
    (key key' value : List ℕ) (pairs : List KeyValue)
    → lookup_pairs key' (update_pairs key value pairs).1 ≡ (
        if same_view key key' && (update_pairs key value pairs).0
        then some value
        else lookup_pairs key' pairs)
unfolding lookup_pairs update_pairs
lookup_pairs-update_pairs key key' value [] = ground arith
lookup_pairs-update_pairs key key' value (pair ∷ pairs) =
    let rest = lookup_pairs-update_pairs key key' value pairs in
    elim (Bool-cases (same_view pair.key key)) [
      | inl here ↦ ground (arith, here, same_view_trans pair.key key key' here)
      | inr there ↦ ground (arith, there, rest, same_view-right pair.key key key')
    ]

-- `update` of a domain, whether or not it has the key.
lookup-update :
    (key key' value : List ℕ) (domain : Domain)
    → lookup key' (update key value domain).1 ≡ (
        if same_view key key' && (update key value domain).0
        then some value
        else lookup key' domain)
unfolding update
lookup-update key key' value domain =
    let pairs = lookup_pairs-update_pairs key key' value domain.key_values in
    elim (Bool-cases (update_pairs key value domain.key_values).0) [
      | inl found ↦ ground (arith, found, pairs)
      | inr missing ↦ ground (arith, missing, pairs)
    ]

lookup_pairs-none :
    (key value : List ℕ) (pairs : List KeyValue)
    → (update_pairs key value pairs).0 ≡ false
    → lookup_pairs key pairs ≡ none
unfolding lookup_pairs update_pairs
lookup_pairs-none key value [] h = refl
lookup_pairs-none key value (pair ∷ pairs) h = ground (arith, lookup_pairs-none key value pairs)

update-name :
    (key value : List ℕ) (domain : Domain) → (update key value domain).1.name ≡ domain.name
unfolding update
update-name key value domain = ground arith

update-found :
    (key value : List ℕ) (domain : Domain)
    → (update key value domain).0 ≡ (update_pairs key value domain.key_values).0
unfolding update
update-found key value domain = ground arith

lookup-none :
    (key value : List ℕ) (domain : Domain)
    → (update key value domain).0 ≡ false
    → lookup key domain ≡ none
lookup-none key value domain h =
    lookup_pairs-none key value domain.key_values (sym (update-found key value domain) ∙ h)

lookup-same :
    (key key' : List ℕ) (domain : Domain)
    → same_view key key' ≡ true
    → lookup key' domain ≡ lookup key domain
lookup-same key key' domain h = ap (λ t. lookup t domain) (sym ((same_view_iff key key').0 h))

-- After an update of a domain's key, a lookup of that key in that domain finds the new value if the
-- update found the key; every other lookup finds what it did before.
pub lookup_all-update_all :
    (name name' key key' value : List ℕ) (domains : List Domain)
    → lookup_all name' key' (update_all name key value domains).1 ≡ (
        if same_view name name' && same_view key key' && (update_all name key value domains).0
        then some value
        else lookup_all name' key' domains)
unfolding lookup_all update_all
lookup_all-update_all name name' key key' value [] = ground arith
lookup_all-update_all name name' key key' value (domain ∷ domains) =
    let rest = lookup_all-update_all name name' key key' value domains in
    let here = lookup-update key key' value domain in
    let right = same_view-right domain.name name name' in
    elim (Bool-cases (same_view domain.name name)) [
      | inr other ↦ ground (arith, other, rest, right)
      | inl same ↦
          let shift = same_view_trans domain.name name name' same in
          let named : same_view (update key value domain).1.name name' ≡ same_view name name' =
            rw (update-name key value domain) shift in
          elim (Bool-cases (update key value domain).0) [
            | inl found ↦ ground (arith, same, found, here, shift, named)
            | inr missing ↦ ground (
              arith,
              same,
              missing,
              rest,
              shift,
              lookup-none key value domain missing,
              lookup-same key key' domain,
            )
          ]
    ]
