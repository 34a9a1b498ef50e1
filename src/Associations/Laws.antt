-- ===== src/Associations/Laws.antt =====
-- One association for each link that a reference names, with the fields that named it.
use opencode_gateway.Prelude.{
  indicator, ◌+◌, ◌≡◌, refl, ◌∙◌, Bool, true, ◌&&◌, ◌||◌, not, String, some, List, [], ◌∷◌, arith,
  string_eq, ◌==◌, if◌then◌else◌, any, filter, length,
}
use opencode_gateway.Associations.{
  Reference, Source, Association, ResourceLink, resource_link_eq, link_of, linked, text_leb,
  tuple_leb, sort_key, put_source, merge_source_reference, opened, absorb, group_one, group_all,
  derive_exact_associations,
}
use opencode_gateway.Associations.Sort.{any-sort_by, length-filter-sort_by}

unfoldable pub names : ResourceLink → Association → Bool
names k a = linked a == k

unfoldable pub refers : ResourceLink → Reference → Bool
refers k r = link_of r == k

abbrev pub has_field : String → List Source → Bool
has_field f ss = any (λ (s : Source). s.field == f) ss

abbrev pub carries : ResourceLink → String → Association → Bool
carries k f a = names k a && has_field f a.source_reference

names-absorb :
    (k : ResourceLink) (r : Reference) (a : Association) → names k (absorb r a) ≡ names k a
unfolding names absorb
names-absorb k r a = refl

names-opened :
    (k : ResourceLink) (v : String) (r : Reference) → names k (absorb r (opened v r)) ≡ refers k r
unfolding names absorb refers
names-opened k v r = refl

same_link :
    (k : ResourceLink) (r : Reference) (a : Association)
    → linked a ≡ link_of r
    → names k a ≡ refers k r
unfolding names refers
same_link k r a e = ground arith

both_link :
    (k : ResourceLink) (r : Reference) (a : Association)
    → names k a ≡ true
    → refers k r ≡ true
    → linked a ≡ link_of r
unfolding names refers
both_link k r a h e = ground arith

any-names-group_one :
    (k : ResourceLink) (v : String) (r : Reference) (g : List Association)
    → any (names k) (group_one v r g) ≡ (refers k r || any (names k) g)
unfolding any group_one
any-names-group_one k v r [] = ground (arith, names-opened k v r)
any-names-group_one k v r (a ∷ g) =
    ground (arith, any-names-group_one k v r g, names-absorb k r a, same_link k r a)

count-group_one :
    (k : ResourceLink) (v : String) (r : Reference) (g : List Association)
    → length (filter (names k) (group_one v r g))
      ≡ length (filter (names k) g) + indicator (refers k r && not (any (names k) g))
unfolding filter any group_one
count-group_one k v r [] = ground (arith, names-opened k v r)
count-group_one k v r (a ∷ g) =
    ground (arith, count-group_one k v r g, names-absorb k r a, same_link k r a, both_link k r a)

count-group_all :
    (k : ResourceLink) (v : String) (rs : List Reference) (g : List Association)
    → length (filter (names k) g) ≡ indicator (any (names k) g)
    → length (filter (names k) (group_all v rs g))
      ≡ indicator (any (names k) g || any (refers k) rs)
unfolding group_all any
count-group_all k v [] g h = ground arith
count-group_all k v (r ∷ rs) g h =
    let step = any-names-group_one k v r g in
    let more = count-group_one k v r g in
    let rest = count-group_all k v rs (group_one v r g) in ground arith

count-nil : (k : ResourceLink) → length (filter (names k) []) ≡ indicator (any (names k) [])
unfolding filter any
count-nil k = refl

-- The associations hold exactly one entry for a link that some reference names, and none for any
-- other link.
pub one_association :
    (version : String) (k : ResourceLink) (rs : List Reference)
    → length (filter (names k) (derive_exact_associations version rs))
      ≡ (if any (refers k) rs then 1 else 0)
unfolding derive_exact_associations any
one_association version k rs =
    length-filter-sort_by (λ (a b : Association). tuple_leb (sort_key a) (sort_key b)) (names k)
      (group_all version rs [])
    ∙ count-group_all k version rs [] (count-nil k)

has_field-put :
    (f : String) (s : Source) (ss : List Source)
    → has_field f (put_source s ss) ≡ (s.field == f || has_field f ss)
unfolding any put_source
has_field-put f s [] = refl
has_field-put f s (t ∷ ss) = ground (arith, has_field-put f s ss)

has_field-merge :
    (f field number : String) (ss : List Source)
    → has_field f (merge_source_reference ss field number) ≡ (field == f || has_field f ss)
unfolding merge_source_reference
has_field-merge f field number ss =
    any-sort_by (λ (s t : Source). text_leb s.field t.field) (λ s. s.field == f) _
    ∙ has_field-put f (record { field = field; detail = some number }) ss

carries-absorb :
    (k : ResourceLink) (f : String) (r : Reference) (a : Association)
    → carries k f (absorb r a)
      ≡ (names k a && (r.source_field == f || has_field f a.source_reference))
unfolding absorb names
carries-absorb k f r a =
    ground (arith, has_field-merge f r.source_field r.resource_number a.source_reference)

carries-opened :
    (k : ResourceLink) (f v : String) (r : Reference)
    → carries k f (absorb r (opened v r)) ≡ (refers k r && r.source_field == f)
unfolding absorb names refers any
carries-opened k f v r = ground (arith, has_field-merge f r.source_field r.resource_number [])

carries-group_one :
    (k : ResourceLink) (f v : String) (r : Reference) (g : List Association)
    → any (carries k f) (group_one v r g)
      ≡ ((refers k r && r.source_field == f) || any (carries k f) g)
unfolding group_one any
carries-group_one k f v r [] = ground (arith, carries-opened k f v r)
carries-group_one k f v r (a ∷ g) =
    ground (arith, carries-group_one k f v r g, carries-absorb k f r a, same_link k r a)

carries-group_all :
    (k : ResourceLink) (f v : String) (rs : List Reference) (g : List Association)
    → any (carries k f) (group_all v rs g)
      ≡ (any (carries k f) g || any (λ r. refers k r && r.source_field == f) rs)
unfolding group_all any
carries-group_all k f v [] g = ground arith
carries-group_all k f v (r ∷ rs) g =
    ground (arith, carries-group_all k f v rs (group_one v r g), carries-group_one k f v r g)

carries-nil : (k : ResourceLink) (f : String) (b : Bool) → (any (carries k f) [] || b) ≡ b
unfolding any
carries-nil k f b = refl

-- An association of a link lists a source field exactly when a reference to that link came from
-- that field.
pub provenance_is_exact :
    (version : String) (k : ResourceLink) (f : String) (rs : List Reference)
    → any (carries k f) (derive_exact_associations version rs)
      ≡ any (λ r. refers k r && r.source_field == f) rs
unfolding derive_exact_associations
provenance_is_exact version k f rs =
    any-sort_by (λ (a b : Association). tuple_leb (sort_key a) (sort_key b)) (carries k f)
      (group_all version rs [])
    ∙ (carries-group_all k f version rs [] ∙ carries-nil k f _)
