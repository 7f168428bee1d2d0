-- ===== src/Config/Groups/Tags.antt =====
-- The tags that `Config::validate` of src/config/mod.rs collects from the outbounds.
use model_lib.Prelude.{
  ◌≡◌, inl, inr, refl, sym, ap, subst, arith, Bytes, bytes_eq, bytes_eq_iff, Bool, true, false,
  ◌||◌, Bool-cases, Result, ok, err, map_err, >>=-eq-ok, refuse_if-eq-ok, ok_inj, List, [], ◌∷◌,
  any,
}
use model_lib.Config.Outbound.{OutboundConfig, tag_of}
use model_lib.Config.Cycles.{member, validate_outbound_group_cycles}
use model_lib.Config.Cycles.Paths.{member-head, member-tail}
use model_lib.Config.Groups.{
  group_cycle, invalid_uuid, duplicate_outbound, check_uuid, check_tags, check_groups,
  validate_outbounds,
}

-- Some outbound has the tag.
abbrev pub has_tag : List OutboundConfig → Bytes → Bool
has_tag os t = any (λ o. bytes_eq t (tag_of o)) os

abbrev pub IsDistinct : List OutboundConfig → Type 0
IsDistinct [] = Unit
IsDistinct (o ∷ os) = (has_tag os (tag_of o) ≡ false) × IsDistinct os

pub map_err-eq-ok :
    {E F A : Type 0} (f : E → F) (r : Result E A) {a : A} → map_err f r ≡ ok a → r ≡ ok a
map_err-eq-ok f (ok x) h = ap ok (ok_inj _ h)
map_err-eq-ok f (err e) h = absurd (cc)

-- What is collected is what was there and the tags of the outbounds.
pub check_tags-has_tag :
    (acc : List Bytes) (os : List OutboundConfig) {tags : List Bytes}
    → check_tags acc os ≡ ok tags
    → (t : Bytes) → member t tags ≡ true
    → (member t acc || has_tag os t) ≡ true
unfolding check_tags
check_tags-has_tag acc [] h t m =
    ground (arith, subst (λ x. member t x ≡ true) (sym (ok_inj _ h)) m)
check_tags-has_tag acc (o ∷ os) h t m =
    let (new, h1) = refuse_if-eq-ok (member (tag_of o) acc) (duplicate_outbound (tag_of o)) _ h in
    let (_, _, h2) = >>=-eq-ok (map_err (invalid_uuid (tag_of o)) (check_uuid o)) _ h1 in
    let ih = check_tags-has_tag (tag_of o ∷ acc) os h2 t m in
    swap (bytes_eq t (tag_of o)) (member t acc) (has_tag os t) ih
  where
    swap : (a b c : Bool) → ((a || b) || c) ≡ true → (b || (a || c)) ≡ true
    swap a b c h = ground (arith, h)

-- No outbound has a tag that is collected.
check_tags-new :
    (acc : List Bytes) (os : List OutboundConfig) {tags : List Bytes}
    → check_tags acc os ≡ ok tags
    → (t : Bytes) → member t acc ≡ true
    → has_tag os t ≡ false
unfolding check_tags
check_tags-new acc [] h t m = refl
check_tags-new acc (o ∷ os) h t m =
    let (new, h1) = refuse_if-eq-ok (member (tag_of o) acc) (duplicate_outbound (tag_of o)) _ h in
    let (_, _, h2) = >>=-eq-ok (map_err (invalid_uuid (tag_of o)) (check_uuid o)) _ h1 in
    let ih = check_tags-new (tag_of o ∷ acc) os h2 t (member-tail t (tag_of o) acc m) in
    elim (Bool-cases (bytes_eq t (tag_of o))) [
      | inl e ↦
          absurd (cc (subst (λ x. member x acc ≡ true) ((bytes_eq_iff t (tag_of o)).0 e) m, new))
      | inr e ↦ ground (arith, e, ih)
    ]

pub check_tags-IsDistinct :
    (acc : List Bytes) (os : List OutboundConfig) {tags : List Bytes}
    → check_tags acc os ≡ ok tags
    → IsDistinct os
unfolding check_tags
check_tags-IsDistinct acc [] h = tt
check_tags-IsDistinct acc (o ∷ os) h =
    let (new, h1) = refuse_if-eq-ok (member (tag_of o) acc) (duplicate_outbound (tag_of o)) _ h in
    let (_, _, h2) = >>=-eq-ok (map_err (invalid_uuid (tag_of o)) (check_uuid o)) _ h1 in
    (
      check_tags-new (tag_of o ∷ acc) os h2 (tag_of o) (member-head (tag_of o) acc),
      check_tags-IsDistinct (tag_of o ∷ acc) os h2,
    )

-- What the checks of the outbounds return are tags of outbounds.
pub validate_outbounds-has_tag :
    (os : List OutboundConfig) (provider_tags keys : List Bytes) {tags : List Bytes}
    → validate_outbounds os provider_tags keys ≡ ok tags
    → (t : Bytes) → member t tags ≡ true
    → has_tag os t ≡ true
unfolding validate_outbounds
validate_outbounds-has_tag os provider_tags keys h t m =
    let (tags, unique, h1) = >>=-eq-ok (check_tags [] os) _ h in
    let (_, _, h2) = >>=-eq-ok (check_groups tags provider_tags os) _ h1 in
    let (_, _, h3) =
      >>=-eq-ok (map_err group_cycle (validate_outbound_group_cycles os keys)) _ h2 in
    check_tags-has_tag [] os unique t (subst (λ x. member t x ≡ true) (sym (ok_inj _ h3)) m)
