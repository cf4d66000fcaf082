-- ===== src/Flow/Router/Policy.antt =====
-- What the router lets through: exactly what the flows of the source permit.
use mathlib.Core.List.{cons-ne-nil}
use mathlib.Core.Bool.{false≢true}
use tinyrange_ad.Common.{
  sym, ◌∙◌, List, [], ◌∷◌, ◌++◌, Bool, true, false, ◌||◌, ◌≡◌, ◌≢◌, ◌↔◌, ◌⊎◌, inl, inr, refl, arith,
  Bool-cases,
}
use tinyrange_ad.Common.Text.{
  has_prefix, eqb, Bytes, codes, eqb_iff, eqb_ne, eqb_refl, has_prefix_sound, has_prefix-append,
}
use tinyrange_ad.Tags.{TagList, contains, contains_matching_prefix, contains_any}
use tinyrange_ad.Flow.{ParsedFlow}
use tinyrange_ad.Flow.Router.{FlowService, FlowInstance, admits, any_admits, handle_connection}

-- Some element of the list satisfies the predicate.
abbrev pub Any {ℓ} : {A : Type ℓ} → (A → Type 0) → List A → Type 0
Any P [] = ⊥
Any P (x ∷ xs) = P x ⊎ Any P xs

-- The rule names the target: `tag/*` any instance with a tag under `tag/`, and `tag/name` the ones
-- with this very tag.
abbrev pub NamesTarget : ParsedFlow → FlowInstance → Type 0
NamesTarget flow target =
    (flow.instance_name ≡ codes "*")
      × Any (λ t. (rest : Bytes) × (t ≡ (flow.tag ++ codes "/") ++ rest)) target.tags
    ⊎ (flow.instance_name ≢ codes "*")
      × Any (λ t. t ≡ flow.tag ++ (b'/' ∷ flow.instance_name)) target.tags

abbrev pub Permits : FlowInstance → FlowService → ParsedFlow → Type 0
Permits target service flow = NamesTarget flow target × Any (λ t. t ≡ flow.service) service.tags

-- The policy: a source with a tag, one of whose rules names the target and a tag of the service.
abbrev pub Permitted : FlowInstance → FlowInstance → FlowService → Type 0
Permitted source target service = (source.tags ≢ []) × Any (Permits target service) source.flows

or_iff :
    {P Q : Type 0} (a b : Bool) → ((a ≡ true) ↔ P) → ((b ≡ true) ↔ Q) → ((a || b) ≡ true) ↔ (P ⊎ Q)
or_iff true true e f = (λ h. inl (e.0 refl), λ h. refl)
or_iff true false e f = (λ h. inl (e.0 refl), λ h. refl)
or_iff false true e f = (λ h. inr (f.0 refl), λ h. refl)
or_iff false false e f = (λ h. cc, λ d. elim d [ inl p ↦ e.1 p | inr q ↦ f.1 q ])

pub contains_iff :
    (tags : TagList) (tag : Bytes) → (contains tags tag ≡ true) ↔ Any (λ t. t ≡ tag) tags
unfolding contains
contains_iff [] tag = (λ h. cc, λ h. elim h [ ])
contains_iff (t ∷ tags) tag =
    or_iff (eqb t tag) (contains tags tag) (eqb_iff t tag) (contains_iff tags tag)

has_prefix_iff : (s p : Bytes) → (has_prefix s p ≡ true) ↔ ((rest : Bytes) × (s ≡ p ++ rest))
has_prefix_iff s p = (has_prefix_sound s p, λ (rest, e). rw e (has_prefix-append p rest))

prefix_iff :
    (tags : TagList) (prefix : Bytes)
    → (contains_matching_prefix tags prefix ≡ true)
      ↔ Any (λ t. (rest : Bytes) × (t ≡ prefix ++ rest)) tags
unfolding contains_matching_prefix
prefix_iff [] prefix = (λ h. cc, λ h. elim h [ ])
prefix_iff (t ∷ tags) prefix =
    or_iff (has_prefix t prefix) (contains_matching_prefix tags prefix) (has_prefix_iff t prefix)
      (prefix_iff tags prefix)

contains_any_self : (tags : TagList) → (contains_any tags tags ≡ true) ↔ (tags ≢ [])
unfolding contains_any contains
contains_any_self [] = (λ h. cc, λ h. absurd (h refl))
contains_any_self (t ∷ tags) = (λ h. cons-ne-nil t tags, λ h. rw (eqb_refl t))

admits_sound :
    (source target : FlowInstance) (service : FlowService) (flow : ParsedFlow)
    → admits source target service flow ≡ true
    → (source.tags ≢ []) × Permits target service flow
unfolding admits
admits_sound source target service flow h = (
  (contains_any_self source.tags).0 (ground arith),
  (
    elim (Bool-cases (eqb flow.instance_name (codes "*"))) [
      | inl e ↦ inl (
        (eqb_iff flow.instance_name (codes "*")).0 e,
        (prefix_iff target.tags (flow.tag ++ codes "/")).0 (ground arith),
      )
      | inr e ↦ inr (
        λ q. false≢true (sym e ∙ (eqb_iff flow.instance_name (codes "*")).1 q),
        (contains_iff target.tags (flow.tag ++ (b'/' ∷ flow.instance_name))).0 (ground arith),
      )
    ],
    (contains_iff service.tags flow.service).0 (ground arith),
  ),
)

admits_complete :
    (source target : FlowInstance) (service : FlowService) (flow : ParsedFlow)
    → source.tags ≢ []
    → Permits target service flow
    → admits source target service flow ≡ true
unfolding admits
admits_complete source target service flow ne (inl (star, tagged), served) = rw (
  (contains_any_self source.tags).1 ne,
  (eqb_iff flow.instance_name (codes "*")).1 star,
  (prefix_iff target.tags (flow.tag ++ codes "/")).1 tagged,
  (contains_iff service.tags flow.service).1 served,
)
admits_complete source target service flow ne (inr (star, tagged), served) = rw (
  (contains_any_self source.tags).1 ne,
  eqb_ne flow.instance_name (codes "*") star,
  (contains_iff target.tags (flow.tag ++ (b'/' ∷ flow.instance_name))).1 tagged,
  (contains_iff service.tags flow.service).1 served,
)

any_admits_iff :
    (source target : FlowInstance) (service : FlowService) (flows : List ParsedFlow)
    → (any_admits source target service flows ≡ true)
      ↔ ((source.tags ≢ []) × Any (Permits target service) flows)
unfolding any_admits
any_admits_iff source target service [] = (λ h. cc, λ h. elim h.1 [ ])
any_admits_iff source target service (flow ∷ flows) =
    let rest = any_admits_iff source target service flows in
    (
      λ h. elim (Bool-cases (admits source target service flow)) [
        | inl e ↦ let (ne, p) = admits_sound source target service flow e in (ne, inl p)
        | inr e ↦ let (ne, p) = rest.0 (ground arith) in (ne, inr p)
      ],
      λ (ne, d). elim d [
        | inl p ↦ rw (admits_complete source target service flow ne p)
        | inr p ↦ let q = rest.1 (ne, p) in ground arith
      ],
    )

-- `handleConnection` hands the connection over exactly when the policy permits it: the source has
-- a tag, and one of its rules names the target (`*` for any instance under the rule's tag) and a
-- tag of the service.
pub handle_connection_iff :
    (source target : FlowInstance) (service : FlowService)
    → (handle_connection source target service ≡ true) ↔ Permitted source target service
unfolding handle_connection
handle_connection_iff source target service = any_admits_iff source target service source.flows
